-- ===== src/Auth/Directives/Incepted.antt =====
-- What incepting leaves: `incept` of extensions/exposition/source/directives/auth/Incept.ts.
use toa.Prelude.{◌≡◌, refl, ap, ◌∙◌, false, Option, none, some, List, Bool-cases, inl, inr}
use toa.Prelude.Texts.{Text}
use toa.Auth.Identities.{Remote, Identity, Remotes, Result, ok, raise, split, providers}
use toa.Auth.Directives.{born, incepted_by, incepted_of, incepted_parts, incepted}

-- An identity that was incepted is not banned.
unfoldable pub Incepts : Remotes → Result Identity → Type 0
Incepts w (raise e) = Unit
Incepts w (ok i) = w.banned i.id ≡ false

module _ (w : Remotes)
    (named_so : (r : Remote) (by who credentials : Text) (i : Identity)
      → w.incept r by who credentials ≡ some i
      → i.id ≡ who) where
  born-Incepts :
      (by new : Text) (o : Option Identity)
      → ((i : Identity) → o ≡ some i → i.id ≡ new)
      → w.banned new ≡ false
      → Incepts w (born by o)
  unfolding born Incepts
  born-Incepts by new none h free = tt
  born-Incepts by new (some i) h free = ap w.banned (h i refl) ∙ free

  incepted_by-Incepts :
      (new by credentials : Text) (o : Option Remote)
      → Incepts w (incepted_by w new by credentials o)
  unfolding incepted_by
  incepted_by-Incepts new by credentials none = unfold Incepts in tt
  incepted_by-Incepts new by credentials (some r) = elim (Bool-cases (w.banned new)) [
    | inl ban ↦ rw ban (unfold Incepts in tt)
    | inr free ↦
        rw free
          (born-Incepts by new (w.incept r by new credentials) (named_so r by new credentials) free)
  ]

  incepted_of-Incepts :
      (new by credentials : Text) (o : Option (List Remote))
      → Incepts w (incepted_of w new by credentials o)
  unfolding incepted_of
  incepted_of-Incepts new by credentials none = unfold Incepts in tt
  incepted_of-Incepts new by credentials (some rs) = incepted_by-Incepts new by credentials _

  parts-Incepts : (new : Text) (o : Option (Text × Text)) → Incepts w (incepted_parts w new o)
  unfolding incepted_parts
  parts-Incepts new none = unfold Incepts in tt
  parts-Incepts new (some (by, credentials)) =
      incepted_of-Incepts new (w.lower by) credentials (providers (w.lower by))

  -- With the ban of who it is for looked up, what is incepted is of nobody who is banned.
  pub incepted-Incepts : (header new : Text) → Incepts w (incepted w header new)
  unfolding incepted
  incepted-Incepts header new = parts-Incepts new (split header)
