-- ===== src/Call/Invoke/Prepared.antt =====
-- What is so of a call that is handed over: `invoke` of call.ts.
use Prim.Native.String.{String}
use toa.Prelude.{
  ◌≡◌, refl, ap, sym, ◌∙◌, Bool, true, false, ◌&&◌, ◌||◌, Option, none, some, Bool-cases,
  Option-cases, inl, inr,
}
use toa.Prelude.Texts.{Text}
use toa.Call.{Invocation, Request, Options, Envelope, Callee, ok, raise, refuse}
use toa.Call.Admission.{IsLawful, refuse_iff}
use toa.Call.Invoke.{prepare, identified, identity, identity_in, addressed, enveloped, fitted}

pub some_of {ℓ} : {A : Type ℓ} {a b : A} → some a ≡ some b → a ≡ b
some_of h = cc

-- An invocation is counted the calls of, and is otherwise as it was.
abbrev pub Counts : Invocation → Option Invocation → Type 0
Counts j none = ⊥
Counts j (some k) = k ≡ record j { calls = k.calls }

module _ {R : Type 0} (digest : Text → Text) (fits : Envelope R → Bool) where
  identity_in-Counts :
      (minted : Text) (target : String) (j : Invocation) (id : Option Text)
      → Counts j (identity_in digest minted target j id).1
  unfolding identity_in
  identity_in-Counts minted target j none = refl
  identity_in-Counts minted target j (some id) = refl

  identified-Counts :
      (minted : Text) (target : String) (j : Invocation) (given : Option Text)
      → Counts j (identified digest fits minted target (some j) given).1
  unfolding identified identity
  identified-Counts minted target j none = identity_in-Counts minted target j j.id
  identified-Counts minted target j (some id) = refl

  pub prepare-Counts :
      (c : Callee) (minted : Text) (j : Invocation) (q : Request R) (o : Options)
      → Counts j (prepare digest fits c minted (some j) q o).1
  unfolding prepare addressed
  prepare-Counts c minted j q o = elim (Bool-cases (c.once && j.retried)) [
    | inl twice ↦ simp twice refl
    | inr once ↦ elim (Option-cases (refuse c q o (q.readonly || j.readonly))) [
      | inl let_through ↦ simp (once, let_through) (identified-Counts minted c.target j q.id)
      | inr (e, refused) ↦ simp (once, refused) refl
    ]
  ]

  -- An envelope that is handed over, from within an invocation.
  pub record IsPrepared (c : Callee) (j : Invocation) (q : Request R) (o : Options) (e : Envelope R)
      : Type 0 where
    pub once : c.once && j.retried ≡ false
    pub lawful : IsLawful c q o (q.readonly || j.readonly)
    pub readonly : e.readonly ≡ (q.readonly || j.readonly)
    pub fit : fits e ≡ true

  fitted_ok : (e e' : Envelope R) → fitted digest fits e ≡ ok e' → (e ≡ e') × (fits e ≡ true)
  unfolding fitted
  fitted_ok e e' h = elim (Bool-cases (fits e)) [
    | inl fit ↦ let h' : ok e ≡ ok e' = rw fit at h in (cc, fit)
    | inr unfit ↦ let h' : raise _ ≡ ok e' = rw unfit at h in cc
  ]

  pub prepare-IsPrepared :
      (c : Callee) (minted : Text) (j : Invocation) (q : Request R) (o : Options) (e : Envelope R)
      → (prepare digest fits c minted (some j) q o).0 ≡ ok e
      → IsPrepared c j q o e
  unfolding prepare addressed enveloped
  prepare-IsPrepared c minted j q o e h = elim (Bool-cases (c.once && j.retried)) [
    | inl twice ↦ cc (simp twice at h)
    | inr once ↦ elim (Option-cases (refuse c q o (q.readonly || j.readonly))) [
      | inl let_through ↦
          let id = (identified digest fits minted c.target (some j) q.id).0 in
          let made = enveloped digest fits c (some j) q (q.readonly || j.readonly) id in
          let h' : fitted digest fits made ≡ ok e = simp (once, let_through) at h in
          let (same, fit) = fitted_ok made e h' in
          record {
            once = once;
            lawful = (refuse_iff c q o (q.readonly || j.readonly)).0 let_through;
            readonly = ap (λ x. x.readonly) (sym same);
            fit = ap fits (sym same) ∙ fit;
          }
      | inr (x, refused) ↦ cc (simp (once, refused) at h)
    ]
  ]
