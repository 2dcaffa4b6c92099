-- ===== src/Auth/Identities/Vetted.antt =====
-- Which identities were looked up among the bans: `resolve` and `preflight` of Authorization.ts.
use toa.Prelude.{
  ℕ, ◌≡◌, refl, ◌⊎◌, inl, inr, Bool, true, false, not, ◌&&◌, Option, none, some, List, ltb,
  if◌then◌else◌, arith, Bool-cases,
}
use toa.Prelude.Texts.{Text}
use toa.Auth.Identities.{
  Remote, Identity, Answer, accepted, rejected, Remotes, Result, ok, raise, Context, split,
  providers, is_primary, claimed, refuse, admit, concluded, asked, parted, resolve, audience, heard,
  presenting, preflight,
}

-- The part of a context that only reading a credential changes.
abbrev pub standing : Context → Bool × Option Text
standing c = (c.vetted, c.authorization)

-- A context is vetted no more than it was, or is of an identity that is not banned.
unfoldable pub Clears : Remotes → Context → Result (Context × Bool) → Type 0
Clears w c (raise e) = Unit
Clears w c (ok (c', used)) =
    (standing c' ≡ standing c)
    ⊎ ((i : Identity) × (c'.identity ≡ some i)
        × (w.banned i.id ≡ false)
        × (c'.authorization ≡ c.authorization))

if-Clears :
    (w : Remotes) (c : Context) (b : Bool) (x y : Result (Context × Bool))
    → Clears w c x
    → Clears w c y
    → Clears w c (if b then x else y)
if-Clears w c true x y h h' = h
if-Clears w c false x y h h' = h'

admit-Clears :
    (w : Remotes) (by : Text) (c : Context) (r : Remote) (refreshes : Bool) (i : Identity)
    → (not (is_primary r) && w.banned i.id) ≡ false
    → Clears w c (ok (admit by r refreshes i c, false))
unfolding Clears admit
admit-Clears w by c r refreshes i free = elim (Bool-cases (is_primary r)) [
  | inl prime ↦ inl (rw prime refl)
  | inr alien ↦ inr (_, refl, ground arith, refl)
]

concluded-Clears :
    (w : Remotes) (by : Text) (c : Context) (o : Option (Remote × Answer))
    → Clears w c (concluded w by c o)
unfolding concluded Clears refuse
concluded-Clears w by c none = inl refl
concluded-Clears w by c (some (r, rejected none)) = inl refl
concluded-Clears w by c (some (r, rejected (some code))) = inl refl
concluded-Clears w by c (some (r, accepted i refreshes)) =
    elim (Bool-cases (not (is_primary r) && w.banned i.id)) [
      | inl ban ↦ rw ban tt
      | inr free ↦ rw free (admit-Clears w by c r refreshes i free)
    ]

asked-Clears :
    (w : Remotes) (by credentials : Text) (c : Context) (o : Option (List Remote))
    → Clears w c (asked w by credentials c o)
unfolding asked
asked-Clears w by credentials c none = unfold Clears in tt
asked-Clears w by credentials c (some rs) = concluded-Clears w by c (claimed _ rs)

parted-Clears : (w : Remotes) (c : Context) (o : Option (Text × Text)) → Clears w c (parted w c o)
unfolding parted
parted-Clears w c none = unfold Clears in tt
parted-Clears w c (some (by, credentials)) =
    asked-Clears w (w.lower by) credentials c (providers (w.lower by))

heard-Clears :
    (w : Remotes) (c : Context) (r : Result (Context × Bool))
    → Clears w c r
    → Clears w c (heard w r)
unfolding heard
heard-Clears w c (raise e) h = h
heard-Clears w c (ok (c', used)) h =
    if-Clears w c (audience w c' c'.identity) _ _ h (unfold Clears in tt)

presenting-Clears :
    (w : Remotes) (retry : ℕ) (transfers : Bool) (c : Context) (o : Option Text)
    → Clears w c (presenting w retry transfers c o)
unfolding presenting resolve
presenting-Clears w retry transfers c none = unfold Clears in inl refl
presenting-Clears w retry transfers c (some header) =
    if-Clears w c transfers _ _ (unfold Clears in inl refl) (
      heard-Clears w c (resolve w retry c header)
        (if-Clears w c (ltb 0 retry) _ _ (unfold Clears in tt) (parted-Clears w c (split header))))

-- What `preflight` leaves of who calls: where it was vetted, it is not banned.
pub preflight-Clears :
    (w : Remotes) (retry : ℕ) (transfers : Bool) (c : Context)
    → Clears w c (preflight w retry transfers c)
unfolding preflight
preflight-Clears w retry transfers c = presenting-Clears w retry transfers c c.authorization

-- A request with no header is nobody's.
pub preflight-headless :
    (w : Remotes) (retry : ℕ) (transfers : Bool) (c : Context)
    → c.authorization ≡ none
    → preflight w retry transfers c ≡ ok (record c { identity = none }, false)
unfolding preflight presenting
preflight-headless w retry transfers c h = rw h refl
