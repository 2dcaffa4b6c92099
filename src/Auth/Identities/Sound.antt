-- ===== src/Auth/Identities/Sound.antt =====
-- What an identity rests on: `preflight`, `resolve` and the audience, of Authorization.ts.
use toa.Prelude.{
  ℕ, ◌≡◌, ◌≢◌, refl, ap, sym, ◌∙◌, ◌⊎◌, inl, inr, ◌↔◌, Bool, true, false, not, ◌&&◌, Option, none,
  some, List, [], ◌∷◌, ◌++◌, All, ltb, arith, Bool-cases, Option-cases,
}
use toa.Prelude.Texts.{Text, IsBelow, below_iff}
use toa.Auth.Identities.{
  Remote, Identity, Answer, accepted, rejected, Remotes, Result, ok, raise, Context, split,
  providers, is_primary, declined, unrecognized, claimed, refuse, admit, concluded, asked, parted,
  resolve, slash, stripped, begins, prefixed, audience, heard, presenting, preflight,
}

-- A provider of a list answers, where those before it declined.
pub record Claims (ask : Remote → Answer) (rs : List Remote) (r : Remote) (a : Answer)
    : Type 0 where
  pub earlier : List Remote
  pub later : List Remote
  pub split_at : rs ≡ earlier ++ r ∷ later
  pub declining : All (λ x. declined (ask x) ≡ true) earlier
  pub claiming : declined (ask r) ≡ false
  pub answering : ask r ≡ a

claimed-Claims :
    (ask : Remote → Answer) (rs : List Remote) (r : Remote) (a : Answer)
    → claimed ask rs ≡ some (r, a)
    → Claims ask rs r a
unfolding claimed
claimed-Claims ask [] r a h = cc
claimed-Claims ask (x ∷ rs) r a h = elim (Bool-cases (declined (ask x))) [
  | inl passed ↦
      let more = claimed-Claims ask rs r a (rw passed at h) in
      record {
        earlier = x ∷ more.earlier;
        later = more.later;
        split_at = ap (λ s. x ∷ s) more.split_at;
        declining = (passed, more.declining);
        claiming = more.claiming;
        answering = more.answering;
      }
  | inr took ↦
      let h' : some (x, ask x) ≡ some (r, a) = rw took at h in
      let same : x ≡ r = cc h' in
      let answer : ask x ≡ a = cc h' in
      record {
        earlier = [];
        later = rs;
        split_at = ap (λ y. y ∷ rs) same;
        declining = tt;
        claiming = ap (λ y. declined (ask y)) (sym same) ∙ took;
        answering = ap ask (sym same) ∙ answer;
      }
]

-- What an identity that was resolved of a header rests on.
pub record IsVouched (w : Remotes) (header : Text) (was vetted : Bool) (i : Identity) : Type 0 where
  pub by : Text
  pub credentials : Text
  pub asks : List Remote
  pub provider : Remote
  pub named : Identity
  pub refreshes : Bool
  pub parts : split header ≡ some (by, credentials)
  pub of_scheme : providers (w.lower by) ≡ some asks
  pub claims :
      Claims
        (λ r. w.authenticate r (w.lower by) credentials)
        asks
        provider
        (accepted named refreshes)
  pub same_id : i.id ≡ named.id
  pub unbanned :
      ((is_primary provider ≡ true) × (vetted ≡ was)) ⊎ ((w.banned i.id ≡ false) × (vetted ≡ true))
  pub provided : i.provider ≡ some provider

-- What the end of `resolve` leaves of an identity.
Concluded : Remotes → Context → Option (Remote × Answer) → Context → Identity → Type 0
Concluded w c o c' i =
    (r : Remote) × (named : Identity) × (refreshes : Bool) × (o
      ≡ some (r, accepted named refreshes))
    × (i.id ≡ named.id)
    × (((is_primary r ≡ true) × (c'.vetted ≡ c.vetted))
        ⊎ ((w.banned i.id ≡ false) × (c'.vetted ≡ true)))
    × (i.provider ≡ some r)

concluded_lem :
    (w : Remotes) (by : Text) (c : Context) (o : Option (Remote × Answer)) (c' : Context)
    (used : Bool) (i : Identity)
    → concluded w by c o ≡ ok (c', used)
    → c'.identity ≡ some i
    → Concluded w c o c' i
unfolding concluded refuse admit Concluded
concluded_lem w by c none c' used i h e =
    let same : refuse (some unrecognized) c ≡ c' = cc h in
    let gone : none ≡ some i = ap (λ x. x.identity) same ∙ e in cc
concluded_lem w by c (some (r, rejected none)) c' used i h e =
    let same : refuse none c ≡ c' = cc h in
    let gone : none ≡ some i = ap (λ x. x.identity) same ∙ e in cc
concluded_lem w by c (some (r, rejected (some code))) c' used i h e =
    let same : refuse (some code) c ≡ c' = cc h in
    let gone : none ≡ some i = ap (λ x. x.identity) same ∙ e in cc
concluded_lem w by c (some (r, accepted named refreshes)) c' used i h e =
    elim (Bool-cases (not (is_primary r) && w.banned named.id)) [
      | inl ban ↦ let no_context = rw ban at h in cc
      | inr free ↦
          let h' : ok (admit by r refreshes named c, false) ≡ ok (c', used) = rw free at h in
          let same : admit by r refreshes named c ≡ c' = cc h' in
          let who : some (record named { scheme = some by; provider = some r; refresh = refreshes })
              ≡ some i =
            ap (λ x. x.identity) same ∙ e in
          let is : record named { scheme = some by; provider = some r; refresh = refreshes } ≡ i =
            cc who in
          let vet = ap (λ x. x.vetted) same in
          (
            r,
            named,
            refreshes,
            refl,
            sym (ap (λ x. x.id) is),
            elim (Bool-cases (is_primary r)) [
              | inl prime ↦ inl (prime, ground arith)
              | inr alien ↦ inr (ap w.banned (sym (ap (λ x. x.id) is)) ∙ ground arith, ground arith)
            ],
            sym (ap (λ x. x.provider) is),
          )
    ]

resolve-IsVouched :
    (w : Remotes) (retry : ℕ) (c : Context) (header : Text) (c' : Context) (used : Bool)
    (i : Identity)
    → resolve w retry c header ≡ ok (c', used)
    → c'.identity ≡ some i
    → IsVouched w header c.vetted c'.vetted i
unfolding resolve parted asked Concluded
resolve-IsVouched w retry c header c' used i h e = elim (Bool-cases (ltb 0 retry)) [
  | inl late ↦ let stop = rw late at h in cc
  | inr fine ↦
      let h' : parted w c (split header) ≡ ok (c', used) = rw fine at h in
      elim (Option-cases (split header)) [
        | inl none_there ↦ let stop = rw none_there at h' in cc
        | inr ((by, credentials), parts) ↦
            let h2 : asked w (w.lower by) credentials c (providers (w.lower by)) ≡ ok (c', used) =
              rw parts at h' in
            elim (Option-cases (providers (w.lower by))) [
              | inl no_scheme ↦ let stop = rw no_scheme at h2 in cc
              | inr (rs, known) ↦
                  let ask : Remote → Answer = λ r. w.authenticate r (w.lower by) credentials in
                  let h3 : concluded w (w.lower by) c (claimed ask rs) ≡ ok (c', used) =
                    rw known at h2 in
                  let (r, named, refreshes, took, same, ban, given) =
                    concluded_lem w (w.lower by) c (claimed ask rs) c' used i h3 e in
                  record {
                    by = by;
                    credentials = credentials;
                    asks = rs;
                    provider = r;
                    named = named;
                    refreshes = refreshes;
                    parts = parts;
                    of_scheme = known;
                    claims = claimed-Claims ask rs r (accepted named refreshes) took;
                    same_id = same;
                    unbanned = ban;
                    provided = given;
                  }
            ]
      ]
]

heard_lem :
    (w : Remotes) (r : Result (Context × Bool)) (c : Context) (used : Bool)
    → heard w r ≡ ok (c, used)
    → (r ≡ ok (c, used)) × (audience w c c.identity ≡ true)
unfolding heard
heard_lem w (raise e) c used h = cc
heard_lem w (ok (c', used')) c used h = elim (Bool-cases (audience w c' c'.identity)) [
  | inl fits ↦
      let same : ok (c', used') ≡ ok (c, used) = rw fits at h in
      let context : c' ≡ c = cc same in
      (same, ap (λ x. audience w x x.identity) (sym context) ∙ fits)
  | inr foreign ↦ let stop = rw foreign at h in cc
]

no_identity :
    (c c' : Context) (used used' : Bool) (i : Identity)
    → ◌≡◌ {A = Result (Context × Bool)} (ok (record c { identity = none }, used')) (ok (c', used))
    → c'.identity ≢ some i
no_identity c c' used used' i h e =
    let same : record c { identity = none } ≡ c' = cc h in
    let gone : none ≡ some i = ap (λ x. x.identity) same ∙ e in cc

-- What `preflight` makes of a header.
Presented : Remotes → Option Text → Bool → Context → Context → Identity → Type 0
Presented w o transfers c c' i =
    (header : Text) × (o ≡ some header)
    × (transfers ≡ false)
    × IsVouched w header c.vetted c'.vetted i
    × (audience w c' (some i) ≡ true)

presenting-Presented :
    (w : Remotes) (retry : ℕ) (transfers : Bool) (c : Context) (o : Option Text) (c' : Context)
    (used : Bool) (i : Identity)
    → presenting w retry transfers c o ≡ ok (c', used)
    → c'.identity ≡ some i
    → Presented w o transfers c c' i
unfolding presenting Presented
presenting-Presented w retry transfers c none c' used i h e =
    absurd (no_identity c c' used false i h e)
presenting-Presented w retry true c (some header) c' used i h e =
    absurd (no_identity c c' used false i h e)
presenting-Presented w retry false c (some header) c' used i h e =
    let (found, fits) = heard_lem w (resolve w retry c header) c' used h in
    (
      header,
      refl,
      refl,
      resolve-IsVouched w retry c header c' used i found e,
      ap (audience w c') (sym e) ∙ fits,
    )

-- An identity that a request is given: its header was read, no directive transfers it, and it was
-- answered by the first provider of its scheme that did not decline, which names the identity; where
-- that is not the component of tokens, the identity is not banned. The request is to what its token
-- was issued for.
pub preflight-IsVouched :
    (w : Remotes) (retry : ℕ) (transfers : Bool) (c c' : Context) (used : Bool) (i : Identity)
    → preflight w retry transfers c ≡ ok (c', used)
    → c'.identity ≡ some i
    → (header : Text) × (c.authorization ≡ some header)
      × (transfers ≡ false)
      × IsVouched w header c.vetted c'.vetted i
      × (audience w c' (some i) ≡ true)
unfolding preflight Presented
preflight-IsVouched w retry transfers c c' used i h e =
    presenting-Presented w retry transfers c c.authorization c' used i h e

begins_iff :
    (prefix pathname : Text)
    → (begins prefix pathname ≡ true) ↔ ((prefix ≡ []) ⊎ IsBelow slash prefix pathname)
unfolding begins
begins_iff [] pathname = (λ h. inl refl, λ h. refl)
begins_iff (c ∷ p) pathname =
    let same = below_iff slash (c ∷ p) pathname in
    (λ h. inr (same.0 h), λ h. elim h [ inl e ↦ cc | inr b ↦ same.1 b ])

-- A path that is declared covers itself and what is below it, where it is read without a slash at
-- its end: `/a` covers `/a` and `/a/b`, and not `/ab`. One that is empty then covers every path.
pub prefixed_iff :
    (declared pathname : Text)
    → (prefixed declared pathname ≡ true)
      ↔ ((stripped declared ≡ []) ⊎ IsBelow slash (stripped declared) pathname)
unfolding prefixed
prefixed_iff declared pathname = begins_iff (stripped declared) pathname
