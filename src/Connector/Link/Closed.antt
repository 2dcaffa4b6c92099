-- ===== src/Connector/Link/Closed.antt =====
-- That what came up is closed: `connect` and `disconnect` of connector.ts.
use toa.Prelude.{
  ℕ, ◌+◌, ◌≡◌, refl, sym, ◌∙◌, Bool, true, false, not, ◌&&◌, ◌||◌, ==_iff, Option, none, some, List,
  [], ◌∷◌, if◌then◌else◌, arith, Bool-cases, inl, inr,
}
use toa.Prelude.Maps.{contains, remove, contains-remove}
use toa.Connector.Link.{
  Link, new, given, is_current, connect, disconnect, drop, discard, report, land, fail, closed,
  Event, connects, closes_down, disposes, lands, fails, disconnects, discards, step, run,
}

-- Whether a connection is up that has not begun to close.
abbrev pub in_use : Link → ℕ
in_use l = if l.connected && not l.closing then 1 else 0

-- Of a number, whether a connection of it is at work and is the current one.
abbrev IsAtWork : Link → ℕ → Type 0
IsAtWork l k = (is_current k l.connecting ≡ true) × (contains k l.opening ≡ true)

pub record IsLinked (l : Link) : Type 0 where
  pub counted : l.up ≡ l.closes + l.cuts + in_use l
  pub closes : l.closing ≡ true → (l.disconnecting ≡ true) × (l.connected ≡ true)
  pub stands : l.connected ≡ true → given l.connecting ≡ true
  pub landed :
      (k : ℕ) → l.connected ≡ true → is_current k l.connecting ≡ true → contains k l.opening ≡ false

false-ne-true : {b : Bool} → b ≡ false → b ≡ true → ⊥
false-ne-true f t = cc

connect-IsLinked : (l : Link) → IsLinked l → IsLinked (connect l)
unfolding connect given is_current
connect-IsLinked l v = elim (Bool-cases (given l.connecting)) [
  | inl up ↦ simp up v
  | inr down ↦
      let off : l.connected ≡ false = ground arith in
      simp down (record {
        counted = v.counted;
        closes = λ c. absurd (false-ne-true off (v.closes c).1);
        stands = λ c. refl;
        landed = λ k c i. absurd (false-ne-true off c);
      })
]
  where
    open v use {stands}

disconnect-IsLinked :
    (interrupt linked : Bool) (l : Link) → IsLinked l → IsLinked (disconnect interrupt linked l)
unfolding disconnect
disconnect-IsLinked interrupt linked l v = elim (Bool-cases l.disconnecting) [
  | inl again ↦ simp again v
  | inr first ↦ elim (Bool-cases (linked && not interrupt)) [
    | inl held ↦ simp (first, held) v
    | inr free ↦
        let open_still : l.closing ≡ false = ground (arith, v.closes) in
        elim (Bool-cases (interrupt || not l.connected)) [
          | inl pending ↦
              simp (first, free, pending)
                (record {
                  counted = ground (arith, v.counted);
                  closes = λ c. absurd (false-ne-true open_still c);
                  stands = λ c. cc;
                  landed = λ k c i. cc;
                })
          | inr up ↦
              let there : l.connected ≡ true = ground arith in
              simp (first, free, up)
                (record {
                  counted = ground (arith, v.counted);
                  closes = λ c. (refl, there);
                  stands = v.stands;
                  landed = v.landed;
                })
        ]
  ]
]

drop-IsLinked : (linked : Bool) (l : Link) → IsLinked l → IsLinked (drop linked l)
unfolding drop
drop-IsLinked linked l v =
    disconnect-IsLinked false linked (record l { discarded = false })
      (record { counted = v.counted; closes = v.closes; stands = v.stands; landed = v.landed })

discard-IsLinked : (linked : Bool) (l : Link) → IsLinked l → IsLinked (discard linked l)
unfolding discard
discard-IsLinked linked l v =
    let marked = record l { discarded = true } in
    let kept : IsLinked marked = record {
      counted = v.counted;
      closes = v.closes;
      stands = v.stands;
      landed = v.landed;
    } in
    elim (Bool-cases (given l.connecting)) [
      | inl coming ↦ simp coming (drop-IsLinked linked marked kept)
      | inr down ↦ simp down kept
    ]

fewer : (k j : ℕ) (ks : List ℕ) → contains j ks ≡ false → contains j (remove k ks) ≡ false
fewer k j ks h = ground (arith, contains-remove j k ks)

is_current-eq : (k j : ℕ) (o : Option ℕ) → is_current k o ≡ true → is_current j o ≡ true → j ≡ k
unfolding is_current
is_current-eq k j none h i = cc
is_current-eq k j (some n) h i = (==_iff j n).0 i ∙ sym ((==_iff k n).0 h)

given-is_current : (k : ℕ) (o : Option ℕ) → is_current k o ≡ true → given o ≡ true
unfolding is_current given
given-is_current k none h = cc
given-is_current k (some n) h = refl

report-IsLinked :
    (k : ℕ) (l : Link) → contains k l.opening ≡ true → IsLinked l → IsLinked (report k l)
unfolding report
report-IsLinked k l work v = elim (Bool-cases (is_current k l.connecting)) [
  | inl current ↦
      let down : l.connected ≡ false = ground (arith, v.landed k) in
      let open_still : l.closing ≡ false = ground (arith, v.closes) in
      simp current (record {
        counted = ground (arith, v.counted);
        closes = λ c. absurd (false-ne-true open_still c);
        stands = λ c. given-is_current k l.connecting current;
        landed = λ j c i.
            let same = is_current-eq k j l.connecting current i in
            ground (arith, contains-remove j k l.opening);
      })
  | inr stale ↦ simp stale (record {
    counted = v.counted;
    closes = v.closes;
    stands = v.stands;
    landed = λ j c i. fewer k j l.opening (v.landed j c i);
  })
]

land-IsLinked : (k : ℕ) (linked : Bool) (l : Link) → IsLinked l → IsLinked (land k linked l)
unfolding land
land-IsLinked k linked l v = elim (Bool-cases (contains k l.opening)) [
  | inl work ↦
      let reported = report-IsLinked k l work v in
      elim (Bool-cases (report k l).discarded) [
        | inl discarded ↦ simp (work, discarded) (drop-IsLinked linked (report k l) reported)
        | inr wanted ↦ simp (work, wanted) reported
      ]
  | inr ended ↦ simp ended v
]

fail-IsLinked : (k : ℕ) (l : Link) → IsLinked l → IsLinked (fail k l)
unfolding fail
fail-IsLinked k l v = elim (Bool-cases (contains k l.opening)) [
  | inl work ↦ simp work (
      disconnect-IsLinked true false (record l { opening = remove k l.opening })
        (record {
          counted = v.counted;
          closes = v.closes;
          stands = v.stands;
          landed = λ j c i. fewer k j l.opening (v.landed j c i);
        }))
  | inr ended ↦ simp ended v
]

closed-IsLinked : (l : Link) → IsLinked l → IsLinked (closed l)
unfolding closed
closed-IsLinked l v = elim (Bool-cases l.closing) [
  | inl closing ↦ simp closing (record {
    counted = ground (arith, v.counted, v.closes);
    closes = λ c. cc;
    stands = λ c. cc;
    landed = λ k c i. cc;
  })
  | inr open_still ↦ simp open_still v
]

step-IsLinked : (e : Event) (l : Link) → IsLinked l → IsLinked (step e l)
unfolding step
step-IsLinked connects l v = connect-IsLinked l v
step-IsLinked closes_down l v = closed-IsLinked l v
step-IsLinked disposes l v = record {
  counted = v.counted;
  closes = v.closes;
  stands = v.stands;
  landed = v.landed;
}
step-IsLinked (lands k linked) l v = land-IsLinked k linked l v
step-IsLinked (fails k) l v = fail-IsLinked k l v
step-IsLinked (disconnects linked) l v = disconnect-IsLinked false linked l v
step-IsLinked (discards linked) l v = discard-IsLinked linked l v

pub run-IsLinked : (es : List Event) (l : Link) → IsLinked l → IsLinked (run es l)
unfolding run
run-IsLinked [] l v = v
run-IsLinked (e ∷ es) l v = run-IsLinked es (step e l) (step-IsLinked e l v)

pub new-IsLinked : IsLinked new
unfolding new given
new-IsLinked = record {
  counted = omega arith;
  closes = λ c. cc;
  stands = λ c. cc;
  landed = λ k c i. cc;
}
