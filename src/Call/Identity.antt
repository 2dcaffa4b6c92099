-- ===== src/Call/Identity.antt =====
-- The name that an identity is derived from: `name` of entities/newid.ts. A part is a text, in code
-- units, or a whole number; the digest of a name is node:crypto's.
use toa.Prelude.{
  ℕ, zero, suc, ◌+◌, ◌-◌, ◌*◌, ◌/◌, ◌%◌, ◌<◌, ◌≡◌, ◌≢◌, refl, ap, sym, ◌∙◌, false, List, [], ◌∷◌,
  ◌++◌, length, ltb, ◌==◌, if◌then◌else◌, arith, Bool-cases, inl, inr, All, map,
}
use toa.Prelude.Texts.{Text}

-- `String(n)` of a whole number, on fuel that the number itself bounds
digits : ℕ → ℕ → Text
digits zero n = []
digits (suc fuel) n =
    let more = digits fuel (n / 10) ++ (b'0' + n % 10) ∷ [] in
    if ltb n 10 then (b'0' + n) ∷ [] else more

pub decimal : ℕ → Text
unfolding digits
decimal n = digits (suc n) n

pub data Part : Type 0 where
  textual : Text → Part
  numeric : ℕ → Part

-- `String(part)`
unfoldable pub string : Part → Text
unfolding decimal
string (textual s) = s
string (numeric n) = decimal n

abbrev pub colon : ℕ
colon = b':'

-- The loop of `name`: `value.length + ':' + value`, for each part.
unfoldable pub name : List Part → Text
unfolding decimal string
name [] = []
name (part ∷ parts) =
    let value = string part in decimal (length value) ++ colon ∷ (value ++ name parts)

-- What a decimal says.
read : ℕ → Text → ℕ
read acc [] = acc
read acc (c ∷ s) = read (acc * 10 + (c - b'0')) s

read-append : (acc : ℕ) (s t : Text) → read acc (s ++ t) ≡ read (read acc s) t
unfolding read
read-append acc [] t = refl
read-append acc (c ∷ s) t = read-append (acc * 10 + (c - b'0')) s t

read-digits : (fuel n : ℕ) → n < fuel → read 0 (digits fuel n) ≡ n
unfolding digits read
read-digits zero n h = absurd (omega arith)
read-digits (suc fuel) n h = elim (Bool-cases (ltb n 10)) [
  | inl short ↦ rw short (omega arith)
  | inr long ↦
      let rest = read-digits fuel (n / 10) (ground arith) in
      rw long (
        read-append 0 (digits fuel (n / 10)) ((b'0' + n % 10) ∷ [])
        ∙ ap (λ x. x * 10 + (b'0' + n % 10 - b'0')) rest
        ∙ omega arith)
]

read-decimal : (n : ℕ) → read 0 (decimal n) ≡ n
unfolding decimal
read-decimal n = read-digits (suc n) n (omega arith)

pub decimal_inj : (m n : ℕ) → decimal m ≡ decimal n → m ≡ n
decimal_inj m n e = sym (read-decimal m) ∙ ap (read 0) e ∙ read-decimal n

abbrev Lacks : ℕ → Text → Type 0
Lacks c s = All (λ d. (d == c) ≡ false) s

Lacks-snoc : (c d : ℕ) (s : Text) → Lacks c s → (d == c) ≡ false → Lacks c (s ++ d ∷ [])
Lacks-snoc c d [] h k = (k, tt)
Lacks-snoc c d (e ∷ s) h k = (h.0, Lacks-snoc c d s h.1 k)

digits-Lacks : (fuel n : ℕ) → Lacks colon (digits fuel n)
unfolding digits
digits-Lacks zero n = tt
digits-Lacks (suc fuel) n = elim (Bool-cases (ltb n 10)) [
  | inl short ↦ rw short (ground arith, tt)
  | inr long ↦ rw long (
      Lacks-snoc colon (b'0' + n % 10) (digits fuel (n / 10)) (digits-Lacks fuel (n / 10))
        (ground arith))
]

decimal-Lacks : (n : ℕ) → Lacks colon (decimal n)
unfolding decimal
decimal-Lacks n = digits-Lacks (suc n) n

-- What stands before the first colon, and what behind it.
split_inj :
    (c : ℕ) (s t x y : Text) → Lacks c s → Lacks c t → s ++ c ∷ x ≡ t ++ c ∷ y → (s ≡ t) × (x ≡ y)
split_inj c [] [] x y hs ht e = (refl, cc)
split_inj c [] (d ∷ t) x y hs ht e = ground arith
split_inj c (d ∷ s) [] x y hs ht e = ground arith
split_inj c (d ∷ s) (b ∷ t) x y hs ht e = ground (arith, split_inj c s t x y hs.1 ht.1)

append_inj : (s t x y : Text) → length s ≡ length t → s ++ x ≡ t ++ y → (s ≡ t) × (x ≡ y)
append_inj [] [] x y h e = (refl, e)
append_inj [] (d ∷ t) x y h e = absurd (omega arith)
append_inj (d ∷ s) [] x y h e = absurd (omega arith)
append_inj (d ∷ s) (b ∷ t) x y h e = ground (arith, append_inj s t x y)

-- A text with a colon in it is not empty.
not_empty : (s x : Text) → s ++ colon ∷ x ≢ []
not_empty [] x e = cc
not_empty (c ∷ s) x e = cc

-- Parts that make one name are as many, and as texts the same one by one, where a text is itself
-- and a number is its decimal digits, whatever stands in the texts.
pub name_inj : (ps qs : List Part) → name ps ≡ name qs → map string ps ≡ map string qs
unfolding name
name_inj [] [] e = refl
name_inj [] (q ∷ qs) e =
    absurd (not_empty (decimal (length (string q))) (string q ++ name qs) (sym e))
name_inj (p ∷ ps) [] e = absurd (not_empty (decimal (length (string p))) (string p ++ name ps) e)
name_inj (p ∷ ps) (q ∷ qs) e =
    let (before, after) =
      split_inj colon (decimal (length (string p))) (decimal (length (string q)))
        (string p ++ name ps) (string q ++ name qs) (decimal-Lacks (length (string p)))
        (decimal-Lacks (length (string q))) e in
    let size = decimal_inj (length (string p)) (length (string q)) before in
    let (same, rest) = append_inj (string p) (string q) (name ps) (name qs) size after in
    let others = name_inj ps qs rest in
    ap (λ v. v ∷ map string ps) same ∙ ap (λ vs. string q ∷ vs) others
