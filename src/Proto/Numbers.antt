-- ===== src/Proto/Numbers.antt =====
-- The methods that docs/skin/prototype.js adds to numbers: `toPaddedString`, `toColorPart`.
use native.Mathlib.Nat.{div-lt_self, mod-lt}
use sd.Common.{
  ℕ, zero, suc, ◌+◌, ◌-◌, ◌*◌, ◌/◌, ◌%◌, ◌≤◌, ◌<◌, ◌≡◌, refl, ap, ◌∙◌, false, [], ◌∷◌, ◌++◌, arith,
  ltb, eqb, if◌then◌else◌, length, replicate, length-append, max, All, inl, inr, Bool-cases,
}
use sd.Proto.Text.{Text, codes, join}
use sd.Proto.Strings.{times}
use sd.Proto.Strings.Shape.{length-times}

-- A digit as `toString` writes it, and its value.
abbrev pub digit : ℕ → ℕ
digit d = if ltb d 10 then 48 + d else 87 + d

abbrev pub digit_value : ℕ → ℕ
digit_value c = if ltb c 58 then c - 48 else c - 87

-- `n.toString(radix)`: the digits in front of `rest`, for at most `fuel` divisions.
digits_from : ℕ → ℕ → ℕ → Text → Text
digits_from zero radix n rest = rest
digits_from (suc f) radix n rest =
    let more = digits_from f radix (n / radix) (digit (n % radix) ∷ rest) in
    if ltb n radix then digit n ∷ rest else more

-- A number has at most as many digits as one more than it.
pub to_string : ℕ → ℕ → Text
unfolding digits_from
to_string radix n = digits_from (suc n) radix n []

-- `length - string.length` below 1 gives no zeros.
pub to_padded_string : ℕ → ℕ → ℕ → Text
unfolding to_string
to_padded_string width radix n =
    let string = to_string (if eqb radix 0 then 10 else radix) n in
    times (width - length string) (codes "0") ++ string

pub to_color_part : ℕ → Text
unfolding to_padded_string
to_color_part n = to_padded_string 2 16 n

-- The number that a text stands for.
abbrev pub value_from : ℕ → ℕ → Text → ℕ
value_from radix acc [] = acc
value_from radix acc (c ∷ s) = value_from radix (acc * radix + digit_value c) s

digit_value-digit : (d : ℕ) → d < 36 → digit_value (digit d) ≡ d
digit_value-digit d h = ground arith

smaller : (f radix n : ℕ) → 2 ≤ radix → radix ≤ n → n < suc f → n / radix < f
smaller f radix n h k p = omega (arith, div-lt_self {n = n} {k = radix} (omega arith) h)

below : (radix n : ℕ) → 2 ≤ radix → radix ≤ 36 → n % radix < 36
below radix n h k = omega arith

value_from-digits :
    (f radix n : ℕ) (rest : Text)
    → 2 ≤ radix
    → radix ≤ 36
    → n < f
    → value_from radix 0 (digits_from f radix n rest) ≡ value_from radix n rest
unfolding digits_from
value_from-digits zero radix n rest h k p = elim p [ ]
value_from-digits (suc f) radix n rest h k p = elim (Bool-cases (ltb n radix)) [
  | inl t ↦ simp t (ap (λ v. value_from radix v rest) (ground (arith, digit_value-digit n)))
  | inr t ↦ simp t (
      value_from-digits f radix (n / radix) (digit (n % radix) ∷ rest) h k
        (smaller f radix n h (ground arith) p)
      ∙ ap (λ v. value_from radix v rest)
          (rw (digit_value-digit (n % radix) (below radix n h k)) (omega arith)))
]

value_from-zeros :
    (radix n : ℕ) (s : Text)
    → value_from radix 0 (join (codes "0") (replicate (suc n) []) ++ s) ≡ value_from radix 0 s
value_from-zeros radix zero s = refl
value_from-zeros radix (suc n) s =
    let e : 0 * radix + 0 ≡ 0 = omega arith in rw e (value_from-zeros radix n s)

value_from-times :
    (radix count : ℕ) (s : Text)
    → value_from radix 0 (times count (codes "0") ++ s) ≡ value_from radix 0 s
unfolding times
value_from-times radix zero s = refl
value_from-times radix (suc n) s =
    let e : suc n + 1 ≡ suc (suc n) = omega arith in
    let t : ltb (suc n) 1 ≡ false = ground arith in simp (e, t) (value_from-zeros radix (suc n) s)

-- With a radix from 2 to 36, a padded number, read in its radix, is the number; it has the width asked for, or the length
-- of its digits if that is larger.
pub to_padded_string_lem :
    (width radix n : ℕ)
    → 2 ≤ radix
    → radix ≤ 36
    → (value_from radix 0 (to_padded_string width radix n) ≡ n)
      × (width ≤ length (to_padded_string width radix n))
      × (length (to_padded_string width radix n) ≤ max width (length (to_string radix n)))
unfolding to_padded_string
to_padded_string_lem width radix n h k =
    let t : eqb radix 0 ≡ false = ground arith in
    let zeros = times (width - length (to_string radix n)) (codes "0") in
    simp t (
      value_from-times radix (width - length (to_string radix n)) (to_string radix n)
          ∙ value_from-digits (suc n) radix n [] h k (omega arith),
      omega (
        arith,
        length-append zeros (to_string radix n),
        length-times (width - length (to_string radix n)) (codes "0"),
      ),
      omega (
        arith,
        length-append zeros (to_string radix n),
        length-times (width - length (to_string radix n)) (codes "0"),
      ),
    )

All-digits_from :
    (P : ℕ → Type 0) (f radix n : ℕ) (rest : Text)
    → 0 < radix
    → ((d : ℕ) → d < radix → P (digit d))
    → All P rest
    → All P (digits_from f radix n rest)
unfolding digits_from
All-digits_from P zero radix n rest z h a = a
All-digits_from P (suc f) radix n rest z h a = elim (Bool-cases (ltb n radix)) [
  | inl t ↦ simp t (h n (ground arith), a)
  | inr t ↦ simp t (
      All-digits_from P f radix (n / radix) (digit (n % radix) ∷ rest) z h
        (h (n % radix) (mod-lt n z), a))
]

All-zeros :
    (P : ℕ → Type 0) (n : ℕ) (s : Text)
    → P b'0'
    → All P s
    → All P (join (codes "0") (replicate (suc n) []) ++ s)
All-zeros P zero s z a = a
All-zeros P (suc n) s z a = (z, All-zeros P n s z a)

All-times :
    (P : ℕ → Type 0) (count : ℕ) (s : Text)
    → P b'0'
    → All P s
    → All P (times count (codes "0") ++ s)
unfolding times
All-times P zero s z a = a
All-times P (suc n) s z a =
    let e : suc n + 1 ≡ suc (suc n) = omega arith in
    let t : ltb (suc n) 1 ≡ false = ground arith in simp (e, t) (All-zeros P (suc n) s z a)

-- What holds of the digit 0 and of the digits of a radix holds of all characters of a number.
pub All-to_padded_string :
    (P : ℕ → Type 0) (width radix n : ℕ)
    → 0 < radix
    → P b'0'
    → ((d : ℕ) → d < radix → P (digit d))
    → All P (to_padded_string width radix n)
unfolding to_padded_string
All-to_padded_string P width radix n p z h =
    let t : eqb radix 0 ≡ false = ground arith in
    simp t (
      All-times P (width - length (to_string radix n)) (to_string radix n) z
        (All-digits_from P (suc n) radix n [] p h tt))
