-- ===== src/Proto/Hash/Query/Codec.antt =====
-- The encodings of the query string: what they contain, and that decoding undoes them.
use sd.Common.{
  ℕ, ◌+◌, ◌*◌, ◌/◌, ◌%◌, ◌<◌, ◌≡◌, refl, ap, ◌∙◌, true, false, some, [], ◌∷◌, ◌++◌, inl, inr, arith,
  eqb, All, Bool-cases, ok, ◌>>=◌, if◌then◌else◌,
}
use sd.Proto.Text.{Text, codes, replace_text, replace_unit}
use sd.Proto.Hash.Query.{is_unreserved, hex_digit, hex_value, encode, decode}

abbrev pub Octets : Text → Type 0
Octets s = All (λ c. c < 256) s

-- A text encoded but for its spaces, which are as given.
abbrev pub encode_with : Text → Text → Text
encode_with space [] = []
encode_with space (c ∷ s) =
    (if eqb c 32
      then space
      else if is_unreserved c
      then c ∷ []
      else b'%' ∷ hex_digit (c / 16) ∷ hex_digit (c % 16) ∷ [])
    ++ encode_with space s

pub encode-with_space : (s : Text) → encode s ≡ encode_with (codes "%20") s
unfolding encode
encode-with_space [] = refl
encode-with_space (c ∷ s) = elim (Bool-cases (eqb c 32)) [
  | inl t ↦ let e : c ≡ 32 = ground arith in rw e (ap (codes "%20" ++◌) (encode-with_space s))
  | inr t ↦ simp (t, encode-with_space s)
]

hex_value-digit : (d : ℕ) → d < 16 → hex_value (hex_digit d) ≡ some d
hex_value-digit d h = ground arith

decode-plain :
    (c : ℕ) (s : Text) → eqb c b'%' ≡ false → decode (c ∷ s) ≡ (decode s >>= λ t. ok (c ∷ t))
unfolding decode
decode-plain c [] h = simp h
decode-plain c (d ∷ []) h = ground arith
decode-plain c (d ∷ (e ∷ s)) h = simp h

decode-escape :
    (c : ℕ) (s : Text)
    → c < 256
    → decode (b'%' ∷ hex_digit (c / 16) ∷ hex_digit (c % 16) ∷ s) ≡ (decode s >>= λ t. ok (c ∷ t))
unfolding decode
decode-escape c s h =
    let e : 16 * (c / 16) + c % 16 ≡ c = omega arith in
    simp (hex_value-digit (c / 16) (omega arith), hex_value-digit (c % 16) (omega arith), e)

-- `decodeURIComponent` undoes `encodeURIComponent`.
pub decode-encode : (s : Text) → Octets s → decode (encode s) ≡ ok s
unfolding encode
decode-encode [] h = unfold decode in refl
decode-encode (c ∷ s) h = elim (Bool-cases (is_unreserved c)) [
  | inl u ↦ simp u (decode-plain c (encode s) (ground arith) ∙ simp (decode-encode s h.1))
  | inr u ↦ simp u (decode-escape c (encode s) h.0 ∙ simp (decode-encode s h.1))
]

-- Spaces that stand as they are decode as themselves.
pub decode-encode_with : (s : Text) → Octets s → decode (encode_with (codes " ") s) ≡ ok s
decode-encode_with [] h = unfold decode in refl
decode-encode_with (c ∷ s) h = elim (Bool-cases (eqb c 32)) [
  | inl t ↦
      let e : c ≡ 32 = ground arith in
      rw e (decode-plain 32 _ refl ∙ simp (decode-encode_with s h.1))
  | inr t ↦ elim (Bool-cases (is_unreserved c)) [
    | inl u ↦ simp (t, u) (decode-plain c _ (ground arith) ∙ simp (decode-encode_with s h.1))
    | inr u ↦ simp (t, u) (decode-escape c _ h.0 ∙ simp (decode-encode_with s h.1))
  ]
]

hex_digit-ne : (d k : ℕ) → d < 16 → k < 48 → eqb k (hex_digit d) ≡ false
hex_digit-ne d k h p = ground arith

-- The escape of a unit other than the space is not the one that is replaced.
not_space_escape :
    (c : ℕ) (s : Text)
    → c < 256
    → eqb c 32 ≡ false
    → (if eqb 50 (hex_digit (c / 16))
        then (if eqb 48 (hex_digit (c % 16)) then true else false)
        else false)
      ≡ false
not_space_escape c s h p = ground arith

replace-encode_with :
    (s : Text)
    → Octets s
    → replace_text (codes "%20") (codes "+") (encode_with (codes "%20") s)
      ≡ encode_with (codes "+") s
replace-encode_with [] h = refl
replace-encode_with (c ∷ s) h = elim (Bool-cases (eqb c 32)) [
  | inl t ↦ let e : c ≡ 32 = ground arith in rw e (ap (b'+' ∷◌) (replace-encode_with s h.1))
  | inr t ↦ elim (Bool-cases (is_unreserved c)) [
    | inl u ↦ let n : eqb b'%' c ≡ false = ground arith in simp (t, u, n, replace-encode_with s h.1)
    | inr u ↦
        let n = hex_digit-ne (c / 16) b'%' (omega (arith, h.0)) (omega arith) in
        let m = hex_digit-ne (c % 16) b'%' (omega arith) (omega arith) in
        simp (t, u, not_space_escape c s h.0 t, n, m, replace-encode_with s h.1)
  ]
]

plus-encode_with :
    (s : Text)
    → Octets s
    → replace_unit (λ c. eqb c b'+') (codes " ") (encode_with (codes "+") s)
      ≡ encode_with (codes " ") s
plus-encode_with [] h = refl
plus-encode_with (c ∷ s) h = elim (Bool-cases (eqb c 32)) [
  | inl t ↦ let e : c ≡ 32 = ground arith in rw e (ap (32 ∷◌) (plus-encode_with s h.1))
  | inr t ↦ elim (Bool-cases (is_unreserved c)) [
    | inl u ↦ let n : eqb c b'+' ≡ false = ground arith in simp (t, u, n, plus-encode_with s h.1)
    | inr u ↦
        let n : eqb (hex_digit (c / 16)) b'+' ≡ false = ground arith in
        let m : eqb (hex_digit (c % 16)) b'+' ≡ false = ground arith in
        simp (t, u, n, m, plus-encode_with s h.1)
  ]
]

-- A value as `toQueryPair` writes it.
abbrev pub form_encode : Text → Text
form_encode s = replace_text (codes "%20") (codes "+") (encode s)

pub form_encode_lem : (s : Text) → Octets s → form_encode s ≡ encode_with (codes "+") s
form_encode_lem s h = rw (encode-with_space s) (replace-encode_with s h)

-- `toQueryParams` decodes what `toQueryPair` encodes.
pub decode-form_encode :
    (s : Text)
    → Octets s
    → decode (replace_unit (λ c. eqb c b'+') (codes " ") (form_encode s)) ≡ ok s
decode-form_encode s h = rw (form_encode_lem s h, plus-encode_with s h) (decode-encode_with s h)
