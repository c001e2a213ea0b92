-- ===== src/Proto/Ajax/Response/Origin.antt =====
-- The test for the same origin.
use sd.Common.{
  length, true, some, [], ◌∷◌, ◌++◌, append_assoc, drop, eqb, maybe, ◌==◌, text_eq, ◌≡◌, ◌⊎◌, refl,
  ap, sym, ◌∙◌, inl, inr, Bool-cases, if_true, if_false, arith,
}
use sd.Proto.Text.{Text, codes, is_space, is_prefix}
use sd.Proto.Ajax.Response.{Location, spaces, until_slash, host_part, origin, is_same_origin}

spaces_lem : (s : Text) → (spaces s).0 ++ (spaces s).1 ≡ s
spaces_lem [] = refl
spaces_lem (c ∷ s) = elim (Bool-cases (is_space c)) [
  | inl t ↦ simp t (ap (c ∷◌) (spaces_lem s))
  | inr t ↦ simp t
]

prefix-drop : (p s : Text) → is_prefix p s ≡ true → p ++ drop (length p) s ≡ s
prefix-drop [] s h = refl
prefix-drop (q ∷ p) [] h = cc
prefix-drop (q ∷ p) (c ∷ s) h = ground (arith, prefix-drop p s)

-- At the end of a host there is a slash or nothing.
abbrev pub Ends : Text → Type 0
Ends s = (s ≡ []) ⊎ ((t : Text) × (s ≡ b'/' ∷ t))

until_slash_lem : (s : Text) → (rest : Text) × (until_slash s ++ rest ≡ s) × Ends rest
until_slash_lem [] = ([], refl, inl refl)
until_slash_lem (c ∷ s) = elim (Bool-cases (eqb c b'/')) [
  | inl t ↦ (c ∷ s, simp t, inr (s, ground arith))
  | inr t ↦ let (rest, e, h) = until_slash_lem s in (rest, simp t (ap (c ∷◌) e), h)
]

scheme_lem :
    (scheme blanks s m : Text)
    → is_prefix scheme s ≡ true
    → some (blanks ++ (scheme ++ until_slash (drop (length scheme) s))) ≡ some m
    → (rest : Text) × (m ++ rest ≡ blanks ++ s) × Ends rest
scheme_lem scheme blanks s m t q =
    let host = until_slash (drop (length scheme) s) in
    let (rest, e, h) = until_slash_lem (drop (length scheme) s) in
    let u : blanks ++ (scheme ++ host) ≡ m = cc in
    (
      rest,
      ap (λ x. x ++ rest) (sym u)
          ∙ append_assoc blanks (scheme ++ host) rest
          ∙ ap (blanks ++◌)
              (append_assoc scheme host rest ∙ ap (scheme ++◌) e ∙ prefix-drop scheme s t),
      h,
    )

host_part_lem :
    (blanks s m : Text)
    → host_part blanks s ≡ some m
    → (rest : Text) × (m ++ rest ≡ blanks ++ s) × Ends rest
host_part_lem blanks s m q = elim (Bool-cases (is_prefix (codes "https://") s)) [
  | inl t ↦ scheme_lem (codes "https://") blanks s m t (sym (if_true _ _ t) ∙ q)
  | inr t ↦ elim (Bool-cases (is_prefix (codes "http://") s)) [
    | inl v ↦ scheme_lem (codes "http://") blanks s m v (sym (if_false _ _ t ∙ if_true _ _ v) ∙ q)
    | inr v ↦ absurd (let z = sym (if_false _ _ t ∙ if_false _ _ v) ∙ q in cc)
  ]
]

-- A URL that, after white space at most, starts with `http://` or `https://` in lower case and goes
-- on to match the pattern of `isSameOrigin`, and that counts as one of the same origin, is that
-- origin, followed by a slash or by nothing.
pub is_same_origin-absolute :
    (l : Location) (url m : Text)
    → host_part (spaces url).0 (spaces url).1 ≡ some m
    → is_same_origin l url ≡ true
    → (rest : Text) × (url ≡ origin l ++ rest) × Ends rest
unfolding is_same_origin
is_same_origin-absolute l url m q h =
    let (rest, e, ends) = host_part_lem (spaces url).0 (spaces url).1 m q in
    let same : m ≡ origin l =
      (text_eq.beq_iff m (origin l)).0 (sym (ap (λ o. maybe o true (λ m. m == origin l)) q) ∙ h) in
    (rest, sym (spaces_lem url) ∙ sym e ∙ ap (λ p. p ++ rest) same, ends)
