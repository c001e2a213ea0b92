-- ===== src/Proto/Text/Laws.antt =====
-- Laws of the operations on texts: splitting and joining, prefixes.
use sd.Common.{
  ℕ, ◌≡◌, refl, ap, ◌∙◌, Bool, true, List, [], ◌∷◌, ◌++◌, inl, inr, arith, eqb, All, Bool-cases,
}
use sd.Proto.Text.{Text, is_space, split_on, join, none_of, trim_left}

-- A text with no separator in front of a separator is the first part.
pub split_on-append :
    (sep : ℕ) (p s : Text)
    → none_of (λ c. eqb c sep) p ≡ true
    → split_on sep (p ++ sep ∷ s) ≡ p ∷ split_on sep s
split_on-append sep [] s h = rw ((eqb_refl sep)) refl
  where
    eqb_refl : (n : ℕ) → eqb n n ≡ true
    eqb_refl n = ground arith
split_on-append sep (c ∷ p) s h = elim (Bool-cases (eqb c sep)) [
  | inl t ↦ absurd (ground (arith))
  | inr t ↦ simp (t, split_on-append sep p s (simp t at h))
]

pub split_on-none :
    (sep : ℕ) (p : Text) → none_of (λ c. eqb c sep) p ≡ true → split_on sep p ≡ p ∷ []
split_on-none sep [] h = refl
split_on-none sep (c ∷ p) h = elim (Bool-cases (eqb c sep)) [
  | inl t ↦ absurd (ground arith)
  | inr t ↦ simp (t, split_on-none sep p (simp t at h))
]

-- Splitting undoes joining, for at least one part and parts with no separator in them.
pub split_on-join :
    (sep : ℕ) (p : Text) (ps : List Text)
    → All (λ q. none_of (λ c. eqb c sep) q ≡ true) (p ∷ ps)
    → split_on sep (join (sep ∷ []) (p ∷ ps)) ≡ p ∷ ps
split_on-join sep p [] h = split_on-none sep p h.0
split_on-join sep p (q ∷ ps) h =
    split_on-append sep p (join (sep ∷ []) (q ∷ ps)) h.0 ∙ ap (p ∷◌) (split_on-join sep q ps h.1)

pub none_of-append :
    (p : ℕ → Bool) (s t : Text)
    → none_of p s ≡ true
    → none_of p t ≡ true
    → none_of p (s ++ t) ≡ true
none_of-append p [] t h k = k
none_of-append p (c ∷ s) t h k = elim (Bool-cases (p c)) [
  | inl e ↦ absurd (ground arith)
  | inr e ↦ simp e (none_of-append p s t (simp e at h) k)
]

pub trim_left-none : (s : Text) → none_of is_space s ≡ true → trim_left s ≡ s
trim_left-none [] h = refl
trim_left-none (c ∷ s) h = ground arith
