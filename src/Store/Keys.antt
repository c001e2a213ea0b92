-- ===== src/Store/Keys.antt =====
-- Keys as C strings: the octets before the end mark, compared by `strcmp`.
use sd.Common.{
  ℕ, ◌≡◌, refl, ap, sym, Bool, true, false, List, [], ◌∷◌, ◌⊎◌, ◌∙◌, inl, inr, arith, ltb, ◌==◌,
  text_eq, nat_eq, if◌then◌else◌, Bool-cases,
}

abbrev pub Key : Type 0
Key = List ℕ

-- A comparison by `strcmp`: below 0, 0, or above 0. These are also the results -1, 0 and 1 of
-- `entry_compare`, whose -2 is for an invalid entry.
pub data Comparison : Type 0 where
  less equal greater : Comparison

abbrev pub strcmp : Key → Key → Comparison
strcmp [] [] = equal
strcmp [] (d ∷ t) = less
strcmp (c ∷ s) [] = greater
strcmp (c ∷ s) (d ∷ t) = if ltb c d then less else if ltb d c then greater else strcmp s t

-- A branch on a comparison.
abbrev pub compared {ℓ} : {A : Type ℓ} → Comparison → A → A → A → A
compared less a b c = a
compared equal a b c = b
compared greater a b c = c

abbrev pub is_equal : Comparison → Bool
is_equal c = compared c false true false

pub Comparison-cases : (c : Comparison) → (c ≡ less) ⊎ ((c ≡ equal) ⊎ (c ≡ greater))
Comparison-cases less = inl refl
Comparison-cases equal = inr (inl refl)
Comparison-cases greater = inr (inr refl)

pub strcmp_refl : (s : Key) → strcmp s s ≡ equal
strcmp_refl [] = refl
strcmp_refl (c ∷ s) = ground (arith, strcmp_refl s)

pub strcmp-equal : (s t : Key) → strcmp s t ≡ equal → s ≡ t
strcmp-equal [] [] h = refl
strcmp-equal [] (d ∷ t) h = cc
strcmp-equal (c ∷ s) [] h = cc
strcmp-equal (c ∷ s) (d ∷ t) h = ground (arith, strcmp-equal s t)

pub strcmp-greater : (s t : Key) → strcmp s t ≡ greater → strcmp t s ≡ less
strcmp-greater [] [] h = cc
strcmp-greater [] (d ∷ t) h = cc
strcmp-greater (c ∷ s) [] h = refl
strcmp-greater (c ∷ s) (d ∷ t) h = ground (arith, strcmp-greater s t)

pub strcmp-less : (s t : Key) → strcmp s t ≡ less → strcmp t s ≡ greater
strcmp-less [] [] h = cc
strcmp-less [] (d ∷ t) h = refl
strcmp-less (c ∷ s) [] h = cc
strcmp-less (c ∷ s) (d ∷ t) h = ground (arith, strcmp-less s t)

pub strcmp_sym : (s t : Key) → strcmp s t ≡ equal → strcmp t s ≡ equal
strcmp_sym s t h = rw (strcmp-equal s t h) (strcmp_refl t)

pub strcmp_trans : (s t u : Key) → strcmp s t ≡ less → strcmp t u ≡ less → strcmp s u ≡ less
strcmp_trans s [] [] h k = cc
strcmp_trans [] [] (e ∷ u) h k = cc
strcmp_trans (c ∷ s) [] (e ∷ u) h k = cc
strcmp_trans s (d ∷ t) [] h k = cc
strcmp_trans [] (d ∷ t) (e ∷ u) h k = refl
strcmp_trans (c ∷ s) (d ∷ t) (e ∷ u) h k = ground (arith, strcmp_trans s t u)

-- The test `strcmp(s, t) == 0` is equality.
pub is_equal-strcmp : (s t : Key) → is_equal (strcmp s t) ≡ (s == t)
is_equal-strcmp [] [] = refl
is_equal-strcmp [] (d ∷ t) = refl
is_equal-strcmp (c ∷ s) [] = refl
is_equal-strcmp (c ∷ s) (d ∷ t) = ground (arith, is_equal-strcmp s t)

pub is_equal-equal : (s t : Key) → is_equal (strcmp s t) ≡ true → s ≡ t
is_equal-equal s t h = (text_eq.beq_iff s t).0 (sym (is_equal-strcmp s t) ∙ h)

-- A key is equal to one of two keys that differ at most.
pub is_equal-other :
    (j s t : Key)
    → is_equal (strcmp s t) ≡ false
    → is_equal (strcmp j t) ≡ true
    → is_equal (strcmp j s) ≡ false
is_equal-other j s t h k = elim (Bool-cases (is_equal (strcmp j s))) [
  | inr u ↦ u
  | inl u ↦
      let e : s ≡ t = sym (is_equal-equal j s u) ∙ is_equal-equal j t k in
      let r : is_equal (strcmp s t) ≡ true = rw e (ap is_equal (strcmp_refl t)) in absurd (cc)
]
