-- ===== src/Proto/Arrays/Sets.antt =====
-- `uniq`, `intersect` and `without`: arrays as sets.
use sd.Common.{
  ℕ, ◌+◌, ◌≡◌, refl, ◌∙◌, true, false, List, [], ◌∷◌, ◌++◌, Eq, if◌then◌else◌, Bool-cases, inl, inr,
  arith, eqb, has,
}
use sd.Proto.Arrays.{without, uniq_loop, uniq, keep_in, intersect}

module _ {ℓ} {A : Type ℓ} ⦃e : Eq A⦄ where
  -- No value stands twice.
  abbrev pub NoRepeats : List A → Type 0
  NoRepeats [] = Unit
  NoRepeats (x ∷ xs) = (has x xs ≡ false) × NoRepeats xs

  has-append : (a : A) (xs ys : List A) → has a (xs ++ ys) ≡ (if has a xs then true else has a ys)
  has-append a [] ys = refl
  has-append a (x ∷ xs) ys = ground (arith, has-append a xs ys)

  NoRepeats-append :
      (xs : List A) (a : A) → NoRepeats xs → has a xs ≡ false → NoRepeats (xs ++ a ∷ [])
  NoRepeats-append [] a h n = (refl, tt)
  NoRepeats-append (x ∷ xs) a h n =
      ground (arith, has-append x xs (a ∷ []), NoRepeats-append xs a, e.beq_iff x a, e.beq_iff a x)

  -- `uniq` without its question whether the index is 0.
  gather : List A → List A → List A
  gather array [] = array
  gather array (x ∷ xs) = gather (if has x array then array else array ++ x ∷ []) xs

  uniq_loop-gather :
      (i : ℕ) (array xs : List A)
      → (eqb 0 i ≡ true → array ≡ [])
      → uniq_loop false i array xs ≡ gather array xs
  unfolding uniq_loop gather
  uniq_loop-gather i array [] z = refl
  uniq_loop-gather i array (x ∷ xs) z = elim (Bool-cases (eqb 0 i)) [
    | inl t ↦ rw (z t) (simp t (uniq_loop-gather (i + 1) (x ∷ []) xs (later i)))
    | inr t ↦ elim (Bool-cases (has x array)) [
      | inl u ↦ simp (t, u) (uniq_loop-gather (i + 1) array xs (later i))
      | inr u ↦ simp (t, u) (uniq_loop-gather (i + 1) (array ++ x ∷ []) xs (later i))
    ]
  ]
    where
      later : {array : List A} (i : ℕ) → eqb 0 (i + 1) ≡ true → array ≡ []
      later i h = absurd (ground arith)

  gather-NoRepeats : (array xs : List A) → NoRepeats array → NoRepeats (gather array xs)
  unfolding gather
  gather-NoRepeats array [] h = h
  gather-NoRepeats array (x ∷ xs) h = elim (Bool-cases (has x array)) [
    | inl u ↦ simp u (gather-NoRepeats array xs h)
    | inr u ↦ simp u (gather-NoRepeats (array ++ x ∷ []) xs (NoRepeats-append array x h u))
  ]

  has-gather :
      (a : A) (array xs : List A)
      → has a (gather array xs) ≡ (if has a array then true else has a xs)
  unfolding gather
  has-gather a array [] = ground arith
  has-gather a array (x ∷ xs) = elim (Bool-cases (has x array)) [
    | inl u ↦ simp u (has-gather a array xs ∙ ground (arith, e.beq_iff x a))
    | inr u ↦
        simp u (has-gather a (array ++ x ∷ []) xs ∙ ground (arith, has-append a array (x ∷ [])))
  ]

  uniq-gather : (xs : List A) → uniq false xs ≡ gather [] xs
  unfolding uniq
  uniq-gather xs = uniq_loop-gather 0 [] xs (λ h. refl)

  -- `uniq`, without `sorted`, keeps the values of the array, each of them once.
  pub uniq_lem :
      (xs : List A) → NoRepeats (uniq false xs) × ((a : A) → has a (uniq false xs) ≡ has a xs)
  uniq_lem xs = rw uniq-gather (gather-NoRepeats [] xs tt, λ a. has-gather a [] xs)

  has-keep_in :
      (a : A) (array xs : List A)
      → has a (keep_in array xs) ≡ (if has a xs then has a array else false)
  unfolding keep_in
  has-keep_in a array [] = refl
  has-keep_in a array (x ∷ xs) = ground (arith, e.beq_iff x a, has-keep_in a array xs)

  NoRepeats-keep_in : (array xs : List A) → NoRepeats xs → NoRepeats (keep_in array xs)
  unfolding keep_in
  NoRepeats-keep_in array [] h = tt
  NoRepeats-keep_in array (x ∷ xs) h =
      ground (arith, has-keep_in x array xs, NoRepeats-keep_in array xs)

  -- `intersect` has just the values that stand in both arrays, each of them once.
  pub intersect_lem :
      (xs array : List A)
      → NoRepeats (intersect xs array)
        × ((a : A) → has a (intersect xs array) ≡ (if has a xs then has a array else false))
  unfolding intersect
  intersect_lem xs array = (
    NoRepeats-keep_in array (uniq false xs) (uniq_lem xs).0,
    λ a. has-keep_in a array (uniq false xs) ∙ rw ((uniq_lem xs).1 a),
  )

  -- `without` drops the given values and nothing else.
  pub has-without :
      (values xs : List A) (a : A)
      → has a (without values xs) ≡ (if has a values then false else has a xs)
  unfolding without
  has-without values [] a = ground arith
  has-without values (x ∷ xs) a = ground (arith, e.beq_iff x a, has-without values xs a)
