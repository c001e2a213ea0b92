-- ===== src/Proto/Arrays/Iteration.antt =====
-- `map`, `filter`, `some` and `every` of arrays where the browser has none. They pass over holes,
-- which are `none` here. `$break` is an exception like any other
-- to them, since no `each` catches it.
use sd.Common.{
  ℕ, ◌+◌, ◌≡◌, refl, sym, ◌∙◌, Bool, true, false, not, List, [], ◌∷◌, Option, none, some, Outcome,
  ok, ◌>>=◌, if◌then◌else◌, Bool-cases, inl, inr, Outcome-cases, bind_assoc, map,
}
use sd.Proto.Enumerable.{all, any, collect, find_all, plain}
use sd.Proto.Enumerable.Laws.{
  traverse, collect_lem, all_from, all_lem, any_from, any_lem, sift, find_all_lem,
}

module _ {ℓ κ μ} {E : Type ℓ} {A : Type κ} {B : Type μ} where
  map_loop : (A → ℕ → Outcome E B) → ℕ → List (Option A) → Outcome E (List (Option B))
  map_loop it i [] = ok []
  map_loop it i (none ∷ xs) = map_loop it (i + 1) xs >>= λ rs. ok (none ∷ rs)
  map_loop it i (some x ∷ xs) = it x i >>= λ b. map_loop it (i + 1) xs >>= λ rs. ok (some b ∷ rs)

  pub map_array : (A → ℕ → Outcome E B) → List (Option A) → Outcome E (List (Option B))
  unfolding map_loop
  map_array it xs = map_loop it 0 xs

  filter_loop : (B → Bool) → (A → ℕ → Outcome E B) → ℕ → List (Option A) → Outcome E (List A)
  filter_loop truthy it i [] = ok []
  filter_loop truthy it i (none ∷ xs) = filter_loop truthy it (i + 1) xs
  filter_loop truthy it i (some x ∷ xs) = it x i >>= λ b.
      filter_loop truthy it (i + 1) xs >>= λ rs. ok (if truthy b then x ∷ rs else rs)

  pub filter : (B → Bool) → (A → ℕ → Outcome E B) → List (Option A) → Outcome E (List A)
  unfolding filter_loop
  filter truthy it xs = filter_loop truthy it 0 xs

  some_loop : (B → Bool) → (A → ℕ → Outcome E B) → ℕ → List (Option A) → Outcome E Bool
  some_loop truthy it i [] = ok false
  some_loop truthy it i (none ∷ xs) = some_loop truthy it (i + 1) xs
  some_loop truthy it i (some x ∷ xs) =
      let rest = some_loop truthy it (i + 1) xs in
      it x i >>= λ b. if truthy b then ok true else rest

  pub some_of : (B → Bool) → (A → ℕ → Outcome E B) → List (Option A) → Outcome E Bool
  unfolding some_loop
  some_of truthy it xs = some_loop truthy it 0 xs

  every_loop : (B → Bool) → (A → ℕ → Outcome E B) → ℕ → List (Option A) → Outcome E Bool
  every_loop truthy it i [] = ok true
  every_loop truthy it i (none ∷ xs) = every_loop truthy it (i + 1) xs
  every_loop truthy it i (some x ∷ xs) =
      let rest = every_loop truthy it (i + 1) xs in
      it x i >>= λ b. if not (truthy b) then ok false else rest

  pub every : (B → Bool) → (A → ℕ → Outcome E B) → List (Option A) → Outcome E Bool
  unfolding every_loop
  every truthy it xs = every_loop truthy it 0 xs

-- An array with no holes.
abbrev pub dense {κ} : {A : Type κ} → List A → List (Option A)
dense xs = map some xs

module _ {ℓ κ μ} {E : Type ℓ} {A : Type κ} {B : Type μ} (truthy : B → Bool)
    (it : A → ℕ → Outcome E B) where
  map_loop-dense :
      (xs : List A) (i : ℕ) → map_loop it i (dense xs) ≡ (traverse it i xs >>= λ bs. ok (dense bs))
  unfolding map_loop
  map_loop-dense [] i = refl
  map_loop-dense (x ∷ xs) i = elim (Outcome-cases (it x i)) [
    | inl (b, e) ↦ simp (e, map_loop-dense xs (i + 1), bind_assoc)
    | inr (b, e) ↦ simp e
  ]

  filter_loop-dense :
      (xs : List A) (i : ℕ) → filter_loop truthy it i (dense xs) ≡ sift truthy it (λ t. t) i xs
  unfolding filter_loop
  filter_loop-dense [] i = refl
  filter_loop-dense (x ∷ xs) i = simp (filter_loop-dense xs (i + 1))

  some_loop-dense :
      (xs : List A) (i : ℕ) → some_loop truthy it i (dense xs) ≡ any_from truthy it i xs
  unfolding some_loop
  some_loop-dense [] i = refl
  some_loop-dense (x ∷ xs) i = simp (some_loop-dense xs (i + 1))

  every_loop-dense :
      (xs : List A) (i : ℕ) → every_loop truthy it i (dense xs) ≡ all_from truthy it i xs
  unfolding every_loop
  every_loop-dense [] i = refl
  every_loop-dense (x ∷ xs) i = elim (Outcome-cases (it x i)) [
    | inl (b, e) ↦ elim (Bool-cases (truthy b)) [
      | inl t ↦ simp (e, t, every_loop-dense xs (i + 1))
      | inr t ↦ simp (e, t)
    ]
    | inr (b, e) ↦ simp e
  ]

  -- On an array with no holes, and for an iterator that does not throw `$break`, the methods `map`,
  -- `filter`, `some` and `every` of arrays return, or throw, what `collect`, `findAll`, `any` and `all`
  -- of `Enumerable` do.
  pub arrays-Enumerable :
      (xs : List A)
      → (map_array it (dense xs) ≡ (collect (plain it) xs >>= λ bs. ok (dense bs)))
        × (filter truthy it (dense xs) ≡ find_all truthy (plain it) xs)
        × (some_of truthy it (dense xs) ≡ any truthy (plain it) xs)
        × (every truthy it (dense xs) ≡ all truthy (plain it) xs)
  unfolding map_array filter some_of every
  arrays-Enumerable xs = (
    map_loop-dense xs 0 ∙ sym (simp collect_lem),
    filter_loop-dense xs 0 ∙ sym (find_all_lem truthy it xs),
    some_loop-dense xs 0 ∙ sym (any_lem truthy it xs),
    every_loop-dense xs 0 ∙ sym (all_lem truthy it xs),
  )
