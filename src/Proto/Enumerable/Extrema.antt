-- ===== src/Proto/Enumerable/Extrema.antt =====
-- `max`, `min` and `include`.
use native.Mathlib.Nat.{le_refl}
use sd.Common.{
  ℕ, ◌+◌, ◌≤◌, ◌≡◌, refl, ap, ◌∙◌, ◌↔◌, ◌⊎◌, Bool, true, false, List, [], ◌∷◌, Option, none, some,
  ok, arith, Eq, Bool-cases, inl, inr, All, ltb, leb, Among, here, there, has, has→Among, Among→has,
}
use sd.Proto.Enumerable.Groups.{map_from}
use sd.Proto.Enumerable.{
  next, call, larger, smaller, iterate, settle, max, min, include, include_body,
}

-- The fold of the numbers, with `result` so far.
abbrev best : (ℕ → Option ℕ → Option ℕ) → Option ℕ → List ℕ → Option ℕ
best pick r [] = r
best pick r (n ∷ ns) = best pick (pick n r) ns

iterate-best {ℓ κ} :
    {E : Type ℓ} {A : Type κ} (pick : ℕ → Option ℕ → Option ℕ) (f : A → ℕ → ℕ) (xs : List A) (i : ℕ)
    (r : Option ℕ)
    → settle {E = E} (iterate (λ v k r. call r (ok (f v k)) (λ n. next (pick n r))) i xs r)
      ≡ ok (best pick r (map_from f i xs))
unfolding iterate
iterate-best pick f [] i r = refl
iterate-best pick f (x ∷ xs) i r = iterate-best pick f xs (i + 1) (pick (f x i) r)

-- `m` is one of the numbers, and `Le n m` for each of them.
pub record Extreme (Le : ℕ → ℕ → Type 0) (m : ℕ) (ns : List ℕ) : Type 0 where
  pub among : Among m ns
  pub bounds : All (λ n. Le n m) ns

-- A choice between the number at hand and the result so far that takes an upper bound of both.
abbrev Picks : (ℕ → ℕ → Type 0) → (ℕ → Option ℕ → Option ℕ) → Type 0
Picks Le pick =
    (n a : ℕ) → ((pick n (some a) ≡ some n) × Le a n) ⊎ ((pick n (some a) ≡ some a) × Le n a)

module _ (Le : ℕ → ℕ → Type 0) (pick : ℕ → Option ℕ → Option ℕ) (reflexive : (n : ℕ) → Le n n)
    (transitive : (a b c : ℕ) → Le a b → Le b c → Le a c) (picks : Picks Le pick) where
  best-Extreme :
      (ns : List ℕ) (a : ℕ) → (m : ℕ) × (best pick (some a) ns ≡ some m) × Extreme Le m (a ∷ ns)
  best-Extreme [] a = (a, refl, record { among = here refl; bounds = (reflexive a, tt) })
  best-Extreme (n ∷ ns) a = elim (picks n a) [
    | inl (e, le) ↦
        let (m, q, x) = best-Extreme ns n in
        (
          m,
          rw e q,
          record { among = there x.among; bounds = (transitive a n m le x.bounds.0, x.bounds) },
        )
    | inr (e, le) ↦
        let (m, q, x) = best-Extreme ns a in
        (
          m,
          rw e q,
          record {
            among = skip n ns x.among;
            bounds = both n ns (x.bounds.0) (transitive n a m le x.bounds.0) x.bounds.1;
          },
        )
  ]
    where
      both :
          {m a : ℕ} (n : ℕ) (ns : List ℕ)
          → Le a m
          → Le n m
          → All (λ k. Le k m) ns
          → All (λ k. Le k m) (a ∷ n ∷ ns)
      both n ns p q r = (p, (q, r))

      skip : {m a : ℕ} (n : ℕ) (ns : List ℕ) → Among m (a ∷ ns) → Among m (a ∷ n ∷ ns)
      skip n ns (here e) = here e
      skip n ns (there t) = there (there t)

larger-Picks : Picks ◌≤◌ larger
larger-Picks n a = elim (Bool-cases (leb a n)) [
  | inl t ↦ inl (simp t, ground arith)
  | inr t ↦ inr (simp t, ground arith)
]

abbrev pub Ge : ℕ → ℕ → Type 0
Ge n m = m ≤ n

smaller-Picks : Picks Ge smaller
smaller-Picks n a = elim (Bool-cases (ltb n a)) [
  | inl t ↦ inl (simp t, ground arith)
  | inr t ↦ inr (simp t, ground arith)
]

module _ {ℓ κ} {E : Type ℓ} {A : Type κ} (f : A → ℕ → ℕ) (x : A) (xs : List A) where
  -- Of a collection with a value, for an iterator that gives numbers and does not throw, `max` is
  -- one of these numbers, and none is larger.
  pub max-Extreme :
      (m : ℕ) × (max {E = E} (λ v i. ok (f v i)) (x ∷ xs) ≡ ok (some m))
      × Extreme ◌≤◌ m (map_from f 0 (x ∷ xs))
  unfolding max
  max-Extreme =
      let (m, q, extreme) =
        best-Extreme ◌≤◌ larger (λ n. le_refl n) (λ a b c h k. omega arith) larger-Picks
          (map_from f 1 xs) (f x 0) in
      (m, iterate-best larger f (x ∷ xs) 0 none ∙ ap ok q, extreme)

  -- Of a collection with a value, for an iterator that gives numbers and does not throw, `min` is
  -- one of these numbers, and none is smaller.
  pub min-Extreme :
      (m : ℕ) × (min {E = E} (λ v i. ok (f v i)) (x ∷ xs) ≡ ok (some m))
      × Extreme Ge m (map_from f 0 (x ∷ xs))
  unfolding min
  min-Extreme =
      let (m, q, extreme) =
        best-Extreme Ge smaller (λ n. le_refl n) (λ a b c h k. omega arith) smaller-Picks
          (map_from f 1 xs) (f x 0) in
      (m, iterate-best smaller f (x ∷ xs) 0 none ∙ ap ok q, extreme)

module _ {ℓ κ} {E : Type ℓ} {A : Type κ} ⦃e : Eq A⦄ where
  iterate-has :
      (object : A) (xs : List A) (i : ℕ)
      → settle {E = E} (iterate (include_body object) i xs false) ≡ ok (has object xs)
  unfolding iterate
  iterate-has object [] i = refl
  iterate-has object (x ∷ xs) i = elim (Bool-cases (e.beq x object)) [
    | inl t ↦ simp t
    | inr t ↦ simp (t, iterate-has object xs (i + 1))
  ]

  pub include_lem : (object : A) (xs : List A) → include {E = E} object xs ≡ ok (has object xs)
  unfolding include
  include_lem object xs = iterate-has object xs 0

  -- `include` finds exactly the values of the collection, and never throws.
  pub include-Among :
      (object : A) (xs : List A)
      → (found : Bool) × (include {E = E} object xs ≡ ok found) × ((found ≡ true) ↔ Among object xs)
  include-Among object xs = (has object xs, include_lem object xs, (has→Among object xs, Among→has))
