-- ===== src/Proto/Enumerable/Laws.antt =====
-- The methods of `Enumerable` against plain recursions on the list of values. The recursions run
-- the iterator on each value in turn and say which of its errors is thrown. The iterators do not throw
-- `$break`.
use sd.Common.{
  ℕ, ◌+◌, ◌≡◌, refl, sym, ap, ◌∙◌, Bool, true, false, not, List, [], ◌∷◌, ◌++◌, Option, none, some,
  Outcome, ok, ◌>>=◌, append-nil, append_assoc, if◌then◌else◌, Bool-cases, inl, inr, Outcome-cases,
  bind_assoc, bind-ok,
}
use sd.Proto.Enumerable.{
  iterate, settle, all_body, any_body, collect_body, detect_body, find_all_body, reject_body, plain,
  partition_body, all, any, collect, detect, find_all, reject, partition,
}

module _ {ℓ κ μ} {E : Type ℓ} {A : Type κ} {B : Type μ} where
  -- The iterator's results in order, or the first error.
  abbrev pub traverse : (A → ℕ → Outcome E B) → ℕ → List A → Outcome E (List B)
  traverse it i [] = ok []
  traverse it i (x ∷ xs) = it x i >>= λ b. traverse it (i + 1) xs >>= λ bs. ok (b ∷ bs)

  iterate-traverse :
      (it : A → ℕ → Outcome E B) (xs : List A) (i : ℕ) (acc : List B)
      → settle (iterate (collect_body (plain it)) i xs acc)
        ≡ (traverse it i xs >>= λ bs. ok (acc ++ bs))
  unfolding iterate
  iterate-traverse it [] i acc = ap ok (sym (append-nil acc))
  iterate-traverse it (x ∷ xs) i acc = elim (Outcome-cases (it x i)) [
    | inl (b, e) ↦ simp (e, iterate-traverse it xs (i + 1), bind_assoc, append_assoc)
    | inr (b, e) ↦ simp e
  ]

  -- `collect` is the list of the iterator's results in order, or the first error that it throws.
  pub collect_lem :
      (it : A → ℕ → Outcome E B) (xs : List A) → collect (plain it) xs ≡ traverse it 0 xs
  unfolding collect
  collect_lem it xs = iterate-traverse it xs 0 [] ∙ bind-ok (traverse it 0 xs)

module _ {ℓ κ μ} {E : Type ℓ} {A : Type κ} {B : Type μ} (truthy : B → Bool)
    (it : A → ℕ → Outcome E B) where
  -- Stops at the first value that fails: the iterator is not called on the later ones.
  abbrev pub all_from : ℕ → List A → Outcome E Bool
  all_from i [] = ok true
  all_from i (x ∷ xs) = it x i >>= λ b. if truthy b then all_from (i + 1) xs else ok false

  iterate-all_from :
      (xs : List A) (i : ℕ)
      → settle (iterate (all_body truthy (plain it)) i xs true) ≡ all_from i xs
  unfolding iterate
  iterate-all_from [] i = refl
  iterate-all_from (x ∷ xs) i = elim (Outcome-cases (it x i)) [
    | inl (b, e) ↦ elim (Bool-cases (truthy b)) [
      | inl t ↦ simp (e, t, iterate-all_from xs (i + 1))
      | inr t ↦ simp (e, t)
    ]
    | inr (b, e) ↦ simp e
  ]

  -- `all` asks for each value in turn and stops at the first one that fails.
  pub all_lem : (xs : List A) → all truthy (plain it) xs ≡ all_from 0 xs
  unfolding all
  all_lem xs = iterate-all_from xs 0

  -- Stops at the first value that passes.
  abbrev pub any_from : ℕ → List A → Outcome E Bool
  any_from i [] = ok false
  any_from i (x ∷ xs) = it x i >>= λ b. if truthy b then ok true else any_from (i + 1) xs

  iterate-any_from :
      (xs : List A) (i : ℕ)
      → settle (iterate (any_body truthy (plain it)) i xs false) ≡ any_from i xs
  unfolding iterate
  iterate-any_from [] i = refl
  iterate-any_from (x ∷ xs) i = elim (Outcome-cases (it x i)) [
    | inl (b, e) ↦ elim (Bool-cases (truthy b)) [
      | inl t ↦ simp (e, t)
      | inr t ↦ simp (e, t, iterate-any_from xs (i + 1))
    ]
    | inr (b, e) ↦ simp e
  ]

  pub any_lem : (xs : List A) → any truthy (plain it) xs ≡ any_from 0 xs
  unfolding any
  any_lem xs = iterate-any_from xs 0

  iterate-any-all :
      (xs : List A) (i : ℕ)
      → settle (iterate (all_body truthy (plain it)) i xs true) ≡ (
          settle (iterate (any_body (λ b. not (truthy b)) (plain it)) i xs false) >>= λ r.
          ok (not r))
  unfolding iterate
  iterate-any-all [] i = refl
  iterate-any-all (x ∷ xs) i = elim (Outcome-cases (it x i)) [
    | inl (b, e) ↦ elim (Bool-cases (truthy b)) [
      | inl t ↦ simp (e, t, iterate-any-all xs (i + 1))
      | inr t ↦ simp (e, t)
    ]
    | inr (b, e) ↦ simp e
  ]

  -- All values pass exactly when it is not so that any fails, and both throw alike.
  pub all-not-any :
      (xs : List A)
      → all truthy (plain it) xs ≡ (any (λ b. not (truthy b)) (plain it) xs >>= λ r. ok (not r))
  unfolding all any
  all-not-any xs = iterate-any-all xs 0

  -- The values that pass, in order, or the first error.
  abbrev pub sift : (Bool → Bool) → ℕ → List A → Outcome E (List A)
  sift keep i [] = ok []
  sift keep i (x ∷ xs) =
      it x i >>= λ b. sift keep (i + 1) xs >>= λ ys. ok (if keep (truthy b) then x ∷ ys else ys)

  iterate-find_all :
      (xs : List A) (i : ℕ) (acc : List A)
      → settle (iterate (find_all_body truthy (plain it)) i xs acc)
        ≡ (sift (λ t. t) i xs >>= λ ys. ok (acc ++ ys))
  unfolding iterate
  iterate-find_all [] i acc = ap ok (sym (append-nil acc))
  iterate-find_all (x ∷ xs) i acc = elim (Outcome-cases (it x i)) [
    | inl (b, e) ↦ elim (Bool-cases (truthy b)) [
      | inl t ↦ simp (e, t, iterate-find_all xs (i + 1), bind_assoc, append_assoc)
      | inr t ↦ simp (e, t, iterate-find_all xs (i + 1), bind_assoc)
    ]
    | inr (b, e) ↦ simp e
  ]

  iterate-reject :
      (xs : List A) (i : ℕ) (acc : List A)
      → settle (iterate (reject_body truthy (plain it)) i xs acc)
        ≡ (sift not i xs >>= λ ys. ok (acc ++ ys))
  unfolding iterate
  iterate-reject [] i acc = ap ok (sym (append-nil acc))
  iterate-reject (x ∷ xs) i acc = elim (Outcome-cases (it x i)) [
    | inl (b, e) ↦ elim (Bool-cases (truthy b)) [
      | inl t ↦ simp (e, t, iterate-reject xs (i + 1), bind_assoc)
      | inr t ↦ simp (e, t, iterate-reject xs (i + 1), bind_assoc, append_assoc)
    ]
    | inr (b, e) ↦ simp e
  ]

  -- `findAll` keeps the values that pass, in order, and runs the iterator on every value.
  pub find_all_lem : (xs : List A) → find_all truthy (plain it) xs ≡ sift (λ t. t) 0 xs
  unfolding find_all
  find_all_lem xs = iterate-find_all xs 0 [] ∙ bind-ok _

  pub reject_lem : (xs : List A) → reject truthy (plain it) xs ≡ sift not 0 xs
  unfolding reject
  reject_lem xs = iterate-reject xs 0 [] ∙ bind-ok _

  iterate-partition :
      (xs : List A) (i : ℕ) (a b : List A)
      → settle (iterate (partition_body truthy (plain it)) i xs (a, b))
        ≡ (sift (λ t. t) i xs >>= λ ys. sift not i xs >>= λ zs. ok (a ++ ys, b ++ zs))
  unfolding iterate
  iterate-partition [] i a b = simp append-nil
  iterate-partition (x ∷ xs) i a b = elim (Outcome-cases (it x i)) [
    | inl (c, e) ↦ elim (Bool-cases (truthy c)) [
      | inl t ↦ simp (e, t, iterate-partition xs (i + 1), bind_assoc, append_assoc)
      | inr t ↦ simp (e, t, iterate-partition xs (i + 1), bind_assoc, append_assoc)
    ]
    | inr (c, e) ↦ simp e
  ]

  -- `partition` gives what `findAll` and `reject` give, and throws what they throw.
  pub partition-find_all-reject :
      (xs : List A)
      → partition truthy (plain it) xs ≡ (
          find_all truthy (plain it) xs >>= λ ys. reject truthy (plain it) xs >>= λ zs. ok (ys, zs))
  unfolding partition
  partition-find_all-reject xs =
      iterate-partition xs 0 [] [] ∙ sym (simp (find_all_lem, reject_lem))

-- The first element, if there is one.
abbrev pub head? {ℓ} : {A : Type ℓ} → List A → Option A
head? [] = none
head? (x ∷ xs) = some x

-- The values that pass, for an iterator that does not throw.
abbrev pub kept {κ μ} : {A : Type κ} {B : Type μ} → (B → Bool) → (A → ℕ → B) → ℕ → List A → List A
kept truthy f i [] = []
kept truthy f i (x ∷ xs) =
    if truthy (f x i) then x ∷ kept truthy f (i + 1) xs else kept truthy f (i + 1) xs

module _ {ℓ κ μ} {E : Type ℓ} {A : Type κ} {B : Type μ} (truthy : B → Bool) (f : A → ℕ → B) where
  abbrev quiet : A → ℕ → Outcome E B
  quiet v i = ok (f v i)

  sift-kept : (xs : List A) (i : ℕ) → sift truthy quiet (λ t. t) i xs ≡ ok (kept truthy f i xs)
  sift-kept [] i = refl
  sift-kept (x ∷ xs) i = elim (Bool-cases (truthy (f x i))) [
    | inl t ↦ simp (t, sift-kept xs (i + 1))
    | inr t ↦ simp (t, sift-kept xs (i + 1))
  ]

  iterate-detect :
      (xs : List A) (i : ℕ)
      → settle {E = E} (iterate (detect_body truthy (plain quiet)) i xs none)
        ≡ ok (head? (kept truthy f i xs))
  unfolding iterate
  iterate-detect [] i = refl
  iterate-detect (x ∷ xs) i = elim (Bool-cases (truthy (f x i))) [
    | inl t ↦ simp t
    | inr t ↦ simp (t, iterate-detect xs (i + 1))
  ]

  -- With an iterator that does not throw, `detect` is the first of what `findAll` keeps, and
  -- `undefined` if it keeps nothing.
  pub detect-find_all :
      (xs : List A)
      → detect {E = E} truthy (plain quiet) xs
        ≡ (find_all truthy (plain quiet) xs >>= λ ys. ok (head? ys))
  unfolding detect
  detect-find_all xs = iterate-detect xs 0 ∙ sym (simp (find_all_lem, sift-kept))
