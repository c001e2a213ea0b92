-- ===== src/Common/Lists.antt =====
-- Lists measured and indexed by the native numbers, under the library's names.
use Prim.Native.Nat.{ℕ, zero, suc, ◌+◌, ◌-◌, min}
use mathlib.Core.Path.{◌≡◌, refl, sym, ap}
use mathlib.Core.List.{List, [], ◌∷◌, ◌++◌, map}
use mathlib.Core.Option.{Option, none, some}
use mathlib.Core.Bool.{Bool, true, false}
use mathlib.Core.Logic.{inl, inr}
use native.Mathlib.Omega.{arith}
use sd.Common.Tests.{Eq, Bool-cases, if◌then◌else◌}

module _ {ℓ} {A : Type ℓ} where
  abbrev pub length : List A → ℕ
  length [] = 0
  length (x ∷ xs) = suc (length xs)

  abbrev pub get_elem? : List A → ℕ → Option A
  get_elem? [] i = none
  get_elem? (x ∷ xs) zero = some x
  get_elem? (x ∷ xs) (suc i) = get_elem? xs i

  abbrev pub take : ℕ → List A → List A
  take zero xs = []
  take (suc n) [] = []
  take (suc n) (x ∷ xs) = x ∷ take n xs

  abbrev pub drop : ℕ → List A → List A
  drop zero xs = xs
  drop (suc n) [] = []
  drop (suc n) (x ∷ xs) = drop n xs

  abbrev pub replicate : ℕ → A → List A
  replicate zero a = []
  replicate (suc n) a = a ∷ replicate n a

  pub length-append : (xs ys : List A) → length (xs ++ ys) ≡ length xs + length ys
  length-append [] ys = omega arith
  length-append (x ∷ xs) ys = omega (arith, length-append xs ys)

  pub take-append-drop : (n : ℕ) (xs : List A) → take n xs ++ drop n xs ≡ xs
  take-append-drop zero xs = refl
  take-append-drop (suc n) [] = refl
  take-append-drop (suc n) (x ∷ xs) = rw (take-append-drop n xs)

  pub length-take : (n : ℕ) (xs : List A) → length (take n xs) ≡ min n (length xs)
  length-take zero xs = omega arith
  length-take (suc n) [] = omega arith
  length-take (suc n) (x ∷ xs) = omega (arith, length-take n xs)

  pub length-drop : (n : ℕ) (xs : List A) → length (drop n xs) ≡ length xs - n
  length-drop zero xs = omega arith
  length-drop (suc n) [] = omega arith
  length-drop (suc n) (x ∷ xs) = omega (arith, length-drop n xs)

  pub length-replicate : (n : ℕ) (a : A) → length (replicate n a) ≡ n
  length-replicate zero a = refl
  length-replicate (suc n) a = ap suc (length-replicate n a)

  pub get_elem?-append_length :
      (xs ys : List A) (y : A) → get_elem? (xs ++ y ∷ ys) (length xs) ≡ some y
  get_elem?-append_length [] ys y = refl
  get_elem?-append_length (x ∷ xs) ys y = get_elem?-append_length xs ys y

pub length-map {ℓ κ} :
    {A : Type ℓ} {B : Type κ} (xs : List A) (f : A → B) → length (map f xs) ≡ length xs
length-map [] f = refl
length-map (x ∷ xs) f = ap suc (length-map xs f)

-- A predicate on every element, and on some element, as tuples and sums.
abbrev pub All {ℓ κ} : {A : Type ℓ} → (A → Type κ) → List A → Type κ
All P [] = Unit
All P (x ∷ xs) = P x × All P xs

-- `a` is one of the elements.
pub data Among {ℓ} {A : Type ℓ} (a : A) : List A → Type ℓ where
  here : {x : A} {xs : List A} → a ≡ x → Among a (x ∷ xs)
  there : {x : A} {xs : List A} → Among a xs → Among a (x ∷ xs)

module _ {ℓ} {A : Type ℓ} ⦃e : Eq A⦄ where
  -- The search for a value by `==`.
  abbrev pub has : A → List A → Bool
  has a [] = false
  has a (x ∷ xs) = if e.beq x a then true else has a xs

  pub has→Among : (a : A) (xs : List A) → has a xs ≡ true → Among a xs
  has→Among a [] h = cc
  has→Among a (x ∷ xs) h = elim (Bool-cases (e.beq x a)) [
    | inl t ↦ here (sym ((e.beq_iff x a).0 t))
    | inr t ↦ there (has→Among a xs (simp t at h))
  ]

  pub Among→has : {a : A} {xs : List A} → Among a xs → has a xs ≡ true
  Among→has {a} (here {x} p) = ground (arith, e.beq_iff x a, sym p)
  Among→has {a} (there {x} {xs} t) = ground (arith, Among→has t)
