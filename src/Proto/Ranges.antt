-- ===== src/Proto/Ranges.antt =====
-- Class `ObjectRange` of docs/skin/prototype.js, on numbers, and `Number.times`.
use sd.Common.{
  ℕ, zero, suc, ◌+◌, ◌-◌, ◌≤◌, ◌≡◌, refl, ◌∙◌, Bool, true, false, List, [], ◌∷◌, arith, ltb, leb,
  if◌then◌else◌, has, inl, inr, Bool-cases, nat_eq, Outcome,
}
use sd.Proto.Enumerable.{Signal, each}

pub record ObjectRange : Type 0 where
  pub start : ℕ
  pub end : ℕ
  pub exclusive : Bool

pub include : ObjectRange → ℕ → Bool
include r value =
    if ltb value r.start then false else if r.exclusive then ltb value r.end else leb value r.end

-- The loop of `_each`: the values from `value` on, at most `fuel` of them.
each_loop : ℕ → ObjectRange → ℕ → List ℕ
unfolding include
each_loop zero r value = []
each_loop (suc f) r value =
    let rest = each_loop f r (value + 1) in if include r value then value ∷ rest else []

-- What `_each` passes to its iterator.
pub values : ObjectRange → List ℕ
unfolding each_loop
values r = each_loop (r.end + 1 - r.start) r r.start

-- `Number.times`: the iterator runs on 0, 1, ... below the number.
pub times {ℓ κ} : {E : Type ℓ} {S : Type κ} → ℕ → (ℕ → ℕ → S → Signal E S) → S → Outcome E S
unfolding values each
times n it s = each it (values (record { start = 0; end = n; exclusive = true })) s

-- Past a value that is not included there is none.
include-later :
    (r : ObjectRange) (value v : ℕ)
    → include r value ≡ false
    → r.start ≤ value
    → value ≤ v
    → include r v ≡ false
unfolding include
include-later r value v h k p = ground arith

include-le : (r : ObjectRange) (v : ℕ) → include r v ≡ true → (r.start ≤ v) × (v ≤ r.end)
unfolding include
include-le r v h = ground arith

has-each_loop :
    (f : ℕ) (r : ObjectRange) (value v : ℕ)
    → r.end + 1 ≤ value + f
    → r.start ≤ value
    → has v (each_loop f r value) ≡ (if ltb v value then false else include r v)
unfolding each_loop
has-each_loop zero r value v h k = elim (Bool-cases (include r v)) [
  | inl t ↦ let le = include-le r v t in ground arith
  | inr t ↦ ground arith
]
has-each_loop (suc f) r value v h k = elim (Bool-cases (include r value)) [
  | inl t ↦ simp (t, has-each_loop f r (value + 1) v (omega arith) (omega arith)) (ground arith)
  | inr t ↦ simp t (ground (arith, include-later r value v t k))
]

each_loop-only :
    (f : ℕ) (r : ObjectRange) (value v : ℕ)
    → include r v ≡ false
    → has v (each_loop f r value) ≡ false
unfolding each_loop
each_loop-only zero r value v h = refl
each_loop-only (suc f) r value v h = ground (arith, each_loop-only f r (value + 1) v)

-- A range passes to its iterator just the values that it includes.
pub has-values : (r : ObjectRange) (v : ℕ) → has v (values r) ≡ include r v
unfolding values
has-values r v = elim (Bool-cases (include r v)) [
  | inl t ↦
      let le = include-le r v t in
      has-each_loop (r.end + 1 - r.start) r r.start v (omega arith) (omega arith) ∙ ground arith
  | inr t ↦ rw t (each_loop-only (r.end + 1 - r.start) r r.start v t)
]
