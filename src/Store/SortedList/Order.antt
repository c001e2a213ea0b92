-- ===== src/Store/SortedList/Order.antt =====
-- The invariant of a list: its entries are valid and in strict order of their keys, and its size
-- counts them.
use sd.Common.{
  ℕ, ◌+◌, ◌≡◌, refl, Bool, true, false, List, [], ◌∷◌, All, length, arith, eqb, if◌then◌else◌, inl,
  inr, Bool-cases,
}
use sd.Store.Keys.{
  Key, Comparison-cases, strcmp, compared, less, strcmp-equal, strcmp-greater, strcmp-less,
  strcmp_sym, strcmp_trans,
}
use sd.Store.SortedList.{
  Entry, Chain, AddResult, failed, added, replaced, grown, entry_valid, all_valid, add_loop,
  add_second, list_add,
}

-- The key is before those of all the entries.
abbrev pub Before : Key → List Entry → Type 0
Before k = All (λ e. strcmp k e.key ≡ less)

abbrev pub Sorted : List Entry → Type 0
Sorted [] = Unit
Sorted (x ∷ xs) = Before x.key xs × Sorted xs

pub record WellFormed (l : Chain) : Type 0 where
  pub sorted : Sorted l.nodes
  pub valid : all_valid l.nodes ≡ true
  pub counted : l.size ≡ length l.nodes

pub Before-trans : (k m : Key) (xs : List Entry) → strcmp k m ≡ less → Before m xs → Before k xs
Before-trans k m [] h b = tt
Before-trans k m (x ∷ xs) h b = (strcmp_trans k m x.key h b.0, Before-trans k m xs h b.1)

-- What a place in the order is for the entry: insertion in front of the first key that is not
-- before it, in place of an entry of the same key.
abbrev pub insert : Entry → List Entry → List Entry
insert e [] = e ∷ []
insert e (x ∷ xs) = compared (strcmp e.key x.key) (e ∷ (x ∷ xs)) (e ∷ xs) (x ∷ insert e xs)

abbrev pub holds : Key → List Entry → Bool
holds k [] = false
holds k (x ∷ xs) = compared (strcmp k x.key) false true (holds k xs)

abbrev pub inserted : Bool → Entry → List Entry → List Entry × AddResult
inserted memory e xs =
    if holds e.key xs
    then (insert e xs, replaced)
    else if memory
    then (insert e xs, added)
    else (xs, failed)

add_loop-inserted :
    (memory : Bool) (e x : Entry) (xs : List Entry)
    → add_loop memory e (x ∷ xs) ≡ inserted memory e (x ∷ xs)
unfolding add_loop
add_loop-inserted true e x [] = elim (Comparison-cases (strcmp e.key x.key)) [
  | inl t ↦ simp t
  | inr (inl t) ↦ simp t
  | inr (inr t) ↦ simp t
]
add_loop-inserted false e x [] = elim (Comparison-cases (strcmp e.key x.key)) [
  | inl t ↦ simp t
  | inr (inl t) ↦ simp t
  | inr (inr t) ↦ simp t
]
add_loop-inserted memory e x (y ∷ xs) =
    let ih = add_loop-inserted memory e y xs in
    elim (Comparison-cases (strcmp e.key x.key)) [
      | inl t ↦ simp t
      | inr (inl t) ↦ simp t
      | inr (inr t) ↦
          simp (t, ih)
            (elim (Bool-cases (holds e.key (y ∷ xs))) [
              | inl u ↦ simp u
              | inr u ↦ elim (Bool-cases memory) [ inl v ↦ simp (u, v) | inr v ↦ simp (u, v) ]
            ])
    ]

add_second-inserted :
    (memory : Bool) (e x : Entry) → add_second memory e (x ∷ []) ≡ inserted memory e (x ∷ [])
unfolding add_second
add_second-inserted memory e x = elim (Comparison-cases (strcmp x.key e.key)) [
  | inl t ↦ let u = strcmp-less x.key e.key t in simp (t, u)
  | inr (inl t) ↦ let u = strcmp_sym x.key e.key t in simp (t, u)
  | inr (inr t) ↦ let u = strcmp-greater x.key e.key t in simp (t, u)
]

-- `list_add` on a list with the invariant.
pub list_add-inserted :
    (memory : Bool) (e : Entry) (l : Chain)
    → WellFormed l
    → entry_valid e ≡ true
    → list_add memory e l ≡ (
      record {
        size = grown (inserted memory e l.nodes).1 l.size;
        nodes = (inserted memory e l.nodes).0;
      },
      (inserted memory e l.nodes).1,
    )
unfolding list_add
list_add-inserted memory e l w v = go l.size l.nodes w.counted w.valid
  where
    go :
        (n : ℕ) (xs : List Entry)
        → n ≡ length xs
        → all_valid xs ≡ true
        → list_add memory e (record { size = n; nodes = xs }) ≡ (
          record { size = grown (inserted memory e xs).1 n; nodes = (inserted memory e xs).0 },
          (inserted memory e xs).1,
        )
    go n [] h a = elim (Bool-cases memory) [
      | inl m ↦ rw h (simp (v, m))
      | inr m ↦ rw h (simp (v, m))
    ]
    go n (x ∷ []) h a = rw h (simp (a, v, add_second-inserted memory e x))
    go n (x ∷ (y ∷ xs)) h a =
        let z : eqb n 0 ≡ false = ground arith in
        let o : eqb n 1 ≡ false = ground arith in
        simp (a, v, z, o, add_loop-inserted memory e x (y ∷ xs))

Before-insert :
    (k : Key) (e : Entry) (xs : List Entry)
    → strcmp k e.key ≡ less
    → Before k xs
    → Before k (insert e xs)
Before-insert k e [] h b = (h, tt)
Before-insert k e (x ∷ xs) h b = elim (Comparison-cases (strcmp e.key x.key)) [
  | inl t ↦ simp t (h, b)
  | inr (inl t) ↦ simp t (h, b.1)
  | inr (inr t) ↦ simp t (b.0, Before-insert k e xs h b.1)
]

pub Sorted-insert : (e : Entry) (xs : List Entry) → Sorted xs → Sorted (insert e xs)
Sorted-insert e [] s = (tt, tt)
Sorted-insert e (x ∷ xs) s = elim (Comparison-cases (strcmp e.key x.key)) [
  | inl t ↦ simp t ((refl, Before-trans e.key x.key xs t s.0), s)
  | inr (inl t) ↦ let u = strcmp-equal e.key x.key t in simp t (rw u s.0, s.1)
  | inr (inr t) ↦
      simp t (Before-insert x.key e xs (strcmp-greater e.key x.key t) s.0, Sorted-insert e xs s.1)
]

pub all_valid-insert :
    (e : Entry) (xs : List Entry)
    → entry_valid e ≡ true
    → all_valid xs ≡ true
    → all_valid (insert e xs) ≡ true
all_valid-insert e [] v a = simp v
all_valid-insert e (x ∷ xs) v a =
    let tail : all_valid xs ≡ true = ground arith in
    let first : entry_valid x ≡ true = ground arith in
    elim (Comparison-cases (strcmp e.key x.key)) [
      | inl t ↦ simp (t, v, first, tail)
      | inr (inl t) ↦ simp (t, v, tail)
      | inr (inr t) ↦ simp (t, first, all_valid-insert e xs v tail)
    ]

pub length-insert :
    (e : Entry) (xs : List Entry)
    → length (insert e xs) ≡ (if holds e.key xs then length xs else length xs + 1)
length-insert e [] = omega arith
length-insert e (x ∷ xs) = elim (Comparison-cases (strcmp e.key x.key)) [
  | inl t ↦ simp t (omega arith)
  | inr (inl t) ↦ simp t
  | inr (inr t) ↦ simp t (ground (arith, length-insert e xs))
]
