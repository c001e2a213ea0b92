-- ===== src/Store/SortedList/Lookup.antt =====
-- A list with the invariant is a finite map: what `list_get` finds after `list_add` and
-- `list_remove`.
use sd.Common.{
  if_true, if_false, ◌+◌, ◌≡◌, refl, ap, sym, ◌∙◌, true, false, none, some, List, [], ◌∷◌, All,
  length, arith, if◌then◌else◌, inl, inr, Bool-cases, maybe, ◌==◌, text_eq,
}
use sd.Store.Keys.{
  strcmp_refl, strcmp-less, Key, Comparison-cases, strcmp, is_equal, strcmp-equal, is_equal-equal,
  is_equal-other,
}
use sd.Store.SortedList.{data_dup, Entry, entry_valid, all_valid, remove_loop, find}
use sd.Store.SortedList.Order.{Before, Before-trans, Sorted, insert, holds}

pub find-insert :
    (j : Key) (e : Entry) (xs : List Entry)
    → find j (insert e xs) ≡ (if is_equal (strcmp j e.key) then some e else find j xs)
unfolding find
find-insert j e [] = refl
find-insert j e (x ∷ xs) = elim (Comparison-cases (strcmp e.key x.key)) [
  | inl t ↦ simp t
  | inr (inl t) ↦
      let u = strcmp-equal e.key x.key t in
      let q : is_equal (strcmp j e.key) ≡ is_equal (strcmp j x.key) =
        ap (λ k. is_equal (strcmp j k)) u in
      elim (Bool-cases (is_equal (strcmp j x.key))) [
        | inl v ↦ simp (t, q ∙ v)
        | inr v ↦ simp (t, q ∙ v, v)
      ]
  | inr (inr t) ↦ elim (Bool-cases (is_equal (strcmp j x.key))) [
    | inl v ↦ let w = is_equal-other j e.key x.key (ap is_equal t) v in simp (t, v, w)
    | inr v ↦ simp (t, v, find-insert j e xs)
  ]
]

-- What is found is valid, so that a copy of its value is made.
pub find-valid :
    (k : Key) (xs : List Entry)
    → all_valid xs ≡ true
    → maybe (find k xs) none (λ y. data_dup y.value) ≡ maybe (find k xs) none (λ y. some y.value)
unfolding find data_dup
find-valid k [] a = refl
find-valid k (x ∷ xs) a =
    let tail : all_valid xs ≡ true = ground arith in
    let first : entry_valid x ≡ true = ground arith in
    elim (Bool-cases (is_equal (strcmp k x.key))) [
      | inl t ↦ simp (t, first)
      | inr t ↦ simp t (find-valid k xs tail)
    ]

find-Before : (k : Key) (xs : List Entry) → Before k xs → find k xs ≡ none
unfolding find
find-Before k [] b = refl
find-Before k (x ∷ xs) b = simp (b.0, find-Before k xs b.1)

pub holds-find :
    (k : Key) (xs : List Entry) → Sorted xs → holds k xs ≡ maybe (find k xs) false (λ x. true)
unfolding find
holds-find k [] s = refl
holds-find k (x ∷ xs) s = elim (Comparison-cases (strcmp k x.key)) [
  | inl t ↦ simp (t, find-Before k xs (Before-trans k x.key xs t s.0))
  | inr (inl t) ↦ simp t
  | inr (inr t) ↦ simp (t, holds-find k xs s.1)
]

Before-remove : (m k : Key) (xs : List Entry) → Before m xs → Before m (remove_loop k xs).0
unfolding remove_loop
Before-remove m k [] b = tt
Before-remove m k (x ∷ xs) b = elim (Bool-cases (is_equal (strcmp k x.key))) [
  | inl t ↦ simp t b.1
  | inr t ↦ simp t (b.0, Before-remove m k xs b.1)
]

pub Sorted-remove : (k : Key) (xs : List Entry) → Sorted xs → Sorted (remove_loop k xs).0
unfolding remove_loop
Sorted-remove k [] s = tt
Sorted-remove k (x ∷ xs) s = elim (Bool-cases (is_equal (strcmp k x.key))) [
  | inl t ↦ simp t s.1
  | inr t ↦ simp t (Before-remove x.key k xs s.0, Sorted-remove k xs s.1)
]

pub all_valid-remove :
    (k : Key) (xs : List Entry) → all_valid xs ≡ true → all_valid (remove_loop k xs).0 ≡ true
unfolding remove_loop
all_valid-remove k [] a = refl
all_valid-remove k (x ∷ xs) a =
    let tail : all_valid xs ≡ true = ground arith in
    let first : entry_valid x ≡ true = ground arith in
    elim (Bool-cases (is_equal (strcmp k x.key))) [
      | inl t ↦ simp t tail
      | inr t ↦ simp (t, first) (all_valid-remove k xs tail)
    ]

pub All-remove :
    (P : Entry → Type 0) (k : Key) (xs : List Entry) → All P xs → All P (remove_loop k xs).0
unfolding remove_loop
All-remove P k [] a = tt
All-remove P k (x ∷ xs) a = elim (Bool-cases (is_equal (strcmp k x.key))) [
  | inl t ↦ simp t a.1
  | inr t ↦ simp t (a.0, All-remove P k xs a.1)
]

-- What goes is counted, and is what `find` finds.
pub remove_loop-counts :
    (k : Key) (xs : List Entry)
    → ((remove_loop k xs).1 ≡ maybe (find k xs) false (λ x. true))
      × (length xs ≡ (
          if (remove_loop k xs).1
          then length (remove_loop k xs).0 + 1
          else length (remove_loop k xs).0))
      × ((remove_loop k xs).1 ≡ false → (remove_loop k xs).0 ≡ xs)
unfolding remove_loop find
remove_loop-counts k [] = (refl, refl, λ h. refl)
remove_loop-counts k (x ∷ xs) =
    let ih = remove_loop-counts k xs in
    elim (Bool-cases (is_equal (strcmp k x.key))) [
      | inl t ↦ simp t (refl, omega arith, λ h. absurd (cc))
      | inr t ↦ simp t (ih.0, ground (arith, ih.1), λ h. ap (x ∷◌) (ih.2 h))
    ]

pub find-remove :
    (j k : Key) (xs : List Entry)
    → Sorted xs
    → find j (remove_loop k xs).0 ≡ (if k == j then none else find j xs)
unfolding remove_loop find
find-remove j k [] s = ground arith
find-remove j k (x ∷ xs) s = elim (Bool-cases (is_equal (strcmp k x.key))) [
  | inl t ↦
      let u = is_equal-equal k x.key t in
      elim (Bool-cases (k == j)) [
        | inl v ↦
            let e : x.key ≡ j = sym u ∙ (text_eq.beq_iff k j).0 v in
            simp (t, v) (find-Before j xs (rw (← e) s.0))
        | inr v ↦ simp (t, v, differs j k x.key u v)
      ]
  | inr t ↦ elim (Bool-cases (k == j)) [
    | inl v ↦
        let e = (text_eq.beq_iff k j).0 v in
        let d : is_equal (strcmp j x.key) ≡ false =
          ap (λ i. is_equal (strcmp i x.key)) (sym e) ∙ t in
        simp (t, v, d, find-remove j k xs s.1)
    | inr v ↦ simp (t, v, find-remove j k xs s.1)
  ]
]
  where
    differs : (j k m : Key) → k ≡ m → (k == j) ≡ false → is_equal (strcmp j m) ≡ false
    differs j k m u v = elim (Bool-cases (is_equal (strcmp j m))) [
      | inr w ↦ w
      | inl w ↦
          let e : k ≡ j = u ∙ sym (is_equal-equal j m w) in
          let r = (text_eq.beq_iff k j).1 e in absurd (cc)
    ]

find-later :
    (x : Entry) (xs ys : List Entry)
    → Before x.key ys
    → All (λ e. find e.key xs ≡ some e) ys
    → All (λ e. find e.key (x ∷ xs) ≡ some e) ys
unfolding find
find-later x xs [] b a = tt
find-later x xs (y ∷ ys) b a =
    let far : is_equal (strcmp y.key x.key) ≡ false = ap is_equal (strcmp-less x.key y.key b.0) in
    (if_false _ _ far ∙ a.0, find-later x xs ys b.1 a.1)

-- In a sorted list each entry is what is found under its key.
pub find_self : (xs : List Entry) → Sorted xs → All (λ e. find e.key xs ≡ some e) xs
unfolding find
find_self [] s = tt
find_self (x ∷ xs) s =
    (if_true _ _ (ap is_equal (strcmp_refl x.key)), find-later x xs xs s.0 (find_self xs s.1))
