-- ===== src/Store/SortedList/Map.antt =====
-- `list_add` and `list_remove` keep the invariant, and change the map that `list_get` reads at one
-- key.
use sd.Common.{
  if_true, if_false, ℕ, ◌-◌, ◌≡◌, refl, ap, sym, ◌∙◌, Bool, true, false, Option, none, some, List,
  [], ◌∷◌, length, arith, eqb, if◌then◌else◌, inl, inr, Bool-cases, Option-cases, maybe, ◌==◌,
  text_eq,
}
use sd.Store.Keys.{Key, is_equal-strcmp}
use sd.Store.SortedList.{
  Entry, Chain, added, replaced, grown, entry_valid, list_add, RemoveResult, removed, missing,
  remove_loop, list_remove, find, list_get, list_create,
}
use sd.Store.SortedList.Order.{
  WellFormed, insert, holds, inserted, list_add-inserted, Sorted-insert, all_valid-insert,
  length-insert,
}
use sd.Store.SortedList.Lookup.{
  find-insert, holds-find, Sorted-remove, all_valid-remove, remove_loop-counts, find-remove,
}

pub list_create-WellFormed : WellFormed list_create
list_create-WellFormed = record { sorted = tt; valid = refl; counted = refl }

find-empty :
    (k : Key) (n : ℕ) (xs : List Entry)
    → n ≡ length xs
    → (if eqb n 0 then none else find k xs) ≡ find k xs
unfolding find
find-empty k n [] h = rw h refl
find-empty k n (x ∷ xs) h = let z : eqb n 0 ≡ false = ground arith in rw z refl

pub list_get-find : (k : Key) (l : Chain) → WellFormed l → list_get k l ≡ find k l.nodes
unfolding list_get
list_get-find k l w = rw w.valid (find-empty k l.size l.nodes w.counted)

inserted-WellFormed :
    (memory : Bool) (e : Entry) (l : Chain)
    → WellFormed l
    → entry_valid e ≡ true
    → WellFormed (record {
      size = grown (inserted memory e l.nodes).1 l.size;
      nodes = (inserted memory e l.nodes).0;
    })
inserted-WellFormed memory e l w v = elim (Bool-cases (holds e.key l.nodes)) [
  | inl h ↦ simp h (record {
    sorted = Sorted-insert e l.nodes w.sorted;
    valid = all_valid-insert e l.nodes v w.valid;
    counted = ground (arith, length-insert e l.nodes, w.counted);
  })
  | inr h ↦ elim (Bool-cases memory) [
    | inl m ↦
        simp (h, m)
          (record {
            sorted = Sorted-insert e l.nodes w.sorted;
            valid = all_valid-insert e l.nodes v w.valid;
            counted = ground (arith, length-insert e l.nodes, w.counted);
          })
    | inr m ↦ simp (h, m) w
  ]
]

pub list_add-WellFormed :
    (memory : Bool) (e : Entry) (l : Chain)
    → WellFormed l
    → entry_valid e ≡ true
    → WellFormed (list_add memory e l).0
list_add-WellFormed memory e l w v =
    rw (list_add-inserted memory e l w v) (inserted-WellFormed memory e l w v)

-- On a list with the invariant and with memory for a node, `list_add` of a valid entry keeps the
-- invariant, says whether the key was there, and changes what `list_get` finds for that key only.
pub list_add_lem :
    (e : Entry) (l : Chain)
    → WellFormed l
    → entry_valid e ≡ true
    → WellFormed (list_add true e l).0
      × ((list_add true e l).1 ≡ maybe (list_get e.key l) added (λ x. replaced))
      × ((j : Key)
          → list_get j (list_add true e l).0 ≡ (if j == e.key then some e else list_get j l))
list_add_lem e l w v = (
  list_add-WellFormed true e l w v,
  ap (λ p. p.1) (list_add-inserted true e l w v) ∙ rw (list_get-find e.key l w) result,
  λ j.
      list_get-find j (list_add true e l).0 (list_add-WellFormed true e l w v)
      ∙ ap (λ p. find j p.0.nodes) (list_add-inserted true e l w v)
      ∙ ap (find j) nodes
      ∙ find-insert j e l.nodes
      ∙ ap (λ b. if b then some e else find j l.nodes) (is_equal-strcmp j e.key)
      ∙ ap (λ o. if j == e.key then some e else o) (sym (list_get-find j l w)),
)
  where
    nodes : (inserted true e l.nodes).0 ≡ insert e l.nodes
    nodes = elim (Bool-cases (holds e.key l.nodes)) [ inl h ↦ simp h | inr h ↦ simp h ]

    result : (inserted true e l.nodes).1 ≡ maybe (find e.key l.nodes) added (λ x. replaced)
    result = elim (Option-cases (find e.key l.nodes)) [
      | inl q ↦
          let h = holds-find e.key l.nodes w.sorted ∙ ap (λ o. maybe o false (λ x. true)) q in
          simp (h, q)
      | inr (x, q) ↦
          let h = holds-find e.key l.nodes w.sorted ∙ ap (λ o. maybe o false (λ x. true)) q in
          simp (h, q)
    ]

pub list_remove-loop :
    (k : Key) (l : Chain)
    → WellFormed l
    → list_remove k l ≡ (
        if (remove_loop k l.nodes).1
        then (record { size = l.size - 1; nodes = (remove_loop k l.nodes).0 }, removed)
        else (l, missing))
unfolding list_remove
list_remove-loop k l w = rw w.valid (
    go (λ nodes. (record { size = l.size - 1; nodes = nodes }, removed)) (l, missing) l.size l.nodes
      w.counted)
  where
    go :
        (f : List Entry → Chain × RemoveResult) (q : Chain × RemoveResult) (n : ℕ) (xs : List Entry)
        → n ≡ length xs
        → (if eqb n 0 then q else if (remove_loop k xs).1 then f (remove_loop k xs).0 else q)
          ≡ (if (remove_loop k xs).1 then f (remove_loop k xs).0 else q)
    go f q n [] h = rw h (unfold remove_loop in refl)
    go f q n (x ∷ xs) h = let z : eqb n 0 ≡ false = ground arith in rw z refl

-- On a list with the invariant, `list_remove` keeps it, says whether the key was there, and leaves
-- what `list_get` finds for other keys.
pub list_remove_lem :
    (k : Key) (l : Chain)
    → WellFormed l
    → WellFormed (list_remove k l).0
      × ((list_remove k l).1 ≡ maybe (list_get k l) missing (λ x. removed))
      × ((j : Key) → list_get j (list_remove k l).0 ≡ (if k == j then none else list_get j l))
list_remove_lem k l w =
    let counts = remove_loop-counts k l.nodes in
    let get = list_get-find k l w in
    elim (Bool-cases (remove_loop k l.nodes).1) [
      | inl t ↦
          let e = list_remove-loop k l w ∙ if_true _ _ t in
          let l' : Chain = record { size = l.size - 1; nodes = (remove_loop k l.nodes).0 } in
          let w' : WellFormed l' = record {
            sorted = Sorted-remove k l.nodes w.sorted;
            valid = all_valid-remove k l.nodes w.valid;
            counted = omega (arith, w.counted, counts.1 ∙ if_true _ _ t);
          } in
          (
            rw e w',
            ap (λ p. p.1) e
                ∙ sym (
                    found (list_get k l)
                      (ap (λ o. maybe o false (λ x. true)) get ∙ sym counts.0 ∙ t)),
            λ j.
                ap (λ p. list_get j p.0) e
                ∙ list_get-find j l' w'
                ∙ find-remove j k l.nodes w.sorted
                ∙ ap (λ o. if k == j then none else o) (sym (list_get-find j l w)),
          )
      | inr t ↦
          let e = list_remove-loop k l w ∙ if_false _ _ t in
          (
            rw e w,
            ap (λ p. p.1) e
                ∙ sym (
                    lost (list_get k l)
                      (ap (λ o. maybe o false (λ x. true)) get ∙ sym counts.0 ∙ t)),
            λ j.
                ap (λ p. list_get j p.0) e
                ∙ list_get-find j l w
                ∙ ap (find j) (sym (counts.2 t))
                ∙ find-remove j k l.nodes w.sorted
                ∙ ap (λ o. if k == j then none else o) (sym (list_get-find j l w)),
          )
    ]
  where
    found :
        (o : Option Entry)
        → maybe o false (λ x. true) ≡ true
        → maybe o missing (λ x. removed) ≡ removed
    found none h = cc
    found (some x) h = refl

    lost :
        (o : Option Entry)
        → maybe o false (λ x. true) ≡ false
        → maybe o missing (λ x. removed) ≡ missing
    lost none h = refl
    lost (some x) h = cc
