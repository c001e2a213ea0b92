-- ===== src/Store/Table/Remove.antt =====
-- `table_remove`, and the keys of a table.
use sd.Common.{
  if_true, if_false, ℕ, ◌+◌, ◌≤◌, ◌≡◌, refl, ap, sym, ◌∙◌, Option, none, some, List, [], ◌∷◌, All,
  eqb, if◌then◌else◌, maybe, length, length-append, length-map, arith, inl, inr, Bool-cases, ok,
  ◌>>=◌, ◌==◌, text_eq,
}
use sd.Store.Keys.{Key}
use sd.Store.SortedList.{
  Data, Entry, Chain, data_dup, list_get, list_get_keys, list_remove, RemoveResult, invalid,
  removed, missing, remove_loop,
}
use sd.Store.SortedList.Order.{WellFormed}
use sd.Store.SortedList.Lookup.{All-remove, remove_loop-counts}
use sd.Store.SortedList.Map.{list_remove_lem, list_remove-loop}
use sd.Store.Table.{
  Table, row, hash_code, set_row, find_entry, table_get, table_remove, remove_size, table_get_keys,
  keys_loop,
}
use sd.Store.Table.Rows.{Rows, total, set_row-Rows, length-set_row, total-set_row, total-get_elem?}
use sd.Store.Table.Map.{IsValid, row_list, find_entry-changed, branch, table_get-row}

All-list_remove :
    (P : Entry → Type 0) (k : Key) (l : Chain)
    → WellFormed l
    → All P l.nodes
    → All P (list_remove k l).0.nodes
All-list_remove P k l w a = elim (Bool-cases (remove_loop k l.nodes).1) [
  | inl t ↦ rw (list_remove-loop k l w ∙ if_true _ _ t) (All-remove P k l.nodes a)
  | inr t ↦ rw (list_remove-loop k l w ∙ if_false _ _ t) a
]

-- The size of the list after `list_remove`, by its result.
list_remove-size :
    (k : Key) (l : Chain)
    → WellFormed l
    → ((list_remove k l).0.size ≡ remove_size (list_remove k l).1 l.size)
      × ((list_remove k l).1 ≡ removed → 1 ≤ l.size)
list_remove-size k l w = elim (Bool-cases (remove_loop k l.nodes).1) [
  | inl t ↦
      let e = list_remove-loop k l w ∙ if_true _ _ t in
      let c = (remove_loop-counts k l.nodes).1 ∙ if_true _ _ t in
      (
        ap (λ p. p.0.size) e ∙ sym (ap (λ p. remove_size p.1 l.size) e),
        λ q. omega (arith, w.counted, c),
      )
  | inr t ↦
      let e = list_remove-loop k l w ∙ if_false _ _ t in
      (
        ap (λ p. p.0.size) e ∙ sym (ap (λ p. remove_size p.1 l.size) e),
        λ q. absurd (let r = sym (ap (λ p. p.1) e) ∙ q in cc),
      )
]

remove_size_add :
    (r : RemoveResult) (m n d : ℕ)
    → m + d ≡ n + remove_size r d
    → (r ≡ removed → 1 ≤ d)
    → d ≤ n
    → remove_size r n ≡ m
remove_size_add invalid m n d h p le = omega arith
remove_size_add removed m n d h p le = omega (arith, p refl)
remove_size_add missing m n d h p le = omega arith

found_value :
    (o : Option Entry)
    → maybe o missing (λ x. removed)
      ≡ maybe (maybe o none (λ y. some y.value)) missing (λ d. removed)
found_value none = refl
found_value (some x) = refl

-- `table_remove` under a key that has a row keeps the invariant and the number of rows, says whether
-- `table_get` gave a value under that key, and leaves none; under another key that has a row,
-- `table_get` gives what it gave before.
pub table_get-table_remove :
    (t : Table) (k j : Key) (i n : ℕ)
    → IsValid t
    → hash_code k t.rows ≡ row i
    → hash_code j t.rows ≡ row n
    → (t' : Table) × (o : Option Data) × (table_get (some k) t ≡ ok o)
      × (table_remove (some k) t ≡ ok (t', maybe o missing (λ d. removed)))
      × IsValid t'
      × (t'.rows ≡ t.rows)
      × (table_get (some j) t' ≡ (if k == j then ok none else table_get (some j) t))
unfolding table_remove table_get
table_get-table_remove t k j i n v q h = elim (Bool-cases (eqb t.size 0)) [
  | inl z ↦ (
    t,
    none,
    simp z,
    simp z,
    v,
    refl,
    elim (Bool-cases (k == j)) [ inl b ↦ simp (z, b) | inr b ↦ simp b ],
  )
  | inr z ↦
      let (l, g, w, a) = row_list t k i v q in
      let facts = list_remove_lem k l w in
      let sizes = list_remove-size k l w in
      let l' = (list_remove k l).0 in
      let r = (list_remove k l).1 in
      let t' : Table = record t { size = remove_size r t.size; lists = set_row i l' t.lists } in
      let e : 0 + i ≡ i = omega arith in
      let v' : IsValid t' = record {
        some_rows = v.some_rows;
        counted_rows = length-set_row i l' t.lists ∙ v.counted_rows;
        sound =
            set_row-Rows t.rows 0 i l' t.lists v.sound facts.0
              (rw e (All-list_remove (λ x. hash_code x.key t.rows ≡ row i) k l w a));
        counted =
            remove_size_add r (total (set_row i l' t.lists)) t.size l.size
              (total-set_row i l' t.lists g
                ∙ ap (total t.lists +◌) sizes.0
                ∙ ap (λ s. s + remove_size r l.size) (sym v.counted))
              sizes.1 (omega (arith, total-get_elem? i t.lists g, v.counted));
      } in
      (
        t',
        maybe (list_get k l) none (λ y. some y.value),
        table_get-row t k i l v q g w,
        simp (z, q, g) (ap (λ x. ok (t', x)) (facts.1 ∙ found_value (list_get k l))),
        v',
        refl,
        ap (λ o. o >>= λ x. ok (maybe x none (λ y. data_dup y.value)))
              (find_entry-changed t k i (remove_size r t.size) l l' (λ x. k == x) none v v' q g w
                facts.0 (λ x b. sym ((text_eq.beq_iff k x).0 b)) facts.2 j n h)
            ∙ branch (λ o. o >>= λ x. ok (maybe x none (λ y. data_dup y.value))) (k == j) (ok none)
                (find_entry j t),
      )
]

length-list_get_keys :
    (l : Chain) → WellFormed l → length (maybe (list_get_keys l) [] (λ ks. ks)) ≡ l.size
unfolding list_get_keys
length-list_get_keys l w = rw w.valid (elim (Bool-cases (eqb l.size 0)) [
  | inl z ↦ rw z (ground arith)
  | inr z ↦ rw z (length-map l.nodes (λ e. e.key) ∙ sym w.counted)
])

length-keys_loop :
    (rows i : ℕ) (ls : List Chain) → Rows rows i ls → length (keys_loop ls) ≡ total ls
unfolding keys_loop
length-keys_loop rows i [] r = refl
length-keys_loop rows i (l ∷ ls) r =
    let ks = maybe (list_get_keys l) [] (λ ks. ks) in
    omega (
      arith,
      length-append ks (keys_loop ls),
      length-list_get_keys l r.0.0,
      length-keys_loop rows (i + 1) ls r.1,
    )

-- `table_get_keys` gives as many keys as the table's size: with the NULL at the end they fill just
-- the array of one more that it allocates.
pub length-table_get_keys : (t : Table) → IsValid t → maybe (table_get_keys t) 0 length ≡ t.size
unfolding table_get_keys
length-table_get_keys t v = elim (Bool-cases (eqb t.size 0)) [
  | inl z ↦ rw z (ground arith)
  | inr z ↦ rw z (length-keys_loop t.rows 0 t.lists v.sound ∙ sym v.counted)
]
