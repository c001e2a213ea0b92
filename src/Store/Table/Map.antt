-- ===== src/Store/Table/Map.antt =====
-- A table with the invariant is a finite map on the keys that have a row.
use sd.Common.{
  if_true, if_false, ℕ, ◌+◌, ◌<◌, ◌≡◌, refl, ap, sym, ◌∙◌, Bool, true, false, Option, none, some,
  List, [], ◌∷◌, All, eqb, if◌then◌else◌, maybe, length, get_elem?, arith, inl, inr, Bool-cases, ok,
  ◌>>=◌, ◌==◌, text_eq, replicate, length-replicate, leb,
}
use sd.Store.Keys.{Key, Comparison-cases, strcmp}
use sd.Store.SortedList.{
  Data, Entry, Chain, data_valid, data_dup, AddResult, failed, added, replaced, list_add, list_get,
  list_create,
}
use sd.Store.SortedList.Order.{WellFormed, insert, holds, list_add-inserted}
use sd.Store.SortedList.Lookup.{find-valid}
use sd.Store.SortedList.Map.{list_add_lem, list_get-find}
use sd.Store.Table.{
  Table, row, hash_code, set_row, table_create, done, put_size, put_result, table_put, find_entry,
  table_get,
}
use sd.Store.Table.Rows.{
  hash_code-lt, Rows, total, get_elem?-Rows, set_row-Rows, get_elem?-set_row, length-set_row,
  total-set_row, total-get_elem?, get_elem?-lt, Rows-create, total-create,
}

pub record IsValid (t : Table) : Type 0 where
  pub some_rows : 0 < t.rows
  pub counted_rows : length t.lists ≡ t.rows
  pub sound : Rows t.rows 0 t.lists
  pub counted : t.size ≡ total t.lists

pub table_create-IsValid :
    (n : ℕ) → 0 < n → (t : Table) × (table_create n ≡ some t) × IsValid t × (t.size ≡ 0)
unfolding table_create
table_create-IsValid n h =
    let z : leb n 0 ≡ false = ground arith in
    (
      record { size = 0; rows = n; lists = replicate n list_create },
      simp z,
      record {
        some_rows = h;
        counted_rows = length-replicate n list_create;
        sound = Rows-create n 0 n;
        counted = sym (total-create n);
      },
      refl,
    )

-- The list of the row that a key has.
pub row_list :
    (t : Table) (k : Key) (i : ℕ)
    → IsValid t
    → hash_code k t.rows ≡ row i
    → (l : Chain) × (get_elem? t.lists i ≡ some l)
      × WellFormed l
      × All (λ e. hash_code e.key t.rows ≡ row i) l.nodes
row_list t k i v q =
    let (l, g) =
      get_elem?-lt i t.lists
        (omega (arith, hash_code-lt k t.rows i v.some_rows q, v.counted_rows)) in
    let (w, a) = get_elem?-Rows t.rows 0 i t.lists v.sound g in
    let z : 0 + i ≡ i = omega arith in (l, g, w, rw z at a)

list_get-empty : (k : Key) (l : Chain) → WellFormed l → l.size ≡ 0 → list_get k l ≡ none
unfolding list_get
list_get-empty k l w z = rw (w.valid, z) refl

-- The entry of a key that has a row is that of the row's list.
pub find_entry-row :
    (t : Table) (k : Key) (i : ℕ) (l : Chain)
    → IsValid t
    → hash_code k t.rows ≡ row i
    → get_elem? t.lists i ≡ some l
    → WellFormed l
    → find_entry k t ≡ ok (list_get k l)
find_entry-row t k i l v q g w = elim (Bool-cases (eqb t.size 0)) [
  | inl z ↦
      let e : l.size ≡ 0 = ground (arith, total-get_elem? i t.lists g, v.counted) in
      simp (z, list_get-empty k l w e)
  | inr z ↦ simp (z, q, g)
]

-- What `table_get` gives for a key that has a row.
pub table_get-row :
    (t : Table) (k : Key) (i : ℕ) (l : Chain)
    → IsValid t
    → hash_code k t.rows ≡ row i
    → get_elem? t.lists i ≡ some l
    → WellFormed l
    → table_get (some k) t ≡ ok (maybe (list_get k l) none (λ y. some y.value))
unfolding table_get
table_get-row t k i l v q g w =
    ap (λ o. o >>= λ x. ok (maybe x none (λ y. data_dup y.value))) (find_entry-row t k i l v q g w)
    ∙ ap ok (
        ap (λ o. maybe o none (λ y. data_dup y.value)) (list_get-find k l w)
        ∙ find-valid k l.nodes w.valid
        ∙ ap (λ o. maybe o none (λ y. some y.value)) (sym (list_get-find k l w)))

All-insert :
    (P : Entry → Type 0) (e : Entry) (xs : List Entry) → P e → All P xs → All P (insert e xs)
All-insert P e [] p a = (p, tt)
All-insert P e (x ∷ xs) p a = elim (Comparison-cases (strcmp e.key x.key)) [
  | inl c ↦ simp c (p, a)
  | inr (inl c) ↦ simp c (p, a.1)
  | inr (inr c) ↦ simp c (a.0, All-insert P e xs p a.1)
]

pub All-list_add :
    (P : Entry → Type 0) (e : Entry) (l : Chain)
    → WellFormed l
    → data_valid e.value ≡ true
    → P e
    → All P l.nodes
    → All P (list_add true e l).0.nodes
All-list_add P e l w v p a =
    rw (list_add-inserted true e l w v) (elim (Bool-cases (holds e.key l.nodes)) [
      | inl h ↦ simp h (All-insert P e l.nodes p a)
      | inr h ↦ simp h (All-insert P e l.nodes p a)
    ])

-- The size that `list_add` gives a list, by its result.
list_add-size :
    (e : Entry) (l : Chain)
    → WellFormed l
    → data_valid e.value ≡ true
    → (list_add true e l).0.size ≡ put_size (list_add true e l).1 l.size
list_add-size e l w v =
    rw (list_add-inserted true e l w v)
      (elim (Bool-cases (holds e.key l.nodes)) [ inl h ↦ simp h | inr h ↦ simp h ])

put_size_add : (r : AddResult) (m n d : ℕ) → m + d ≡ n + put_size r d → put_size r n ≡ m
put_size_add failed m n d h = omega arith
put_size_add added m n d h = omega arith
put_size_add replaced m n d h = omega arith

row-injective : (i j : ℕ) → row i ≡ row j → i ≡ j
row-injective i j q = cc

pub branch {κ μ} :
    {A : Type κ} {B : Type μ} (f : A → B) (b : Bool) (x y : A)
    → f (if b then x else y) ≡ (if b then f x else f y)
branch f true x y = refl
branch f false x y = refl

-- A change of the row of one key changes the entries that are found for that key only, if it does
-- so in the row's list.
pub find_entry-changed :
    (t : Table) (k : Key) (i s : ℕ) (l l' : Chain) (here : Key → Bool) (o : Option Entry)
    → IsValid t
    → IsValid (record t { size = s; lists = set_row i l' t.lists })
    → hash_code k t.rows ≡ row i
    → get_elem? t.lists i ≡ some l
    → WellFormed l
    → WellFormed l'
    → ((j : Key) → here j ≡ true → j ≡ k)
    → ((j : Key) → list_get j l' ≡ (if here j then o else list_get j l))
    → (j : Key) (n : ℕ) → hash_code j t.rows ≡ row n
    → find_entry j (record t { size = s; lists = set_row i l' t.lists })
      ≡ (if here j then ok o else find_entry j t)
find_entry-changed t k i s l l' here o v v' q g w w' only get j n h =
    let t' : Table = record t { size = s; lists = set_row i l' t.lists } in
    let lt : i < length t.lists =
      omega (arith, hash_code-lt k t.rows i v.some_rows q, v.counted_rows) in
    let changed = get_elem?-set_row i n l' t.lists lt in
    elim (Bool-cases (eqb i n)) [
      | inl c ↦
          let e : i ≡ n = ground arith in
          let gn : get_elem? t.lists n ≡ some l = rw (← e) g in
          find_entry-row t' j n l' v' h (changed ∙ if_true (some l') _ c) w'
          ∙ ap ok (get j)
          ∙ branch ok (here j) o (list_get j l)
          ∙ ap (λ r. if here j then ok o else r) (sym (find_entry-row t j n l v h gn w))
      | inr c ↦
          let (m, gm, wm, am) = row_list t j n v h in
          let far : here j ≡ false = elim (Bool-cases (here j)) [
            | inr b ↦ b
            | inl b ↦
                let same : i ≡ n =
                  row-injective i n (sym q ∙ ap (λ x. hash_code x t.rows) (sym (only j b)) ∙ h) in
                absurd (ground arith)
          ] in
          find_entry-row t' j n m v' h (changed ∙ if_false (some l') _ c ∙ gm) wm
          ∙ sym (find_entry-row t j n m v h gm wm)
          ∙ sym (if_false (ok o) (find_entry j t) far)
    ]

put_result-done :
    (o : Option Entry) (r : AddResult) → r ≡ maybe o added (λ x. replaced) → put_result r ≡ done
put_result-done none r q = ap put_result q
put_result-done (some x) r q = ap put_result q

-- With memory, `table_put` of a valid value under a key that has a row succeeds, keeps the
-- invariant and the number of rows, and `table_get` then gives the value under that key, and under
-- another key that has a row what it gave before.
pub table_get-table_put :
    (t : Table) (k j : Key) (d : Data) (i n : ℕ)
    → IsValid t
    → hash_code k t.rows ≡ row i
    → hash_code j t.rows ≡ row n
    → data_valid d ≡ true
    → (t' : Table) × (table_put true true (some k) (some d) t ≡ ok (t', done))
      × IsValid t'
      × (t'.rows ≡ t.rows)
      × (table_get (some j) t' ≡ (if j == k then ok (some d) else table_get (some j) t))
unfolding table_put table_get data_dup
table_get-table_put t k j d i n v q h dv =
    let (l, g, w, a) = row_list t k i v q in
    let e : Entry = record { key = k; value = d } in
    let facts = list_add_lem e l w dv in
    let l' = (list_add true e l).0 in
    let r = (list_add true e l).1 in
    let t' : Table = record t { size = put_size r t.size; lists = set_row i l' t.lists } in
    let z : 0 + i ≡ i = omega arith in
    let v' : IsValid t' = record {
      some_rows = v.some_rows;
      counted_rows = length-set_row i l' t.lists ∙ v.counted_rows;
      sound =
          set_row-Rows t.rows 0 i l' t.lists v.sound facts.0
            (rw z (All-list_add (λ x. hash_code x.key t.rows ≡ row i) e l w dv q a));
      counted = put_size_add r (total (set_row i l' t.lists)) t.size l.size (
          total-set_row i l' t.lists g
          ∙ ap (total t.lists +◌) (list_add-size e l w dv)
          ∙ ap (λ s. s + put_size r l.size) (sym v.counted));
    } in
    (
      t',
      simp (dv, q, g) (ap (λ p. ok (t', p)) (put_result-done (list_get k l) r facts.1)),
      v',
      refl,
      ap (λ o. o >>= λ x. ok (maybe x none (λ y. data_dup y.value)))
            (find_entry-changed t k i (put_size r t.size) l l' (λ x. x == k) (some e) v v' q g w
              facts.0 (λ x. (text_eq.beq_iff x k).0) facts.2 j n h)
          ∙ branch (λ o. o >>= λ x. ok (maybe x none (λ y. data_dup y.value))) (j == k)
              (ok (some e)) (find_entry j t)
          ∙ ap (λ o. if j == k then ok o else table_get (some j) t) (if_true (some d) none dv),
    )
