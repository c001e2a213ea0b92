-- ===== src/Store/Table/Entries.antt =====
-- `get_all_entries` gives what the lists hold.
use sd.Common.{
  ℕ, suc, ◌+◌, ◌≡◌, refl, ap, sym, ◌∙◌, true, false, none, some, List, [], ◌∷◌, ◌++◌, map, All, eqb,
  if◌then◌else◌, maybe, length, get_elem?, arith, inl, inr, Bool-cases, ok, ◌>>=◌, if_true,
}
use sd.Store.SortedList.{Entry, Chain, entry_valid, all_valid, entry_dup, list_get_keys, find}
use sd.Store.SortedList.Order.{WellFormed}
use sd.Store.SortedList.Lookup.{find_self}
use sd.Store.SortedList.Map.{list_get-find}
use sd.Store.Table.{
  Table, row, hash_code, table_get_entry, table_get_keys, keys_loop, entries_loop, get_all_entries,
}
use sd.Store.Table.Rows.{Rows}
use sd.Store.Table.Map.{IsValid, find_entry-row}

-- The entries of the lists, list after list.
abbrev pub all_nodes : List Chain → List Entry
all_nodes [] = []
all_nodes (l ∷ ls) = l.nodes ++ all_nodes ls

All-append {ℓ κ} :
    {A : Type ℓ} (P : A → Type κ) (xs ys : List A) → All P xs → All P ys → All P (xs ++ ys)
All-append P [] ys a b = b
All-append P (x ∷ xs) ys a b = (a.0, All-append P xs ys a.1 b)

-- What `get_all_entries` looks up for an entry.
abbrev pub Found : Table → Entry → Type 0
Found t e = table_get_entry (some e.key) t ≡ ok (some e)

Found-list :
    (t : Table) (i : ℕ) (l : Chain) (es : List Entry)
    → IsValid t
    → get_elem? t.lists i ≡ some l
    → WellFormed l
    → all_valid es ≡ true
    → All (λ e. hash_code e.key t.rows ≡ row i) es
    → All (λ e. find e.key l.nodes ≡ some e) es
    → All (Found t) es
unfolding table_get_entry entry_dup
Found-list t i l [] v g w a h f = tt
Found-list t i l (e ∷ es) v g w a h f =
    let first : entry_valid e ≡ true = ground arith in
    let rest : all_valid es ≡ true = ground arith in
    (
      ap (λ o. o >>= λ x. ok (maybe x none entry_dup))
            (find_entry-row t e.key i l v h.0 g w ∙ ap ok (list_get-find e.key l w ∙ f.0))
          ∙ ap ok (if_true _ _ first),
      Found-list t i l es v g w rest h.1 f.1,
    )

Found-rows :
    (t : Table) (i : ℕ) (ls : List Chain)
    → IsValid t
    → Rows t.rows i ls
    → ((n : ℕ) (l : Chain) → get_elem? ls n ≡ some l → get_elem? t.lists (i + n) ≡ some l)
    → All (Found t) (all_nodes ls)
Found-rows t i [] v r at_row = tt
Found-rows t i (l ∷ ls) v r at_row =
    let w = r.0.0 in
    let z : i + 0 ≡ i = omega arith in
    let g : get_elem? t.lists i ≡ some l = let g0 = at_row 0 l refl in rw z at g0 in
    All-append (Found t) l.nodes (all_nodes ls)
      (Found-list t i l l.nodes v g w w.valid r.0.1 (find_self l.nodes w.sorted))
      (Found-rows t (i + 1) ls v r.1
        (λ n m q. let s : i + 1 + n ≡ i + suc n = omega arith in rw s (at_row (suc n) m q)))

-- Each entry of the lists is found under its key.
pub Found-all_nodes : (t : Table) → IsValid t → All (Found t) (all_nodes t.lists)
Found-all_nodes t v =
    Found-rows t 0 t.lists v v.sound (λ n l q. let e : 0 + n ≡ n = omega arith in rw e q)

entries_loop-Found :
    (t : Table) (es : List Entry)
    → All (Found t) es
    → entries_loop t (map (λ e. e.key) es) ≡ ok (some es)
unfolding entries_loop
entries_loop-Found t [] f = refl
entries_loop-Found t (e ∷ es) f = simp (f.0, entries_loop-Found t es f.1)

map-append {ℓ κ} :
    {A : Type ℓ} {B : Type κ} (f : A → B) (xs ys : List A) → map f (xs ++ ys) ≡ map f xs ++ map f ys
map-append f [] ys = refl
map-append f (x ∷ xs) ys = ap (f x ∷◌) (map-append f xs ys)

keys_of_list :
    (l : Chain) → WellFormed l → maybe (list_get_keys l) [] (λ ks. ks) ≡ map (λ e. e.key) l.nodes
unfolding list_get_keys
keys_of_list l w = rw w.valid (go l.size l.nodes w.counted)
  where
    go :
        (n : ℕ) (es : List Entry)
        → n ≡ length es
        → maybe (if eqb n 0 then none else some (map (λ e. e.key) es)) [] (λ ks. ks)
          ≡ map (λ e. e.key) es
    go n [] h = rw h refl
    go n (e ∷ es) h = let z : eqb n 0 ≡ false = ground arith in rw z refl

keys_loop-nodes :
    (rows i : ℕ) (ls : List Chain) → Rows rows i ls → keys_loop ls ≡ map (λ e. e.key) (all_nodes ls)
unfolding keys_loop
keys_loop-nodes rows i [] r = refl
keys_loop-nodes rows i (l ∷ ls) r =
    ap (λ ks. ks ++ keys_loop ls) (keys_of_list l r.0.0)
    ∙ ap (map (λ e. e.key) l.nodes ++◌) (keys_loop-nodes rows (i + 1) ls r.1)
    ∙ sym (map-append (λ e. e.key) l.nodes (all_nodes ls))

-- On a table with the invariant `get_all_entries` does not leave the array of lists, finds each key
-- that `table_get_keys` names, and gives the entries of all lists, row after row; NULL is for a table
-- without entries.
pub get_all_entries_lem :
    (t : Table)
    → IsValid t
    → get_all_entries t ≡ ok (if eqb t.size 0 then none else some (all_nodes t.lists))
unfolding get_all_entries table_get_keys
get_all_entries_lem t v = elim (Bool-cases (eqb t.size 0)) [
  | inl z ↦ simp z
  | inr z ↦ simp z (
      ap (entries_loop t) (keys_loop-nodes t.rows 0 t.lists v.sound)
      ∙ entries_loop-Found t (all_nodes t.lists) (Found-all_nodes t v))
]
