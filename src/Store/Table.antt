-- ===== src/Store/Table.antt =====
-- source/table.c: the hash table, an array of sorted lists. Pointers to the table are not NULL; a key
-- or a value that is NULL is `none`. An access outside the array of lists is the error of an
-- `Outcome`.
pub mod Rows
pub mod Map
pub mod Remove
pub mod Entries
use sd.Common.{
  ℕ, zero, suc, ◌+◌, ◌-◌, ◌%◌, Bool, true, false, not, Option, none, some, List, [], ◌∷◌, ◌++◌, eqb,
  leb, ltb, if◌then◌else◌, maybe, length, get_elem?, replicate, Outcome, ok, err, ◌>>=◌,
}
use sd.Store.Keys.{Key}
use sd.Store.SortedList.{
  Data, Entry, Chain, data_valid, data_dup, entry_dup, list_create, AddResult, failed, added,
  replaced, list_add, RemoveResult, invalid, removed, missing, list_remove, list_get, list_get_keys,
}

pub record Table : Type 0 where
  pub size : ℕ
  pub rows : ℕ
  pub lists : List Chain

-- The sum of a key's `char`s, which are signed: what is added and what is taken away. Keys are so
-- short that an `int` holds the sum.
abbrev pub char_sum : Key → ℕ × ℕ
char_sum [] = (0, 0)
char_sum (c ∷ key) =
    let (plus, minus) = char_sum key in
    if ltb c 128 then (plus + c, minus) else (plus, minus + (256 - c))

-- A result of `%` in C has the sign of the dividend.
pub data HashCode : Type 0 where
  row : ℕ → HashCode
  negative : ℕ → HashCode

abbrev remainder : ℕ → ℕ → ℕ → HashCode
remainder plus minus modulus =
    if leb minus plus
    then row ((plus - minus) % modulus)
    else (let r = (minus - plus) % modulus in if eqb r 0 then row 0 else negative r)

unfoldable pub hash_code : Key → ℕ → HashCode
hash_code key modulus = let (plus, minus) = char_sum key in remainder plus minus modulus

pub data Fault : Type 0 where
  out_of_bounds : Fault

-- `table->lists[row]`.
abbrev pub list_at : HashCode → List Chain → Outcome Fault Chain
list_at (row i) lists = maybe (get_elem? lists i) (err out_of_bounds) ok
list_at (negative r) lists = err out_of_bounds

-- A change of the list of a row.
abbrev pub set_row : ℕ → Chain → List Chain → List Chain
set_row i l [] = []
set_row zero l (m ∷ ls) = l ∷ ls
set_row (suc i) l (m ∷ ls) = m ∷ set_row i l ls

abbrev pub set_list_at : HashCode → Chain → List Chain → List Chain
set_list_at (row i) l lists = set_row i l lists
set_list_at (negative r) l lists = lists

-- `table_create`, with memory.
unfoldable pub table_create : ℕ → Option Table
table_create n =
    if leb n 0 then none else some (record { size = 0; rows = n; lists = replicate n list_create })

-- The results 0 and -1 of `table_put`.
pub data PutResult : Type 0 where
  done refused : PutResult

abbrev pub put_result : AddResult → PutResult
put_result failed = refused
put_result added = done
put_result replaced = done

abbrev pub put_size : AddResult → ℕ → ℕ
put_size failed n = n
put_size added n = n + 1
put_size replaced n = n

-- `copies` says that there is memory for the copies of key and value, `memory` that there is for a
-- node.
unfoldable pub table_put :
    Bool → Bool → Option Key → Option Data → Table → Outcome Fault (Table × PutResult)
unfolding hash_code
table_put copies memory none value t = ok (t, refused)
table_put copies memory (some key) none t = ok (t, refused)
table_put copies memory (some key) (some value) t =
    let h = hash_code key t.rows in
    if not (data_valid value)
    then ok (t, refused)
    else if not copies
    then ok (t, refused)
    else list_at h t.lists >>= λ l.
        let (l', result) = list_add memory (record { key = key; value = value }) l in
        ok (
          record t { size = put_size result t.size; lists = set_list_at h l' t.lists },
          put_result result,
        )

-- The entry that `table_get` and `table_get_entry` find.
abbrev pub find_entry : Key → Table → Outcome Fault (Option Entry)
find_entry key t =
    if eqb t.size 0
    then ok none
    else list_at (hash_code key t.rows) t.lists >>= λ l. ok (list_get key l)

unfoldable pub table_get : Option Key → Table → Outcome Fault (Option Data)
unfolding hash_code
table_get none t = ok none
table_get (some key) t = find_entry key t >>= λ e. ok (maybe e none (λ x. data_dup x.value))

unfoldable pub table_get_entry : Option Key → Table → Outcome Fault (Option Entry)
unfolding hash_code
table_get_entry none t = ok none
table_get_entry (some key) t = find_entry key t >>= λ e. ok (maybe e none entry_dup)

abbrev pub remove_size : RemoveResult → ℕ → ℕ
remove_size invalid n = n
remove_size removed n = n - 1
remove_size missing n = n

unfoldable pub table_remove : Option Key → Table → Outcome Fault (Table × RemoveResult)
unfolding hash_code
table_remove none t = ok (t, invalid)
table_remove (some key) t =
    let h = hash_code key t.rows in
    if eqb t.size 0
    then ok (t, missing)
    else list_at h t.lists >>= λ l.
        let (l', result) = list_remove key l in
        ok (record t { size = remove_size result t.size; lists = set_list_at h l' t.lists }, result)

-- The loop of `table_get_keys` over the rows.
pub keys_loop : List Chain → List Key
keys_loop [] = []
keys_loop (l ∷ ls) = maybe (list_get_keys l) [] (λ ks. ks) ++ keys_loop ls

unfoldable pub table_get_keys : Table → Option (List Key)
unfolding keys_loop
table_get_keys t = if eqb t.size 0 then none else some (keys_loop t.lists)

-- The loop of `get_all_entries`: it gives up where an entry is not found.
pub entries_loop : Table → List Key → Outcome Fault (Option (List Entry))
entries_loop t [] = ok (some [])
entries_loop t (key ∷ keys) = table_get_entry (some key) t >>= λ e.
    maybe e (ok none)
      λ entry. entries_loop t keys >>= λ rest. ok (maybe rest none (λ es. some (entry ∷ es)))

unfoldable pub get_all_entries : Table → Outcome Fault (Option (List Entry))
unfolding entries_loop
get_all_entries t = maybe (table_get_keys t) (ok none) (entries_loop t)
