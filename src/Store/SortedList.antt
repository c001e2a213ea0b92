-- ===== src/Store/SortedList.antt =====
-- source/data.c, source/entry.c and source/list.c: data blocks, entries, and the list of entries in
-- the order of their keys. A node chain is the list of its entries. The arguments that are pointers
-- are not NULL; where `malloc` may fail, an argument says whether it gives memory.
pub mod Order
pub mod Lookup
pub mod Map
use sd.Common.{
  ℕ, ◌+◌, ◌-◌, Bool, true, false, not, ◌&&◌, ◌||◌, Option, none, some, List, [], ◌∷◌, map, eqb, leb,
  if◌then◌else◌, length,
}
use sd.Store.Keys.{Key, Comparison, strcmp, compared, is_equal, less, equal, greater}

-- `struct data_t`: the size is the number of bytes.
pub record Data : Type 0 where
  pub bytes : List ℕ

pub record Entry : Type 0 where
  pub key : Key
  pub value : Data

-- `data_valid` and `entry_valid`: a size above 0.
abbrev pub data_valid : Data → Bool
data_valid d = not (eqb (length d.bytes) 0)

abbrev pub entry_valid : Entry → Bool
entry_valid e = data_valid e.value

-- `data_create`, of bytes that are copied.
unfoldable pub data_create : List ℕ → Option Data
data_create bytes = if leb (length bytes) 0 then none else some (record { bytes = bytes })

-- `data_dup` and `entry_dup`, which copy a valid one.
unfoldable pub data_dup : Data → Option Data
data_dup d = if data_valid d then some d else none

unfoldable pub entry_dup : Entry → Option Entry
entry_dup e = if entry_valid e then some e else none

-- `none` is -2.
unfoldable pub entry_compare : Entry → Entry → Option Comparison
entry_compare a b = if entry_valid a && entry_valid b then some (strcmp a.key b.key) else none

-- `entry_replace` on valid entries: the new key and value take the place of the old ones.
abbrev pub entry_replace : Entry → Key → Data → Entry
entry_replace e key value = record e { key = key; value = value }

-- `struct list_t`.
pub record Chain : Type 0 where
  pub size : ℕ
  pub nodes : List Entry

abbrev pub all_valid : List Entry → Bool
all_valid [] = true
all_valid (e ∷ es) = if entry_valid e then all_valid es else false

-- `valid_list`. The size is a count, which is not below 0 here.
abbrev pub valid_list : Chain → Bool
valid_list l = all_valid l.nodes

abbrev pub list_create : Chain
list_create = record { size = 0; nodes = [] }

-- The results -1, 0 and 1 of `list_add`.
pub data AddResult : Type 0 where
  failed added replaced : AddResult

-- The loop of `list_add`, from a node on.
pub add_loop : Bool → Entry → List Entry → List Entry × AddResult
add_loop memory entry [] = ([], failed)
add_loop memory entry (x ∷ []) =
    compared (strcmp entry.key x.key)
      (if memory then (entry ∷ (x ∷ []), added) else (x ∷ [], failed)) (entry ∷ [], replaced)
      (if memory then (x ∷ (entry ∷ []), added) else (x ∷ [], failed))
add_loop memory entry (x ∷ (y ∷ xs)) =
    let (rest, result) = add_loop memory entry (y ∷ xs) in
    compared (strcmp entry.key x.key)
      (if memory then (entry ∷ (x ∷ (y ∷ xs)), added) else (x ∷ (y ∷ xs), failed))
      (entry ∷ (y ∷ xs), replaced) (x ∷ rest, result)

-- The case of one node. Here the node at hand is compared with the entry, not the entry with it.
pub add_second : Bool → Entry → List Entry → List Entry × AddResult
add_second memory entry [] = ([], failed)
add_second memory entry (x ∷ xs) =
    compared (strcmp x.key entry.key)
      (if memory then (x ∷ (entry ∷ []), added) else (x ∷ xs, failed))
      (entry_replace x entry.key entry.value ∷ xs, replaced)
      (if memory then (entry ∷ (x ∷ xs), added) else (x ∷ xs, failed))

abbrev pub grown : AddResult → ℕ → ℕ
grown failed n = n
grown added n = n + 1
grown replaced n = n

-- In the case of no node, the head is NULL when there is no memory.
unfoldable pub list_add : Bool → Entry → Chain → Chain × AddResult
unfolding add_loop add_second
list_add memory entry l =
    if not (valid_list l)
    then (l, failed)
    else if not (entry_valid entry)
    then (l, failed)
    else if eqb l.size 0
    then (if memory
        then (record { size = 1; nodes = entry ∷ [] }, added)
        else (record l { nodes = [] }, failed))
    else if eqb l.size 1
    then (let (nodes, result) = add_second memory entry l.nodes in
        (record { size = grown result l.size; nodes = nodes }, result))
    else (let (nodes, result) = add_loop memory entry l.nodes in
        (record { size = grown result l.size; nodes = nodes }, result))

-- The loop of `list_remove`: what is left, and whether an entry went.
pub remove_loop : Key → List Entry → List Entry × Bool
remove_loop key [] = ([], false)
remove_loop key (x ∷ xs) =
    let (rest, found) = remove_loop key xs in
    if is_equal (strcmp key x.key) then (xs, true) else (x ∷ rest, found)

-- The results -1, 0 and 1 of `list_remove` and `table_remove`.
pub data RemoveResult : Type 0 where
  invalid removed missing : RemoveResult

unfoldable pub list_remove : Key → Chain → Chain × RemoveResult
unfolding remove_loop
list_remove key l =
    let (nodes, found) = remove_loop key l.nodes in
    if not (valid_list l)
    then (l, invalid)
    else if eqb l.size 0
    then (l, missing)
    else if found
    then (record { size = l.size - 1; nodes = nodes }, removed)
    else (l, missing)

-- The loop of `list_get`.
unfoldable pub find : Key → List Entry → Option Entry
find key [] = none
find key (x ∷ xs) = if is_equal (strcmp key x.key) then some x else find key xs

unfoldable pub list_get : Key → Chain → Option Entry
unfolding find
list_get key l =
    if not (valid_list l) then none else if eqb l.size 0 then none else find key l.nodes

-- -1, the size of an invalid list, is `none`.
unfoldable pub list_size : Chain → Option ℕ
list_size l = if valid_list l then some l.size else none

-- The array without its NULL at the end; NULL is `none`.
unfoldable pub list_get_keys : Chain → Option (List Key)
list_get_keys l =
    if not (valid_list l)
    then none
    else if eqb l.size 0
    then none
    else some (map (λ e. e.key) l.nodes)
