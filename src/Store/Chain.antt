-- ===== src/Store/Chain.antt =====
-- The chain of servers: source/bubble_sort.c, the choice of neighbours in source/table_server.c, and
-- what a put or a delete does along the chain. ZooKeeper's list of children is an argument.
pub mod Sorting
pub mod Neighbours
pub mod Replication
pub mod Delivery
pub mod Joining
pub mod Merge
pub mod Sent
pub mod Takeover
pub mod Interleaving
use sd.Common.{
  ℕ, zero, suc, ◌+◌, ◌-◌, Bool, true, false, Option, none, some, List, [], ◌∷◌, length,
  if◌then◌else◌, maybe,
}
use sd.Store.Keys.{Key, Comparison, less, equal, greater, strcmp, compared}

abbrev pub is_greater : Comparison → Bool
is_greater less = false
is_greater equal = false
is_greater greater = true

-- The comparison of an element with the one after it, and the swap.
abbrev pub swap_front : Key → List Key → List Key
swap_front x [] = x ∷ []
swap_front x (y ∷ ys) = if is_greater (strcmp x y) then y ∷ (x ∷ ys) else x ∷ (y ∷ ys)

-- The inner loop of `bubble_sort`, from the end of the array down to its start.
unfoldable pub pass : List Key → List Key
pass [] = []
pass (x ∷ xs) = swap_front x (pass xs)

abbrev pub keep_first : (List Key → List Key) → List Key → List Key
keep_first f [] = []
keep_first f (x ∷ xs) = x ∷ f xs

-- The outer loop, with so many rounds left, on the part of the array from `i` on.
unfoldable pub rounds : ℕ → List Key → List Key
unfolding pass
rounds zero xs = xs
rounds (suc n) xs = keep_first (rounds n) (pass xs)

unfoldable pub bubble_sort : List Key → List Key
unfolding rounds
bubble_sort xs = rounds (length xs - 1) xs

-- The loop of `select_next_server`: the first child above the server's own node.
pub first_above : Key → List Key → Option Key
first_above own [] = none
first_above own (c ∷ cs) = if is_greater (strcmp c own) then some c else first_above own cs

-- The child that `select_next_server` connects to; `none` makes the server the tail.
unfoldable pub select_next_server : Key → List Key → Option Key
unfolding bubble_sort first_above
select_next_server own children = first_above own (bubble_sort children)

-- The loop of `select_prev_server`, from the last child down: the first one below the server's own
-- node.
unfoldable pub last_below : Key → List Key → Option Key
last_below own [] = none
last_below own (c ∷ cs) =
    let rest = last_below own cs in
    maybe rest (if is_greater (strcmp own c) then some c else none) some

-- The child whose table `select_prev_server` merges.
unfoldable pub select_prev_server : Key → List Key → Option Key
unfolding bubble_sort last_below
select_prev_server own children = last_below own (bubble_sort children)
