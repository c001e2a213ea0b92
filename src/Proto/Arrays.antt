-- ===== src/Proto/Arrays.antt =====
-- The methods that docs/skin/prototype.js adds to arrays, and `$A`. An array is the list of its
-- elements; where the code asks `i in this`, `none` stands for a hole.
pub mod Sets
pub mod Iteration
pub mod Search
use mathlib.Core.List.{reverse}
use sd.Common.{
  ℕ, zero, suc, ◌+◌, ◌-◌, Bool, true, false, not, ◌&&◌, ◌||◌, Option, none, some, List, [], ◌∷◌,
  ◌++◌, map, Outcome, ok, err, ◌>>=◌, Eq, ◌==◌, eqb, leb, ltb, length, drop, has, if◌then◌else◌,
  maybe,
}

-- What `$A` is given: nothing, a collection with a method `toArray`, or something with indices.
pub data Iterable {ℓ} (A : Type ℓ) : Type ℓ where
  nothing : Iterable A
  collection : List A → Iterable A
  indexed : List A → Iterable A

-- `while (length--) results[length] = iterable[length]`: the elements from the last one down.
copy_loop {ℓ} : {A : Type ℓ} → List A → List A → List A
copy_loop [] results = results
copy_loop (x ∷ xs) results = copy_loop xs (x ∷ results)

unfoldable pub array_from {ℓ} : {A : Type ℓ} → Iterable A → List A
unfolding copy_loop
array_from nothing = []
array_from (collection xs) = xs
array_from (indexed xs) = copy_loop (reverse xs) []

module _ {ℓ} {A : Type ℓ} where
  unfoldable pub first : List A → Option A
  first [] = none
  first (x ∷ xs) = some x

  unfoldable pub last : List A → Option A
  last [] = none
  last (x ∷ []) = some x
  last (x ∷ (y ∷ xs)) = last (y ∷ xs)

  -- `value != null`, where `none` is `null` or `undefined`.
  unfoldable pub compact : List (Option A) → List (Option A)
  compact [] = []
  compact (none ∷ xs) = compact xs
  compact (some x ∷ xs) = some x ∷ compact xs

  -- A copy is reversed, or the array itself.
  unfoldable pub reverse_array : Bool → List A → List A × List A
  reverse_array inline xs = if inline then (reverse xs, reverse xs) else (xs, reverse xs)

module _ {ℓ} {A : Type ℓ} ⦃e : Eq A⦄ where
  unfoldable pub without : List A → List A → List A
  without values [] = []
  without values (x ∷ xs) = if not (has x values) then x ∷ without values xs else without values xs

  -- `array.last() != value`.
  abbrev last_differs : List A → A → Bool
  last_differs array value = maybe (last array) true (λ x. not (x == value))

  -- The function that `uniq` passes to `inject`, for the values from `index` on.
  pub uniq_loop : Bool → ℕ → List A → List A → List A
  unfolding last
  uniq_loop sorted index array [] = array
  uniq_loop sorted index array (value ∷ xs) =
      let fresh = if sorted then last_differs array value else not (has value array) in
      uniq_loop sorted (index + 1) (if eqb 0 index || fresh then array ++ value ∷ [] else array) xs

  unfoldable pub uniq : Bool → List A → List A
  unfolding uniq_loop
  uniq sorted xs = uniq_loop sorted 0 [] xs

  -- `findAll(item => array.indexOf(item) !== -1)`.
  pub keep_in : List A → List A → List A
  keep_in array [] = []
  keep_in array (x ∷ xs) = if has x array then x ∷ keep_in array xs else keep_in array xs

  unfoldable pub intersect : List A → List A → List A
  unfolding uniq keep_in
  intersect xs array = keep_in array (uniq false xs)

-- The second argument of `indexOf` and `lastIndexOf`: an offset from the front or from the end.
pub data Offset : Type 0 where
  front : ℕ → Offset
  back : ℕ → Offset

abbrev pub start_up : Offset → ℕ → ℕ
start_up (front i) n = i
start_up (back i) n = n - i

module _ {ℓ} {A : Type ℓ} ⦃e : Eq A⦄ where
  -- `for (; k < length; k++)`, on the elements from `k` on.
  pub search_up : A → ℕ → List (Option A) → Option ℕ
  search_up item k [] = none
  search_up item k (x ∷ xs) =
      let rest = search_up item (k + 1) xs in
      if maybe x false (λ v. v == item) then some k else rest

  unfoldable pub index_of : A → Offset → List (Option A) → Option ℕ
  unfolding search_up
  index_of item i array =
      let k = start_up i (length array) in
      if ltb (length array) k then none else search_up item k (drop k array)

-- A nested array, with its list of elements.
mutual
  pub data Nested (A : Type 0) : Type 0 where
    leaf : A → Nested A
    array : Elements A → Nested A

  pub data Elements (A : Type 0) : Type 0 where
    nil : Elements A
    cons : Nested A → Elements A → Elements A

-- `flatten`, with what `inject` has gathered.
unfoldable mutual
  pub flatten_one : {A : Type 0} → Nested A → List A → List A
  flatten_one (leaf a) acc = acc ++ a ∷ []
  flatten_one (array xs) acc = acc ++ flatten_loop xs []

  pub flatten_loop : {A : Type 0} → Elements A → List A → List A
  flatten_loop nil acc = acc
  flatten_loop (cons x xs) acc = flatten_loop xs (flatten_one x acc)
