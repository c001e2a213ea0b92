-- ===== src/Proto/Enumerable.antt =====
-- The mixin `Enumerable` of docs/skin/prototype.js. A collection is the list of the values that its
-- `_each` passes to the iterator; an iterator is a function of a value and its index that returns
-- or throws, `$break` or something else. What a method keeps in a local variable is the state of the
-- loop, and `$break` that reaches `each` is the signal `halt`.
pub mod Laws
pub mod Groups
pub mod Extrema
use sd.Common.{
  ℕ, zero, suc, ◌+◌, Bool, true, false, not, ◌&&◌, Option, none, some, List, [], ◌∷◌, ◌++◌, map,
  Outcome, ok, err, ◌>>=◌, Eq, ◌==◌, ltb, leb, length, take, drop, get_elem?, if◌then◌else◌,
}

-- How one call of the function that a method passes to `each` ends.
pub data Signal {ℓ κ} (E : Type ℓ) (S : Type κ) : Type (ℓ ⊔ κ) where
  next : S → Signal E S
  halt : S → Signal E S
  thrown : E → Signal E S

-- What an iterator throws.
pub data Exception {ℓ} (E : Type ℓ) : Type ℓ where
  break_thrown : Exception E
  error_thrown : E → Exception E

-- A call of the iterator inside such a function, where the local variable is `s`: what it throws is
-- thrown on, so that `$break` ends the loop with the variable as it is.
abbrev pub call {ℓ κ μ} :
    {E : Type ℓ} {B : Type κ} {S : Type μ}
    → S
    → Outcome (Exception E) B
    → (B → Signal E S)
    → Signal E S
call s (ok b) k = k b
call s (err break_thrown) k = halt s
call s (err (error_thrown e)) k = thrown e

-- An iterator that does not throw `$break`.
abbrev pub plain_result {ℓ κ} : {E : Type ℓ} {B : Type κ} → Outcome E B → Outcome (Exception E) B
plain_result (ok b) = ok b
plain_result (err e) = err (error_thrown e)

abbrev pub plain {ℓ κ μ} :
    {E : Type ℓ} {A : Type κ} {B : Type μ} → (A → ℕ → Outcome E B) → A → ℕ → Outcome (Exception E) B
plain it v i = plain_result (it v i)

-- The rest of a loop runs only after a plain return.
abbrev pub proceed {ℓ κ} : {E : Type ℓ} {S : Type κ} → Signal E S → (S → Signal E S) → Signal E S
proceed (next s) k = k s
proceed (halt s) k = halt s
proceed (thrown e) k = thrown e

-- `Prototype.K`, the iterator when none is given.
abbrev pub k_iterator {ℓ κ} : {E : Type ℓ} {A : Type κ} → A → ℕ → Outcome E A
k_iterator x i = ok x

-- `each` catches `$break`, and throws anything else on.
abbrev pub settle {ℓ κ} : {E : Type ℓ} {S : Type κ} → Signal E S → Outcome E S
settle (next s) = ok s
settle (halt s) = ok s
settle (thrown e) = err e

module _ {ℓ κ μ} {E : Type ℓ} {A : Type κ} {S : Type μ} where
  -- `_each`, from index `i` on.
  pub iterate : (A → ℕ → S → Signal E S) → ℕ → List A → S → Signal E S
  iterate body i [] s = next s
  iterate body i (x ∷ xs) s = proceed (body x i s) (λ t. iterate body (i + 1) xs t)

  unfoldable pub each : (A → ℕ → S → Signal E S) → List A → S → Outcome E S
  unfolding iterate
  each body xs s = settle (iterate body 0 xs s)

-- The functions that the methods pass to `each`. `truthy` is the conversion of a result by `!!`.
module _ {ℓ κ μ} {E : Type ℓ} {A : Type κ} {B : Type μ} where
  abbrev pub all_body :
      (B → Bool) → (A → ℕ → Outcome (Exception E) B) → A → ℕ → Bool → Signal E Bool
  all_body truthy it v i result =
      call result (it v i) λ b. let r = result && truthy b in if not r then halt r else next r

  abbrev pub any_body :
      (B → Bool) → (A → ℕ → Outcome (Exception E) B) → A → ℕ → Bool → Signal E Bool
  any_body truthy it v i result =
      call result (it v i) λ b. let r = truthy b in if r then halt r else next r

  abbrev pub collect_body : (A → ℕ → Outcome (Exception E) B) → A → ℕ → List B → Signal E (List B)
  collect_body it v i results = call results (it v i) λ b. next (results ++ b ∷ [])

  abbrev pub detect_body :
      (B → Bool) → (A → ℕ → Outcome (Exception E) B) → A → ℕ → Option A → Signal E (Option A)
  detect_body truthy it v i result =
      call result (it v i) λ b. if truthy b then halt (some v) else next result

  abbrev pub find_all_body :
      (B → Bool) → (A → ℕ → Outcome (Exception E) B) → A → ℕ → List A → Signal E (List A)
  find_all_body truthy it v i results =
      call results (it v i) λ b. if truthy b then next (results ++ v ∷ []) else next results

  abbrev pub grep_body :
      (A → Bool) → (A → ℕ → Outcome (Exception E) B) → A → ℕ → List B → Signal E (List B)
  grep_body matches it v i results =
      if matches v then (call results (it v i) λ b. next (results ++ b ∷ [])) else next results

  abbrev pub reject_body :
      (B → Bool) → (A → ℕ → Outcome (Exception E) B) → A → ℕ → List A → Signal E (List A)
  reject_body truthy it v i results =
      call results (it v i) λ b. if not (truthy b) then next (results ++ v ∷ []) else next results

  abbrev pub partition_body :
      (B → Bool)
      → (A → ℕ → Outcome (Exception E) B)
      → A
      → ℕ
      → List A × List A
      → Signal E (List A × List A)
  partition_body truthy it v i (trues, falses) =
      call (trues, falses) (it v i)
        λ b. next (if truthy b then (trues ++ v ∷ [], falses) else (trues, falses ++ v ∷ []))

module _ {ℓ κ μ} {E : Type ℓ} {A : Type κ} {B : Type μ} where
  unfoldable pub all : (B → Bool) → (A → ℕ → Outcome (Exception E) B) → List A → Outcome E Bool
  unfolding each
  all truthy it xs = each (all_body truthy it) xs true

  unfoldable pub any : (B → Bool) → (A → ℕ → Outcome (Exception E) B) → List A → Outcome E Bool
  unfolding each
  any truthy it xs = each (any_body truthy it) xs false

  unfoldable pub collect : (A → ℕ → Outcome (Exception E) B) → List A → Outcome E (List B)
  unfolding each
  collect it xs = each (collect_body it) xs []

  unfoldable pub detect :
      (B → Bool) → (A → ℕ → Outcome (Exception E) B) → List A → Outcome E (Option A)
  unfolding each
  detect truthy it xs = each (detect_body truthy it) xs none

  unfoldable pub find_all :
      (B → Bool) → (A → ℕ → Outcome (Exception E) B) → List A → Outcome E (List A)
  unfolding each
  find_all truthy it xs = each (find_all_body truthy it) xs []

  unfoldable pub reject :
      (B → Bool) → (A → ℕ → Outcome (Exception E) B) → List A → Outcome E (List A)
  unfolding each
  reject truthy it xs = each (reject_body truthy it) xs []

  unfoldable pub partition :
      (B → Bool) → (A → ℕ → Outcome (Exception E) B) → List A → Outcome E (List A × List A)
  unfolding each
  partition truthy it xs = each (partition_body truthy it) xs ([], [])

  -- `filter.match(value)` is the test `matches`, of a regular expression or of an object.
  unfoldable pub grep : (A → Bool) → (A → ℕ → Outcome (Exception E) B) → List A → Outcome E (List B)
  unfolding each
  grep matches it xs = each (grep_body matches it) xs []

  unfoldable pub inject : B → (B → A → ℕ → Outcome (Exception E) B) → List A → Outcome E B
  unfolding each
  inject memo it xs = each (λ v i m. call m (it m v i) (λ m'. next m')) xs memo

  -- `value[method].apply(value, args)`, for the method and the arguments at hand.
  unfoldable pub invoke : (A → Outcome (Exception E) B) → List A → Outcome E (List B)
  unfolding collect
  invoke method xs = collect (λ v i. method v) xs

  -- `value[property]`.
  unfoldable pub pluck : (A → B) → List A → Outcome E (List B)
  unfolding each
  pluck property xs = each (λ v i rs. next (rs ++ property v ∷ [])) xs []

module _ {ℓ κ} {E : Type ℓ} {A : Type κ} where
  unfoldable pub to_array : List A → Outcome E (List A)
  unfolding collect
  to_array xs = collect k_iterator xs

  unfoldable pub size : List A → Outcome E ℕ
  unfolding to_array
  size xs = to_array xs >>= λ ys. ok (length ys)

-- The updates of `result` in `max` and `min`, where `none` is `undefined`.
abbrev pub larger : ℕ → Option ℕ → Option ℕ
larger n none = some n
larger n (some m) = if leb m n then some n else some m

abbrev pub smaller : ℕ → Option ℕ → Option ℕ
smaller n none = some n
smaller n (some m) = if ltb n m then some n else some m

-- The `==` of `include` is that of the values' type.
abbrev pub include_body {ℓ κ} :
    {E : Type ℓ} {A : Type κ} ⦃e : Eq A⦄ → A → A → ℕ → Bool → Signal E Bool
include_body object v i found = if v == object then halt true else next found

module _ {ℓ κ} {E : Type ℓ} {A : Type κ} where
  -- The iterator computes numbers.
  unfoldable pub max : (A → ℕ → Outcome (Exception E) ℕ) → List A → Outcome E (Option ℕ)
  unfolding each
  max it xs = each (λ v i r. call r (it v i) (λ n. next (larger n r))) xs none

  unfoldable pub min : (A → ℕ → Outcome (Exception E) ℕ) → List A → Outcome E (Option ℕ)
  unfolding each
  min it xs = each (λ v i r. call r (it v i) (λ n. next (smaller n r))) xs none

  -- `include` of a collection with no method `indexOf`.
  unfoldable pub include : ⦃e : Eq A⦄ → A → List A → Outcome E Bool
  unfolding each
  include object xs = each (include_body object) xs false

-- The loop of `eachSlice`, from `index` on: at most `fuel` slices.
slice_loop {ℓ} : {A : Type ℓ} → ℕ → ℕ → ℕ → List A → List (List A)
slice_loop zero number index array = []
slice_loop (suc f) number index array =
    let rest = slice_loop f number (index + number) array in
    if ltb index (length array) then take number (drop index array) ∷ rest else []

-- A number below 1 gives the array itself, and no slices.
pub data Sliced {ℓ κ} (A : Type ℓ) (B : Type κ) : Type (ℓ ⊔ κ) where
  whole : List A → Sliced A B
  slices : List B → Sliced A B

module _ {ℓ κ μ} {E : Type ℓ} {A : Type κ} {B : Type μ} where
  unfoldable pub each_slice :
      ℕ → (List A → ℕ → Outcome (Exception E) B) → List A → Outcome E (Sliced A B)
  unfolding to_array collect slice_loop
  each_slice number it xs = to_array xs >>= λ array.
      if ltb number 1
      then ok (whole array)
      else collect it (slice_loop (length array) number 0 array) >>= λ rs. ok (slices rs)

-- `while (slice.length < number) slice.push(fillWith)`.
pad_loop {ℓ} : {A : Type ℓ} → ℕ → ℕ → A → List A → List A
pad_loop zero number fill slice = slice
pad_loop (suc f) number fill slice =
    let rest = pad_loop f number fill (slice ++ fill ∷ []) in
    if ltb (length slice) number then rest else slice

module _ {ℓ κ} {E : Type ℓ} {A : Type κ} where
  unfoldable pub in_groups_of : ℕ → A → List A → Outcome E (Sliced A (List A))
  unfolding each_slice pad_loop
  in_groups_of number fill xs =
      each_slice number (λ slice i. ok (pad_loop number number fill slice)) xs

  -- `zip`, on the arrays of the other collections: a row for each value of the first one, with
  -- `undefined` where a collection is shorter.
  unfoldable pub zip {μ} :
      {B : Type μ}
      → (List (Option A) → Outcome (Exception E) B)
      → List (List A)
      → List A
      → Outcome E (List B)
  unfolding collect
  zip it others xs = collect (λ v i. it (map (λ c. get_elem? c i) (xs ∷ others))) xs
