-- ===== src/Proto/Arrays/Search.antt =====
-- `lastIndexOf`, `concat` and `clear` of docs/skin/prototype.js. A hole is `none`.
use sd.Common.{
  ℕ, zero, suc, ◌-◌, ◌<◌, ◌≤◌, ◌≡◌, ap, sym, ◌∙◌, Bool, true, false, Option, none, some, List, [],
  ◌∷◌, ◌++◌, append-nil, append_assoc, Eq, ◌==◌, eqb, leb, length, get_elem?, if◌then◌else◌, maybe,
  inl, inr, Bool-cases, if_true, if_false, arith, text_eq, min,
}
use sd.Proto.Arrays.{Offset, front, back}

-- Where `lastIndexOf` starts: at the end, at an index from the front, or at one from the end, which
-- is not 0 and may be too far; `none` is below 0.
abbrev pub start_down : Option Offset → ℕ → Option ℕ
start_down none n = some (min n (n - 1))
start_down (some (front i)) n = some (min i (n - 1))
start_down (some (back i)) n = if leb i n then some (n - i) else none

some_injective : (i j : ℕ) → some i ≡ some j → i ≡ j
some_injective i j q = cc

module _ {ℓ} {A : Type ℓ} ⦃e : Eq A⦄ where
  -- `k in array && array[k] === item`.
  abbrev pub is_at : A → List (Option A) → ℕ → Bool
  is_at item array k = maybe (get_elem? array k) false λ x. maybe x false λ v. v == item

  -- `for (; k >= 0; k--)`.
  pub search_down : A → List (Option A) → ℕ → Option ℕ
  search_down item array zero = if is_at item array 0 then some 0 else none
  search_down item array (suc k) =
      let rest = search_down item array k in if is_at item array (suc k) then some (suc k) else rest

  unfoldable pub last_index_of : A → Option Offset → List (Option A) → Option ℕ
  unfolding search_down
  last_index_of item i array =
      if eqb (length array) 0
      then none
      else maybe (start_down i (length array)) none (search_down item array)

  search_down-last :
      (item : A) (array : List (Option A)) (k i j : ℕ)
      → search_down item array k ≡ some j
      → j < i
      → i ≤ k
      → (is_at item array j ≡ true) × (is_at item array i ≡ false)
  unfolding search_down
  search_down-last item array zero i j q lt le = absurd (omega arith)
  search_down-last item array (suc k) i j q lt le = elim (Bool-cases (is_at item array (suc k))) [
    | inl t ↦ absurd (let s = some_injective (suc k) j (sym (if_true _ _ t) ∙ q) in omega arith)
    | inr t ↦ elim (Bool-cases (eqb i (suc k))) [
      | inl u ↦
          let s : suc k ≡ i = ground arith in
          (found item array k j (sym (if_false _ _ t) ∙ q), ap (is_at item array) (sym s) ∙ t)
      | inr u ↦ search_down-last item array k i j (sym (if_false _ _ t) ∙ q) lt (ground arith)
    ]
  ]
    where
      found :
          (item : A) (array : List (Option A)) (k j : ℕ)
          → search_down item array k ≡ some j
          → is_at item array j ≡ true
      found item array zero j q = elim (Bool-cases (is_at item array 0)) [
        | inl t ↦ ap (is_at item array) (sym (some_injective 0 j (sym (if_true _ _ t) ∙ q))) ∙ t
        | inr t ↦ absurd (let z = sym (if_false _ _ t) ∙ q in cc)
      ]
      found item array (suc k) j q = elim (Bool-cases (is_at item array (suc k))) [
        | inl t ↦
            ap (is_at item array) (sym (some_injective (suc k) j (sym (if_true _ _ t) ∙ q))) ∙ t
        | inr t ↦ found item array k j (sym (if_false _ _ t) ∙ q)
      ]

  -- Without an offset, `lastIndexOf` gives an index of the item, and no later index of the array is
  -- one.
  pub last_index_of_lem :
      (item : A) (array : List (Option A)) (i j : ℕ)
      → last_index_of item none array ≡ some j
      → j < i
      → i < length array
      → (is_at item array j ≡ true) × (is_at item array i ≡ false)
  unfolding last_index_of
  last_index_of_lem item array i j q lt le =
      let z : eqb (length array) 0 ≡ false = ground arith in
      search_down-last item array (min (length array) (length array - 1)) i j
        (sym (if_false _ _ z) ∙ q) lt (omega arith)

-- An argument of `concat`: an array, or another value.
pub data Item {ℓ} (A : Type ℓ) : Type ℓ where
  array_item : List (Option A) → Item A
  value_item : A → Item A

module _ {ℓ} {A : Type ℓ} where
  -- The loop over one array; `n` is the length of what there is.
  pub copy_items : List (Option A) → List (Option A) → List (Option A)
  copy_items array [] = array
  copy_items array (x ∷ item) = copy_items (array ++ x ∷ []) item

  pub concat_loop : List (Option A) → List (Item A) → List (Option A)
  unfolding copy_items
  concat_loop array [] = array
  concat_loop array (array_item item ∷ items) = concat_loop (copy_items array item) items
  concat_loop array (value_item v ∷ items) = concat_loop (array ++ some v ∷ []) items

  unfoldable pub concat : List (Option A) → List (Item A) → List (Option A)
  unfolding concat_loop
  concat self items = concat_loop [] (array_item self ∷ items)

  unfoldable pub clear : List (Option A) → List (Option A)
  clear self = []

  -- The elements of an argument.
  abbrev elements : List (Item A) → List (Option A)
  elements [] = []
  elements (array_item item ∷ items) = item ++ elements items
  elements (value_item v ∷ items) = some v ∷ elements items

  copy_items-append : (array item : List (Option A)) → copy_items array item ≡ array ++ item
  unfolding copy_items
  copy_items-append array [] = sym (append-nil array)
  copy_items-append array (x ∷ item) =
      copy_items-append (array ++ x ∷ []) item ∙ append_assoc array (x ∷ []) item

  concat_loop-elements :
      (array : List (Option A)) (items : List (Item A))
      → concat_loop array items ≡ array ++ elements items
  unfolding concat_loop
  concat_loop-elements array [] = sym (append-nil array)
  concat_loop-elements array (array_item item ∷ items) =
      concat_loop-elements (copy_items array item) items
      ∙ ap (λ l. l ++ elements items) (copy_items-append array item)
      ∙ append_assoc array item (elements items)
  concat_loop-elements array (value_item v ∷ items) =
      concat_loop-elements (array ++ some v ∷ []) items
      ∙ append_assoc array (some v ∷ []) (elements items)

  -- `concat` appends the elements of the arrays among its arguments, holes included, and the other
  -- arguments themselves.
  pub concat_lem :
      (self : List (Option A)) (items : List (Item A)) → concat self items ≡ self ++ elements items
  unfolding concat
  concat_lem self items = concat_loop-elements [] (array_item self ∷ items)
