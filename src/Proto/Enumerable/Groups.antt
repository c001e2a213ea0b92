-- ===== src/Proto/Enumerable/Groups.antt =====
-- `eachSlice`, `inGroupsOf` and `zip`: the slices cover the array, the groups are full, and a row
-- of a zip holds the elements of one index.
use Prim.Native.Nat.add
use mathlib.Core.List.{flatten}
use sd.Common.{
  ℕ, zero, suc, ◌+◌, ◌-◌, ◌≤◌, ◌<◌, ◌≡◌, refl, sym, ap, ◌∙◌, false, List, [], ◌∷◌, ◌++◌, map, min,
  Option, some, ok, arith, append-nil, append_assoc, Bool-cases, inl, inr, length, take, drop,
  replicate, get_elem?, All, length-append, length-take, length-drop, length-replicate,
  take-append-drop, ltb, leb,
}
use sd.Proto.Enumerable.Laws.{traverse, collect_lem}
use sd.Proto.Enumerable.{
  slices, to_array, collect, slice_loop, each_slice, pad_loop, in_groups_of, zip,
}

-- The values with their indices, mapped.
abbrev pub map_from {κ μ} : {A : Type κ} {B : Type μ} → (A → ℕ → B) → ℕ → List A → List B
map_from f i [] = []
map_from f i (x ∷ xs) = f x i ∷ map_from f (i + 1) xs

module _ {ℓ κ μ} {E : Type ℓ} {A : Type κ} {B : Type μ} (f : A → ℕ → B) where
  pub traverse-ok :
      (xs : List A) (i : ℕ) → traverse {E = E} (λ v k. ok (f v k)) i xs ≡ ok (map_from f i xs)
  traverse-ok [] i = refl
  traverse-ok (x ∷ xs) i = simp (traverse-ok xs (i + 1))

  pub collect-ok : (xs : List A) → collect {E = E} (λ v k. ok (f v k)) xs ≡ ok (map_from f 0 xs)
  collect-ok xs = collect_lem (λ v k. ok (f v k)) xs ∙ traverse-ok xs 0

module _ {ℓ} {A : Type ℓ} where
  map_from_self : (xs : List A) (i : ℕ) → map_from (λ x k. x) i xs ≡ xs
  map_from_self [] i = refl
  map_from_self (x ∷ xs) i = ap (x ∷◌) (map_from_self xs (i + 1))

  drop-length : (n : ℕ) (xs : List A) → length xs ≤ n → drop n xs ≡ []
  drop-length zero [] h = refl
  drop-length zero (x ∷ xs) h = absurd (omega arith)
  drop-length (suc n) [] h = refl
  drop-length (suc n) (x ∷ xs) h = drop-length n xs (omega arith)

  drop-nil : (n : ℕ) → drop {A = A} n [] ≡ []
  drop-nil zero = refl
  drop-nil (suc n) = refl

  drop-add : (n m : ℕ) (xs : List A) → drop m (drop n xs) ≡ drop (n + m) xs
  drop-add zero m xs = rw (add.zero m)
  drop-add (suc n) m [] = rw (drop-nil, drop-nil)
  drop-add (suc n) m (x ∷ xs) = rw (add.suc n m) (drop-add n m xs)

  pub to_array_lem {κ} : {E : Type κ} (xs : List A) → to_array {E = E} xs ≡ ok xs
  unfolding to_array
  to_array_lem xs = collect-ok (λ x k. x) xs ∙ ap ok (map_from_self xs 0)

  take-drop-append :
      (number index : ℕ) (xs : List A)
      → take number (drop index xs) ++ drop (index + number) xs ≡ drop index xs
  take-drop-append number index xs = rw (← drop-add) (take-append-drop number (drop index xs))

  -- With enough fuel the slices from `index` on make up the rest of the array.
  flatten-slice_loop :
      (f number index : ℕ) (xs : List A)
      → 0 < number
      → length xs ≤ index + f
      → flatten (slice_loop f number index xs) ≡ drop index xs
  unfolding slice_loop flatten
  flatten-slice_loop zero number index xs h p = sym (drop-length index xs (omega arith))
  flatten-slice_loop (suc f) number index xs h p = elim (Bool-cases (ltb index (length xs))) [
    | inl t ↦
        rw (t, slice_loop)
          (rw (flatten-slice_loop f number (index + number) xs h (omega arith))
            (take-drop-append number index xs))
    | inr t ↦ rw t (sym (drop-length index xs (ground arith)))
  ]

  -- What `inGroupsOf` makes of a slice.
  abbrev padded : ℕ → A → List A → List A
  padded number fill slice = slice ++ replicate (number - length slice) fill

  padded-full :
      (number : ℕ) (fill : A) (slice : List A)
      → number ≤ length slice
      → padded number fill slice ≡ slice
  padded-full number fill slice h =
      let e : number - length slice ≡ 0 = omega arith in rw (e, append-nil)

  padded-push :
      (number : ℕ) (fill : A) (slice : List A)
      → length slice < number
      → padded number fill (slice ++ fill ∷ []) ≡ padded number fill slice
  padded-push number fill slice h =
      let e : number - length slice ≡ suc (number - length (slice ++ fill ∷ [])) =
        omega (arith, length-append slice (fill ∷ [])) in
      rw (e, append_assoc)

  length-padded :
      (number : ℕ) (fill : A) (slice : List A)
      → length slice ≤ number
      → length (padded number fill slice) ≡ number
  length-padded number fill slice h = omega (
    arith,
    length-append slice (replicate (number - length slice) fill),
    length-replicate (number - length slice) fill,
  )

  pad_loop-padded :
      (f number : ℕ) (fill : A) (slice : List A)
      → number ≤ length slice + f
      → pad_loop f number fill slice ≡ padded number fill slice
  unfolding pad_loop
  pad_loop-padded zero number fill slice h = sym (padded-full number fill slice (omega arith))
  pad_loop-padded (suc f) number fill slice h = elim (Bool-cases (ltb (length slice) number)) [
    | inl t ↦ simp t (
        pad_loop-padded f number fill (slice ++ fill ∷ [])
          (omega (arith, length-append slice (fill ∷ [])))
        ∙ padded-push number fill slice (ground arith))
    | inr t ↦ simp t (sym (padded-full number fill slice (ground arith)))
  ]

  -- The groups from `index` on are full, and hold the rest of the array and then fewer than
  -- `number` fillings.
  pub record Full (number : ℕ) (fill : A) (rest : List A) (groups : List (List A)) : Type ℓ where
    pub each_full : All (λ g. length g ≡ number) groups
    pub spare : ℕ
    pub covers : flatten groups ≡ rest ++ replicate spare fill
    pub spare_lt : spare < number

  slice_loop-end :
      (f number index : ℕ) (xs : List A) → length xs ≤ index → slice_loop f number index xs ≡ []
  unfolding slice_loop
  slice_loop-end zero number index xs h = refl
  slice_loop-end (suc f) number index xs h =
      let t : ltb index (length xs) ≡ false = ground arith in simp t

  Full-nil :
      (number index : ℕ) (fill : A) (xs : List A)
      → 0 < number
      → length xs ≤ index
      → Full number fill (drop index xs) []
  unfolding flatten
  Full-nil number index fill xs h p = record {
    each_full = tt;
    spare = 0;
    covers = rw (drop-length index xs p) refl;
    spare_lt = h;
  }

  length-slice :
      (number index : ℕ) (xs : List A)
      → length (take number (drop index xs)) ≡ min number (length xs - index)
  length-slice number index xs =
      omega (arith, length-take number (drop index xs), length-drop index xs)

  -- A whole slice in front.
  Full-cons :
      (number index : ℕ) (fill : A) (xs : List A) (gs : List (List A))
      → index + number ≤ length xs
      → Full number fill (drop (index + number) xs) gs
      → Full number fill (drop index xs) (padded number fill (take number (drop index xs)) ∷ gs)
  unfolding flatten
  Full-cons number index fill xs gs h g = record {
    each_full =
        (length-padded number fill _ (omega (arith, length-slice number index xs)), g.each_full);
    spare = g.spare;
    covers =
        rw
          (
            padded-full number fill (take number (drop index xs))
                (omega (arith, length-slice number index xs)),
            g.covers,
          )
          (rw (← append_assoc, take-drop-append number index xs));
    spare_lt = g.spare_lt;
  }

  -- The last slice, with its fillings.
  Full-last :
      (number index : ℕ) (fill : A) (xs : List A)
      → index < length xs
      → length xs < index + number
      → Full number fill (drop index xs) (padded number fill (take number (drop index xs)) ∷ [])
  unfolding flatten
  Full-last number index fill xs h p = record {
    each_full = (length-padded number fill _ (omega (arith, length-slice number index xs)), tt);
    spare = number - length (take number (drop index xs));
    covers = rw append-nil (
        ap (◌++ replicate (number - length (take number (drop index xs))) fill) (
          sym (append-nil _)
          ∙ ap (take number (drop index xs) ++◌)
              (sym (drop-length (index + number) xs (omega arith)))
          ∙ take-drop-append number index xs));
    spare_lt = omega (arith, length-slice number index xs);
  }

  -- What `eachSlice` passes to its iterator, for an array: slices that are not empty.
  All-slices :
      (f number index : ℕ) (xs : List A)
      → 0 < number
      → All (λ s. (0 < length s) × (length s ≤ number)) (slice_loop f number index xs)
  unfolding slice_loop
  All-slices zero number index xs h = tt
  All-slices (suc f) number index xs h = elim (Bool-cases (ltb index (length xs))) [
    | inl t ↦ simp t (
      (ground (arith, length-slice number index xs), ground (arith, length-slice number index xs)),
      All-slices f number (index + number) xs h,
    )
    | inr t ↦ simp t tt
  ]

  groups : ℕ → ℕ → A → ℕ → List A → List (List A)
  groups f number fill index xs = map (padded number fill) (slice_loop f number index xs)

  Full-groups :
      (f number index : ℕ) (fill : A) (xs : List A)
      → 0 < number
      → length xs ≤ index + f
      → Full number fill (drop index xs) (groups f number fill index xs)
  unfolding groups slice_loop
  Full-groups zero number index fill xs h p = Full-nil number index fill xs h (omega arith)
  Full-groups (suc f) number index fill xs h p = elim (Bool-cases (ltb index (length xs))) [
    | inl t ↦ elim (Bool-cases (leb (index + number) (length xs))) [
      | inl u ↦ simp t (
          Full-cons number index fill xs _ (ground arith)
            (Full-groups f number (index + number) fill xs h (omega arith)))
      | inr u ↦
          simp (t, slice_loop-end f number (index + number) xs (ground arith))
            (Full-last number index fill xs (ground arith) (ground arith))
    ]
    | inr t ↦ simp t (Full-nil number index fill xs h (ground arith))
  ]

  map_from-map {κ} :
      {B : Type κ} (g : A → B) (xs : List A) (i : ℕ) → map_from (λ x k. g x) i xs ≡ map g xs
  map_from-map g [] i = refl
  map_from-map g (x ∷ xs) i = ap (g x ∷◌) (map_from-map g xs (i + 1))

  get_elem?-map_from {κ} :
      {B : Type κ} (f : A → ℕ → B) (xs : List A) (start i : ℕ) {x : A}
      → get_elem? xs i ≡ some x
      → get_elem? (map_from f start xs) i ≡ some (f x (start + i))
  get_elem?-map_from f [] start i h = cc
  get_elem?-map_from f (x ∷ xs) start zero h = let e : start + 0 ≡ start = omega arith in rw e (cc)
  get_elem?-map_from f (x ∷ xs) start (suc i) h =
      let e : start + suc i ≡ start + 1 + i = omega arith in
      rw e (get_elem?-map_from f xs (start + 1) i h)

module _ {ℓ κ μ} {E : Type ℓ} {A : Type κ} {B : Type μ} where
  -- With a number of at least 1, `eachSlice` runs an iterator that returns on slices that are not
  -- empty, hold at most `number` values and make up the array, and gives its results.
  pub each_slice-covers :
      (number : ℕ) (f : List A → ℕ → B) (xs : List A)
      → 0 < number
      → (ss : List (List A)) × (each_slice {E = E} number (λ s i. ok (f s i)) xs
          ≡ ok (slices (map_from f 0 ss)))
        × (flatten ss ≡ xs)
        × All (λ s. (0 < length s) × (length s ≤ number)) ss
  unfolding each_slice
  each_slice-covers number f xs h = (
    slice_loop (length xs) number 0 xs,
    simp (to_array_lem, not_below, collect-ok),
    flatten-slice_loop (length xs) number 0 xs h (omega arith),
    All-slices (length xs) number 0 xs h,
  )
    where
      not_below : ltb number 1 ≡ false
      not_below = ground arith

module _ {ℓ κ} {E : Type ℓ} {A : Type κ} where
  -- With a number of at least 1, the groups of `inGroupsOf` have just that many values, and hold
  -- the array and then fewer than `number` fillings.
  pub in_groups_of-Full :
      (number : ℕ) (fill : A) (xs : List A)
      → 0 < number
      → (gs : List (List A)) × (in_groups_of {E = E} number fill xs ≡ ok (slices gs))
        × Full number fill xs gs
  unfolding in_groups_of each_slice groups
  in_groups_of-Full number fill xs h = (
    groups (length xs) number fill 0 xs,
    simp (to_array_lem, not_below, collect-ok, pads, map_from-map) refl,
    Full-groups (length xs) number 0 fill xs h (omega arith),
  )
    where
      not_below : ltb number 1 ≡ false
      not_below = ground arith

      pads : (s : List A) → pad_loop number number fill s ≡ padded number fill s
      pads s = pad_loop-padded number number fill s (omega arith)

  -- Without an iterator, row `i` of `zip` holds the elements of index `i`, and `undefined` for a
  -- collection that is shorter; there is a row for each value of the first collection.
  pub zip-rows :
      (others : List (List A)) (xs : List A)
      → (rows : List (List (Option A))) × (zip {E = E} (λ row. ok row) others xs ≡ ok rows)
        × ((i : ℕ) (x : A)
            → get_elem? xs i ≡ some x
            → get_elem? rows i ≡ some (some x ∷ map (λ c. get_elem? c i) others))
  unfolding zip
  zip-rows others xs = (
    map_from (λ v i. map (λ c. get_elem? c i) (xs ∷ others)) 0 xs,
    collect-ok _ xs,
    λ i x h. row i x h,
  )
    where
      row :
          (i : ℕ) (x : A)
          → get_elem? xs i ≡ some x
          → get_elem? (map_from (λ v k. map (λ c. get_elem? c k) (xs ∷ others)) 0 xs) i
            ≡ some (some x ∷ map (λ c. get_elem? c i) others)
      row i x h =
          get_elem?-map_from (λ v k. map (λ c. get_elem? c k) (xs ∷ others)) xs 0 i h
          ∙ ap (λ k. some (map (λ c. get_elem? c k) (xs ∷ others))) (omega arith)
          ∙ ap (λ o. some (o ∷ map (λ c. get_elem? c i) others)) h
