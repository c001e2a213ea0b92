-- ===== src/Store/Chain/Sent.antt =====
-- What the entries that a predecessor sends say about its map.
use sd.Common.{
  ℕ, zero, suc, ◌≡◌, refl, ap, sym, ◌∙◌, true, false, Option, none, some, List, [], ◌∷◌, ◌++◌, All,
  length, maybe, inl, inr, Bool-cases, ok, if_true, if_false, arith, if◌then◌else◌, ◌==◌, text_eq,
  eqb, leb, get_elem?,
}
use sd.Store.Keys.{Key, is_equal, strcmp, is_equal-equal}
use sd.Store.SortedList.{Data, Entry, Chain, data_create, find}
use sd.Store.SortedList.Map.{list_get-find}
use sd.Store.Table.{Table, table_get}
use sd.Store.Table.Rows.{hash_code-ascii}
use sd.Store.Table.Map.{row_list, table_get-row}
use sd.Store.Table.Entries.{all_nodes}
use sd.Store.Server.Session.{Ascii, FiniteMap, ok-injective}
use sd.Store.Chain.Merge.{Holds, Of, has_key}
use sd.Store.Chain.Joining.{copy_entries}

-- A key of none of the entries is not found.
find_missing : (j : Key) (es : List Entry) → has_key j es ≡ false → find j es ≡ none
unfolding find
find_missing j [] h = refl
find_missing j (e ∷ es) h = elim (Bool-cases (is_equal (strcmp j e.key))) [
  | inl t ↦
      let k : (e.key == j) ≡ true = (text_eq.beq_iff e.key j).1 (sym (is_equal-equal j e.key t)) in
      absurd (let z = simp k at h in cc)
  | inr t ↦
      if_false _ _ t
      ∙ find_missing j es (elim (Bool-cases (e.key == j)) [
        | inl u ↦ absurd (let z = simp u at h in cc)
        | inr u ↦ simp u at h
      ])
]

has_key-append :
    (j : Key) (es fs : List Entry)
    → has_key j (es ++ fs) ≡ false
    → (has_key j es ≡ false) × (has_key j fs ≡ false)
has_key-append j [] fs h = (refl, h)
has_key-append j (e ∷ es) fs h = elim (Bool-cases (e.key == j)) [
  | inl u ↦ absurd (let z = simp u at h in cc)
  | inr u ↦ let (a, b) = has_key-append j es fs (simp u at h) in (simp u a, b)
]

has_key-list :
    (j : Key) (i : ℕ) (ls : List Chain) {l : Chain}
    → has_key j (all_nodes ls) ≡ false
    → get_elem? ls i ≡ some l
    → has_key j l.nodes ≡ false
has_key-list j i [] h g = absurd (cc)
has_key-list j zero (k ∷ ls) {l} h g =
    let e : k ≡ l = cc in
    ap (λ (x : Chain). has_key j x.nodes) (sym e) ∙ (has_key-append j k.nodes (all_nodes ls) h).0
has_key-list j (suc i) (k ∷ ls) h g =
    has_key-list j i ls (has_key-append j k.nodes (all_nodes ls) h).1 g

-- The map has no key but those of the entries.
only_entries :
    (t : Table) (m : FiniteMap) (j : Key)
    → Holds t m
    → Ascii j
    → has_key j (all_nodes t.lists) ≡ false
    → m j ≡ none
only_entries t m j h a q =
    let row_of = hash_code-ascii j t.rows h.valid.some_rows a in
    let (l, g, w, x) = row_list t j _ h.valid row_of in
    ok-injective _ _ (
      sym (h.reads j a)
      ∙ table_get-row t j _ l h.valid row_of g w
      ∙ ap (λ (o : Option Entry). ok (maybe o none (λ y. some y.value)))
          (list_get-find j l w ∙ find_missing j l.nodes (has_key-list j _ t.lists q g)))

-- Each entry is the map's.
some_entry :
    (m : FiniteMap) (j : Key) (es : List Entry)
    → All (Of m) es
    → has_key j es ≡ true
    → (d : Data) × (m j ≡ some d)
some_entry m j [] a h = absurd (cc)
some_entry m j (e ∷ es) a h = elim (Bool-cases (e.key == j)) [
  | inl u ↦ (e.value, ap m (sym ((text_eq.beq_iff e.key j).0 u)) ∙ a.0.1)
  | inr u ↦ some_entry m j es a.1 (simp u at h)
]

-- The map of the predecessor, over the one that the table held.
abbrev pub over : FiniteMap → FiniteMap → FiniteMap
over m m0 j = maybe (m j) (m0 j) some

pub merged_key :
    (t : Table) (m m0 : FiniteMap) (j : Key)
    → Holds t m
    → All (Of m) (all_nodes t.lists)
    → Ascii j
    → (if has_key j (all_nodes t.lists) then m j else m0 j) ≡ over m m0 j
merged_key t m m0 j h f a = elim (Bool-cases (has_key j (all_nodes t.lists))) [
  | inl u ↦
      let (d, q) = some_entry m j (all_nodes t.lists) f u in
      if_true _ _ u ∙ q ∙ sym (ap (λ o. maybe o (m0 j) some) q)
  | inr u ↦ if_false _ _ u ∙ sym (ap (λ o. maybe o (m0 j) some) (only_entries t m j h a u))
]

pub copy_entries-valid :
    (m : FiniteMap) (es : List Entry) → All (Of m) es → copy_entries es ≡ some es
unfolding data_create
copy_entries-valid m [] a = refl
copy_entries-valid m (e ∷ es) a =
    let z : leb (length e.value.bytes) 0 ≡ false = ground (arith, a.0.2) in
    simp (z, copy_entries-valid m es a.1)

pub no_entries :
    (t : Table) (m m0 : FiniteMap) (j : Key)
    → Holds t m
    → eqb t.size 0 ≡ true
    → Ascii j
    → m0 j ≡ over m m0 j
unfolding table_get
no_entries t m m0 j h z a =
    let q : m j ≡ none = ok-injective _ _ (sym (h.reads j a) ∙ simp z) in
    sym (ap (λ o. maybe o (m0 j) some) q)
