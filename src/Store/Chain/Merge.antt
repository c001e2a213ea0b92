-- ===== src/Store/Chain/Merge.antt =====
-- The loop of the merge: what it leaves in the table.
use sd.Common.{
  ◌≡◌, refl, ap, sym, ◌∙◌, Bool, true, false, Option, none, some, List, [], ◌∷◌, All, maybe, inl,
  inr, Bool-cases, Outcome, ok, err, ◌>>=◌, if_true, if◌then◌else◌, ◌==◌, text_eq,
}
use sd.Store.Keys.{Key}
use sd.Store.SortedList.{Data, Entry, data_valid, data_dup, entry_dup}
use sd.Store.Table.{Fault, Table, done, find_entry, table_put, table_get, table_get_entry}
use sd.Store.Table.Map.{IsValid, row_list, table_get-row}
use sd.Store.Table.Entries.{Found}
use sd.Store.Table.Rows.{hash_code-ascii}
use sd.Store.Server.{Server, Timeval}
use sd.Store.Server.Session.{Ascii, FiniteMap, assign, Represents, ok-injective, put-Represents}
use sd.Store.Chain.Joining.{merge_loop}

-- The table stands for the map.
pub record Holds (t : Table) (m : FiniteMap) : Type 0 where
  pub valid : IsValid t
  pub reads : (j : Key) → Ascii j → table_get (some j) t ≡ ok (m j)

-- What a table holds.
abbrev content : Outcome Fault (Option Data) → Option Data
content (ok o) = o
content (err f) = none

abbrev pub contents : Table → FiniteMap
contents t j = content (table_get (some j) t)

-- A table with the invariant stands for what it holds.
pub contents-Holds : (t : Table) → IsValid t → Holds t (contents t)
contents-Holds t v = record {
  valid = v;
  reads = λ j a.
      let q = hash_code-ascii j t.rows v.some_rows a in
      let (l, g, w, x) = row_list t j _ v q in
      let e = table_get-row t j _ l v q g w in e ∙ sym (ap (λ o. ok (content o)) e);
}

-- An entry of the map, with a key and a value that `table_put` takes.
abbrev pub Of : FiniteMap → Entry → Type 0
Of m e = Ascii e.key × (m e.key ≡ some e.value) × (data_valid e.value ≡ true)

abbrev pub has_key : Key → List Entry → Bool
has_key j [] = false
has_key j (e ∷ es) = if e.key == j then true else has_key j es

abbrev server_of : Table → Server
server_of t = record {
  table = t;
  stats = record { clients_connected = 0; num_ops = 0; total_time_microseconds = 0 };
  forwarded = [];
}

pub put-Holds :
    (t : Table) (m : FiniteMap) (e : Entry)
    → Holds t m
    → Ascii e.key
    → data_valid e.value ≡ true
    → (t' : Table) × (table_put true true (some e.key) (some e.value) t ≡ ok (t', done))
      × Holds t' (assign e.key (some e.value) m)
put-Holds t m e h a v =
    let s = server_of t in
    let rep : Represents s m = record { valid = h.valid; reads = h.reads } in
    let zero_time : Timeval = record { tv_sec = 0; tv_usec = 0 } in
    let (t', q, w, reads) =
      put-Represents (none, (zero_time, zero_time)) s m e.key rep a e.value v in
    (t', q, record { valid = w; reads = reads })

-- What the loop leaves under a key.
after_entry :
    (m m0 : FiniteMap) (e : Entry) (b : Bool) (j : Key)
    → m e.key ≡ some e.value
    → (if b then m j else assign e.key (some e.value) m0 j)
      ≡ (if (if e.key == j then true else b) then m j else m0 j)
after_entry m m0 e true j q = elim (Bool-cases (e.key == j)) [ inl t ↦ simp t | inr t ↦ simp t ]
after_entry m m0 e false j q = elim (Bool-cases (e.key == j)) [
  | inl t ↦
      let k : e.key ≡ j = (text_eq.beq_iff e.key j).0 t in
      if_true _ _ t
      ∙ sym q
      ∙ ap m k
      ∙ sym (ap (λ (b : Bool). if (if b then true else false) then m j else m0 j) t)
  | inr t ↦ simp t
]

pub merge_loop-Holds :
    (es : List Entry) (t : Table) (m m0 : FiniteMap)
    → Holds t m0
    → All (Of m) es
    → (t' : Table) × (merge_loop es t ≡ ok t') × Holds t' (λ j. if has_key j es then m j else m0 j)
unfolding merge_loop
merge_loop-Holds [] t m m0 h a = (t, refl, h)
merge_loop-Holds (e ∷ es) t m m0 h a =
    let (t1, q1, h1) = put-Holds t m0 e h a.0.0 a.0.2 in
    let (t2, q2, h2) = merge_loop-Holds es t1 m (assign e.key (some e.value) m0) h1 a.1 in
    (
      t2,
      ap (λ o. o >>= λ r. merge_loop es r.0) q1 ∙ q2,
      record {
        valid = h2.valid;
        reads = λ j b. h2.reads j b ∙ ap ok (after_entry m m0 e (has_key j es) j a.0.1);
      },
    )

-- An entry that is found has a value with bytes, and `table_get` gives it.
found_value :
    (o : Outcome Fault (Option Entry)) (e : Entry)
    → (o >>= λ x. ok (maybe x none entry_dup)) ≡ ok (some e)
    → ((o >>= λ x. ok (maybe x none (λ y. data_dup y.value))) ≡ ok (some e.value))
      × (data_valid e.value ≡ true)
unfolding entry_dup data_dup
found_value (err f) e h = absurd (cc)
found_value (ok none) e h = absurd (cc)
found_value (ok (some x)) e h = elim (Bool-cases (data_valid x.value)) [
  | inl t ↦
      let q : x ≡ e = let z = simp t at h in cc in
      (
        ap ok (if_true _ _ t ∙ ap (λ (y : Entry). some y.value) q),
        ap (λ (y : Entry). data_valid y.value) (sym q) ∙ t,
      )
  | inr t ↦ absurd (let z = simp t at h in cc)
]

entry_of : (t : Table) (m : FiniteMap) (e : Entry) → Holds t m → Ascii e.key → Found t e → Of m e
unfolding table_get table_get_entry
entry_of t m e h a f =
    let (g, v) = found_value (find_entry e.key t) e f in
    (a, ok-injective _ _ (sym (h.reads e.key a) ∙ g), v)

pub entries_of :
    (t : Table) (m : FiniteMap) (es : List Entry)
    → Holds t m
    → All (λ e. Ascii e.key) es
    → All (Found t) es
    → All (Of m) es
entries_of t m [] h a f = tt
entries_of t m (e ∷ es) h a f = (entry_of t m e h a.0 f.0, entries_of t m es h a.1 f.1)
