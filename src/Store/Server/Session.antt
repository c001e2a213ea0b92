-- ===== src/Store/Server/Session.antt =====
-- Requests of a session against the map that the table stands for.
use sd.Common.{
  ℕ, ◌%◌, ◌<◌, ◌≡◌, ap, sym, ◌∙◌, Bool, true, Option, none, some, List, [], ◌∷◌, All, if◌then◌else◌,
  maybe, inl, inr, Bool-cases, Outcome, ok, ◌>>=◌, ◌==◌, text_eq,
}
use sd.Store.Keys.{Key}
use sd.Store.SortedList.{Data, data_valid, data_create, removed, missing}
use sd.Store.Table.{
  Table, Fault, row, hash_code, char_sum, done, table_put, table_get, table_remove,
}
use sd.Store.Table.Rows.{hash_code-ascii}
use sd.Store.Table.Map.{IsValid, table_get-table_put, branch}
use sd.Store.Table.Remove.{table_get-table_remove}
use sd.Store.Server.{
  Request, put, get, delete, Reply, error, put_done, delete_done, value, Server, Timeval, invoke,
}

-- The requests on one key.
pub data Access : Type 0 where
  put_key : Key → List ℕ → Access
  get_key delete_key : Key → Access

abbrev pub request : Access → Request
request (put_key k bytes) = put (some (some k, some bytes))
request (get_key k) = get (some k)
request (delete_key k) = delete (some k)

abbrev pub Ascii : Key → Type 0
Ascii = All (λ c. c < 128)

abbrev pub key_of : Access → Key
key_of (put_key k bytes) = k
key_of (get_key k) = k
key_of (delete_key k) = k

-- What the server promises: a map from keys to data.
abbrev pub FiniteMap : Type 0
FiniteMap = Key → Option Data

abbrev pub assign : Key → Option Data → FiniteMap → FiniteMap
assign k o m j = if k == j then o else m j

-- What an access does to the map, and what it replies. There is no value of no bytes.
abbrev pub access : Access → FiniteMap → FiniteMap × Reply
access (put_key k bytes) m =
    maybe (data_create bytes) (m, error) λ d. (assign k (some d) m, put_done)
access (get_key k) m = (m, maybe (m k) error value)
access (delete_key k) m = (assign k none m, maybe (m k) error (λ d. delete_done))

-- The server's table stands for the map.
pub record Represents (s : Server) (m : FiniteMap) : Type 0 where
  pub valid : IsValid s.table
  pub reads : (k : Key) → Ascii k → table_get (some k) s.table ≡ ok (m k)

pub ok-injective {ℓ} : {A : Type ℓ} (x y : A) (q : Path (Outcome Fault A) (ok x) (ok y)) → x ≡ y
ok-injective x y q = cc

beq_sym : (j k : Key) → (j == k) ≡ (k == j)
beq_sym j k = elim (Bool-cases (j == k)) [
  | inl t ↦ t ∙ sym ((text_eq.beq_iff k j).1 (sym ((text_eq.beq_iff j k).0 t)))
  | inr t ↦ elim (Bool-cases (k == j)) [
    | inl u ↦ absurd (let v = (text_eq.beq_iff j k).1 (sym ((text_eq.beq_iff k j).0 u)) in cc)
    | inr u ↦ t ∙ sym u
  ]
]

-- How the next server answers the calls of a request, and when the request starts and ends.
abbrev pub Env : Type 0
Env = Option (ℕ → Bool) × (Timeval × Timeval)

-- The replies of a session, request after request.
unfoldable pub session : List (Env × Request) → Server → Outcome Fault (Server × List Reply)
unfolding invoke
session [] s = ok (s, [])
session ((env, q) ∷ turns) s =
    invoke env.0 env.1 q s >>= λ r. session turns r.0 >>= λ rest. ok (rest.0, r.1 ∷ rest.1)

abbrev pub accesses : List (Env × Access) → FiniteMap → FiniteMap × List Reply
accesses [] m = (m, [])
accesses ((env, a) ∷ turns) m =
    let here = access a m in let rest = accesses turns here.0 in (rest.0, here.1 ∷ rest.1)

-- One put, one get and one delete do what they do to the map.
module _ (env : Env) (s : Server) (m : FiniteMap) (k : Key) (r : Represents s m) (a : Ascii k) where
  hash_row : (j : Key) → Ascii j → (i : ℕ) × (hash_code j s.table.rows ≡ row i)
  hash_row j b = ((char_sum j).0 % s.table.rows, hash_code-ascii j s.table.rows r.valid.some_rows b)

  pub put-Represents :
      (d : Data)
      → data_valid d ≡ true
      → (t : Table) × (table_put true true (some k) (some d) s.table ≡ ok (t, done))
        × IsValid t
        × ((j : Key) → Ascii j → table_get (some j) t ≡ ok (assign k (some d) m j))
  put-Represents d dv =
      let (i, q) = hash_row k a in
      let (t, e, v, same, here) = table_get-table_put s.table k k d i i r.valid q q dv in
      (
        t,
        e,
        v,
        λ j b.
            let (n, h) = hash_row j b in
            let (t', e', v', same', there) = table_get-table_put s.table k j d i n r.valid q h dv in
            let u : t' ≡ t = ap (λ p. p.0) (ok-injective _ _ (sym e' ∙ e)) in
            ap (λ x. table_get (some j) x) (sym u)
            ∙ there
            ∙ ap (λ o. if j == k then ok (some d) else o) (r.reads j b)
            ∙ ap (λ b. if b then ok (some d) else ok (m j)) (beq_sym j k)
            ∙ sym (branch ok (k == j) (some d) (m j)),
      )

  pub delete-Represents :
      (t : Table) × (table_remove (some k) s.table ≡ ok (t, maybe (m k) missing (λ d. removed)))
      × IsValid t
      × ((j : Key) → Ascii j → table_get (some j) t ≡ ok (assign k none m j))
  delete-Represents =
      let (i, q) = hash_row k a in
      let (t, o, g, e, v, same, here) = table_get-table_remove s.table k k i i r.valid q q in
      let known : o ≡ m k = ok-injective _ _ (sym g ∙ r.reads k a) in
      (
        t,
        e ∙ ap (λ x. ok (t, maybe x missing (λ d. removed))) known,
        v,
        λ j b.
            let (n, h) = hash_row j b in
            let (t', o', g', e', v', same', there) =
              table_get-table_remove s.table k j i n r.valid q h in
            let u : t' ≡ t = ap (λ p. p.0) (ok-injective _ _ (sym e' ∙ e)) in
            ap (λ x. table_get (some j) x) (sym u)
            ∙ there
            ∙ ap (λ o. if k == j then ok none else o) (r.reads j b)
            ∙ sym (branch ok (k == j) none (m j)),
      )
