-- ===== src/Store/Server/Refinement.antt =====
-- The server implements the map: its replies are those of the map, request after request.
use sd.Common.{
  ◌⊎◌, ℕ, ◌<◌, ◌≡◌, refl, ap, ◌∙◌, Bool, true, Option, none, some, List, [], ◌∷◌, maybe,
  if◌then◌else◌, inl, inr, Bool-cases, Option-cases, ok, ◌>>=◌, if_true, if_false, leb, eqb, length,
  arith, All,
}
use sd.Store.Keys.{Key}
use sd.Store.SortedList.{data_dup, list_get, Data, data_valid, data_create}
use sd.Store.Table.{list_at, hash_code, Table, done, table_put, table_get}
use sd.Store.Table.Map.{IsValid, table_create-IsValid}
use sd.Store.Server.{
  started, table_skel_init, Request, error, value, Server, Forward, invoke, invoke_put, invoke_del,
  forward, update_stats, put_reply, del_reply, remote_put, remote_del,
}
use sd.Store.Server.Session.{
  Access, put_key, get_key, delete_key, key_of, request, Ascii, FiniteMap, assign, access,
  Represents, Env, session, accesses, put-Represents, delete-Represents,
}

forward-table :
    (next_server : Option (ℕ → Bool)) (call : Forward) (s : Server)
    → (forward next_server call s).table ≡ s.table
unfolding forward
forward-table none call s = refl
forward-table (some answers) call s = refl

-- A server with a table that stands for a map.
with_table :
    (s : Server) (t : Table) (m : FiniteMap)
    → IsValid t
    → ((j : Key) → Ascii j → table_get (some j) t ≡ ok (m j))
    → s.table ≡ t
    → Represents s m
with_table s t m v reads e = record {
  valid = rw e v;
  reads = λ j b. ap (table_get (some j)) e ∙ reads j b;
}

data_create_cases :
    (bytes : List ℕ)
    → (data_create bytes ≡ none)
      ⊎ ((d : Data) × (data_create bytes ≡ some d) × (data_valid d ≡ true))
unfolding data_create
data_create_cases bytes = elim (Bool-cases (leb (length bytes) 0)) [
  | inl t ↦ inl (if_true _ _ t)
  | inr t ↦ inr (record { bytes = bytes }, if_false _ _ t, ground arith)
]

module _ (env : Env) (s : Server) (m : FiniteMap) (k : Key) (r : Represents s m) (a : Ascii k) where
  invoke_put-access :
      (bytes : List ℕ)
      → (s' : Server) × (invoke_put env.0 env.1 k bytes s ≡ ok (s', (access (put_key k bytes) m).1))
        × Represents s' (access (put_key k bytes) m).0
  unfolding invoke_put table_put
  invoke_put-access bytes = elim (data_create_cases bytes) [
    | inl q ↦ (
      update_stats env.1 s,
      simp q,
      rw q (with_table (update_stats env.1 s) s.table m r.valid r.reads refl),
    )
    | inr (d, q, dv) ↦
        let (t, e, v, reads) = put-Represents env s m k r a d dv in
        let s' = (put_reply env.0 env.1 (record s { table = t }) done (some d) k).0 in
        (
          s',
          ap
                (λ o. table_put true true (some k) o s.table >>= λ r.
                  ok (put_reply env.0 env.1 (record s { table = r.0 }) r.1 o k))
                q
              ∙ ap
                  (λ o.
                    o >>= λ r. ok (put_reply env.0 env.1 (record s { table = r.0 }) r.1 (some d) k))
                  e
              ∙ rw q refl,
          rw q (
              with_table s' t (assign k (some d) m) v reads
                (forward-table env.0 (remote_put k d) (record s { table = t }))),
        )
  ]

  invoke_del-access :
      (s' : Server) × (invoke_del env.0 env.1 k s ≡ ok (s', (access (delete_key k) m).1))
      × Represents s' (access (delete_key k) m).0
  unfolding invoke_del
  invoke_del-access =
      let (t, e, v, reads) = delete-Represents env s m k r a in
      let gone : Server = record s { table = t } in
      elim (Option-cases (m k)) [
        | inl q ↦ (
          update_stats env.1 gone,
          ap (λ o. o >>= λ r. ok (del_reply env.0 env.1 (record s { table = r.0 }) r.1 k)) e
              ∙ simp q,
          with_table (update_stats env.1 gone) t (assign k none m) v reads refl,
        )
        | inr (d, q) ↦ (
          update_stats env.1 (forward env.0 (remote_del k) gone),
          ap (λ o. o >>= λ r. ok (del_reply env.0 env.1 (record s { table = r.0 }) r.1 k)) e
              ∙ simp q,
          with_table (update_stats env.1 (forward env.0 (remote_del k) gone)) t (assign k none m) v
              reads (forward-table env.0 (remote_del k) gone),
        )
      ]

-- A request on an ASCII key is answered as the map answers it, and the table stands for the map's
-- next state; there is no fault. There is memory for what is put.
pub invoke-access :
    (env : Env) (a : Access) (s : Server) (m : FiniteMap)
    → Represents s m
    → Ascii (key_of a)
    → (s' : Server) × (invoke env.0 env.1 (request a) s ≡ ok (s', (access a m).1))
      × Represents s' (access a m).0
unfolding invoke
invoke-access env (put_key k bytes) s m r a = invoke_put-access env s m k r a bytes
invoke-access env (delete_key k) s m r a = invoke_del-access env s m k r a
invoke-access env (get_key k) s m r a = (
  update_stats env.1 s,
  ap (λ o. o >>= λ d. ok (update_stats env.1 s, maybe d error value)) (r.reads k a),
  with_table (update_stats env.1 s) s.table m r.valid r.reads refl,
)

-- The turns of a session as the requests that the server gets.
abbrev pub requests : List (Env × Access) → List (Env × Request)
requests [] = []
requests ((env, a) ∷ turns) = (env, request a) ∷ requests turns

-- A session of requests on ASCII keys ends without a fault, its replies are those of the map,
-- whatever the next server answers and whenever the requests come, and the table stands for the
-- map's last state. There is memory for what is put.
pub session-accesses :
    (turns : List (Env × Access)) (s : Server) (m : FiniteMap)
    → Represents s m
    → All (λ t. Ascii (key_of t.1)) turns
    → (s' : Server) × (session (requests turns) s ≡ ok (s', (accesses turns m).1))
      × Represents s' (accesses turns m).0
unfolding session
session-accesses [] s m r h = (s, refl, r)
session-accesses ((env, a) ∷ turns) s m r h =
    let (s1, e1, r1) = invoke-access env a s m r h.0 in
    let (s2, e2, r2) = session-accesses turns s1 (access a m).0 r1 h.1 in
    (
      s2,
      ap (λ o. o >>= λ r. session (requests turns) r.0 >>= λ rest. ok (rest.0, r.1 ∷ rest.1)) e1
          ∙ ap (λ o. o >>= λ rest. ok (rest.0, (access a m).1 ∷ rest.1)) e2,
      r2,
    )

-- A server with a number of lists above 0 starts with the empty map.
pub table_skel_init-Represents :
    (n : ℕ) → 0 < n → (s : Server) × (table_skel_init n ≡ some s) × Represents s (λ k. none)
unfolding table_get
table_skel_init-Represents n h =
    let (t, e, v, empty) = table_create-IsValid n h in
    let s : Server = record {
      table = t;
      stats = record { clients_connected = 0; num_ops = 0; total_time_microseconds = 0 };
      forwarded = [];
    } in
    (
      s,
      ap (λ o. maybe o none started) e,
      record {
        valid = v;
        reads = λ k a.
            ap
              (λ z.
                (if eqb z 0
                  then ok none
                  else list_at (hash_code k t.rows) t.lists >>= λ l. ok (list_get k l))
                >>= λ x. ok (maybe x none (λ y. data_dup y.value)))
              empty;
      },
    )
