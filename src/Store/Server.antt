-- ===== src/Store/Server.antt =====
-- source/table_skel.c: what the server does with a request. Sockets, locks and the decoding of
-- messages are not here; a request is a decoded message, and a call of `invoke` is one step.
pub mod Retry
pub mod GivenUp
pub mod Session
pub mod Refinement
pub mod Elapsed
pub mod Sent
use sd.Common.{
  ℕ, zero, suc, ◌+◌, ◌-◌, ◌%◌, ◌^◌, Bool, true, false, not, Option, none, some, List, [], ◌∷◌, ◌++◌,
  if◌then◌else◌, maybe, length, Outcome, ok, err, ◌>>=◌, replicate,
}
use sd.Store.Keys.{Key}
use sd.Store.SortedList.{Data, Entry, data_create, RemoveResult, invalid, removed, missing}
use sd.Store.Table.{
  Table, Fault, PutResult, done, refused, table_create, table_put, table_get, table_remove,
  table_get_keys, get_all_entries,
}

-- `struct statistics_t`; the sum is an `unsigned long` of 64 bits.
pub record Statistics : Type 0 where
  pub clients_connected : ℕ
  pub num_ops : ℕ
  pub total_time_microseconds : ℕ

-- A message by its opcode, with the fields that are read; a field that is NULL is `none`.
pub data Request : Type 0 where
  put : Option (Option Key × Option (List ℕ)) → Request
  get delete : Option Key → Request
  size get_keys get_table stats bad_opcode : Request

-- The message that goes back, by its opcode and the field that is set.
pub data Reply : Type 0 where
  error put_done delete_done : Reply
  value : Data → Reply
  result : ℕ → Reply
  keys : List Key → Reply
  entries : List Entry → Reply
  statistics : Statistics → Reply

-- The calls of the next server in the chain.
pub data Forward : Type 0 where
  remote_put : Key → Data → Forward
  remote_del : Key → Forward

pub record Server : Type 0 where
  pub table : Table
  pub stats : Statistics
  pub forwarded : List Forward

-- The state that `table_skel_init` leaves, on a table.
abbrev pub started : Table → Option Server
started t = some (record {
  table = t;
  stats = record { clients_connected = 0; num_ops = 0; total_time_microseconds = 0 };
  forwarded = [];
})

-- `table_skel_init`, with memory and mutexes; no server is called yet.
abbrev pub table_skel_init : ℕ → Option Server
table_skel_init n_lists = maybe (table_create n_lists) none started

-- How often the next server is called: until a call succeeds, with so many retries left. `answers`
-- says which calls from here on succeed.
pub calls : ℕ → (ℕ → Bool) → ℕ
calls zero answers = 0
calls (suc retries) answers =
    let more = calls retries (λ n. answers (suc n)) in if answers 0 then 1 else suc more

abbrev pub max_retries : ℕ
max_retries = 10

-- `next_server` is NULL at the tail.
pub forward : Option (ℕ → Bool) → Forward → Server → Server
unfolding calls
forward none call s = s
forward (some answers) call s = record s {
  forwarded = s.forwarded ++ replicate (calls max_retries answers) call;
}

-- `struct timeval`: seconds, and microseconds below a million.
pub record Timeval : Type 0 where
  pub tv_sec : ℕ
  pub tv_usec : ℕ

-- `update_stats`: the difference of the microseconds is signed, and is added modulo 2 ^ 64.
abbrev pub add_time : Timeval → Timeval → ℕ → ℕ
add_time start end total = (total + end.tv_usec + (2 ^ 64 - start.tv_usec)) % 2 ^ 64

abbrev pub update_stats : Timeval × Timeval → Server → Server
update_stats (start, end) s = record s {
  stats = record s.stats {
    num_ops = s.stats.num_ops + 1;
    total_time_microseconds = add_time start end s.stats.total_time_microseconds;
  };
}

-- `update_server_stats_clients`: the operation 0 adds. The number of clients is an `int` of 32 bits,
-- kept modulo 2 ^ 32, and so is `n`.
abbrev pub update_server_stats_clients : ℕ → ℕ → Server → Server
update_server_stats_clients n zero s = record s {
  stats = record s.stats { clients_connected = (s.stats.clients_connected + n) % 2 ^ 32 };
}
update_server_stats_clients n (suc op) s = record s {
  stats = record s.stats {
    clients_connected = (s.stats.clients_connected + (2 ^ 32 - n)) % 2 ^ 32;
  };
}

-- The key and the bytes of a request to put, if all its fields are there.
abbrev pub put_fields : Option (Option Key × Option (List ℕ)) → Option (Key × List ℕ)
put_fields none = none
put_fields (some (none, bytes)) = none
put_fields (some (some key, none)) = none
put_fields (some (some key, some bytes)) = some (key, bytes)

module _ (next_server : Option (ℕ → Bool)) (time : Timeval × Timeval) where
  abbrev pub put_reply : Server → PutResult → Option Data → Key → Server × Reply
  put_reply s refused d key = (update_stats time s, error)
  put_reply s done none key = (update_stats time s, put_done)
  put_reply s done (some d) key =
      (update_stats time (forward next_server (remote_put key d) s), put_done)

  -- There is memory for what is put.
  pub invoke_put : Key → List ℕ → Server → Outcome Fault (Server × Reply)
  unfolding forward
  invoke_put key bytes s = table_put true true (some key) (data_create bytes) s.table >>= λ r.
      ok (put_reply (record s { table = r.0 }) r.1 (data_create bytes) key)

  abbrev pub del_reply : Server → RemoveResult → Key → Server × Reply
  del_reply s invalid key = (update_stats time s, error)
  del_reply s missing key = (update_stats time s, error)
  del_reply s removed key =
      (update_stats time (forward next_server (remote_del key) s), delete_done)

  pub invoke_del : Key → Server → Outcome Fault (Server × Reply)
  unfolding forward
  invoke_del key s =
      table_remove (some key) s.table >>= λ r. ok (del_reply (record s { table = r.0 }) r.1 key)

  unfoldable pub invoke : Request → Server → Outcome Fault (Server × Reply)
  unfolding invoke_put invoke_del
  invoke (put fields) s =
      maybe (put_fields fields) (ok (update_stats time s, error)) λ f. invoke_put f.0 f.1 s
  invoke (get none) s = ok (update_stats time s, error)
  invoke (get (some key)) s =
      table_get (some key) s.table >>= λ d. ok (update_stats time s, maybe d error value)
  invoke (delete none) s = ok (s, error)
  invoke (delete (some key)) s = invoke_del key s
  invoke size s = ok (update_stats time s, result s.table.size)
  invoke get_keys s = ok (update_stats time s, maybe (table_get_keys s.table) error keys)
  invoke get_table s =
      get_all_entries s.table >>= λ es. ok (update_stats time s, maybe es error entries)
  invoke stats s = ok (s, statistics s.stats)
  invoke bad_opcode s = ok (s, error)
