-- ===== src/Store/Chain/Joining.antt =====
-- How a server that joins the chain takes over the table of its predecessor: `rtable_get_table` of
-- source/client_stub.c and the loop of `select_prev_server` in source/table_server.c.
use sd.Common.{true, Option, none, some, List, [], ◌∷◌, maybe, Outcome, ok, ◌>>=◌}
use sd.Store.Keys.{Key}
use sd.Store.SortedList.{Entry, data_create}
use sd.Store.Table.{Fault, Table, table_put}
use sd.Store.Server.{
  Request, Reply, error, put_done, delete_done, value, result, keys, entries, statistics, Server,
  get_table, Timeval, invoke,
}
use sd.Store.Wire.Exchange.{Codec, Link, CallFault, in_server, call}
use sd.Store.Chain.{select_prev_server}

-- The copies of the entries of a message; NULL where a value has no bytes.
abbrev pub copy_entries : List Entry → Option (List Entry)
copy_entries [] = some []
copy_entries (e ∷ es) =
    maybe (data_create e.value.bytes) none
      λ d. maybe (copy_entries es) none λ rest. some (record { key = e.key; value = d } ∷ rest)

-- What `rtable_get_table` makes of a response, with memory. A message of another kind has no entries.
unfoldable pub received_entries : Reply → Option (List Entry)
received_entries error = none
received_entries put_done = some []
received_entries delete_done = some []
received_entries (value d) = some []
received_entries (result n) = some []
received_entries (keys ks) = some []
received_entries (entries es) = copy_entries es
received_entries (statistics s) = some []

unfoldable pub rtable_get_table {ℓ} :
    {S : Type ℓ}
    → Codec
    → (Request → S → Outcome Fault (S × Reply))
    → Link
    → S
    → Outcome CallFault (S × Option (List Entry))
unfolding call received_entries
rtable_get_table codec serve link s =
    call codec serve link get_table s >>= λ r. ok (r.0, received_entries r.1)

-- The loop over the entries; a result of -1 is only reported.
unfoldable pub merge_loop : List Entry → Table → Outcome Fault Table
merge_loop [] t = ok t
merge_loop (e ∷ es) t = table_put true true (some e.key) (some e.value) t >>= λ r. merge_loop es r.0

-- What a predecessor sends over the link, merged into the table.
unfoldable pub merge_tables :
    Codec → Link → Timeval × Timeval → Server → Table → Outcome CallFault Table
unfolding rtable_get_table invoke merge_loop
merge_tables codec link time prev t = rtable_get_table codec (invoke none time) link prev >>= λ r.
    maybe r.1 (ok t) (λ es. in_server (merge_loop es t))

-- A server that joins: `connect` gives the server of a node, if its data can be read and the
-- connection is made.
unfoldable pub join :
    Codec
    → Link
    → (Key → Option Server)
    → Timeval × Timeval
    → Key
    → List Key
    → Table
    → Outcome CallFault Table
unfolding select_prev_server merge_tables
join codec link connect time own children t =
    maybe (select_prev_server own children) (ok t)
      λ k. maybe (connect k) (ok t) λ prev. merge_tables codec link time prev t
