-- ===== src/Store/Client.antt =====
-- source/client_stub.c: the requests that a client makes over a connection, and what it takes from the
-- replies. There is memory.
use mathlib.Core.Path.{subst}
use sd.Common.{
  ℕ, ◌<◌, ◌≤◌, ◌≡◌, refl, ap, ◌∙◌, Option, none, some, List, [], ◌∷◌, All, length, maybe,
  if◌then◌else◌, Outcome, ok, ◌>>=◌, ◌==◌, text_eq,
}
use sd.Store.Keys.{Key}
use sd.Store.SortedList.{Data}
use sd.Store.Table.{Fault}
use sd.Store.Server.{
  Request, put, get, delete, size, get_keys, Reply, error, put_done, delete_done, value, result,
  keys, entries, statistics, Server, Timeval, invoke,
}
use sd.Store.Server.Session.{Ascii, FiniteMap, assign, Represents, get_key, put_key}
use sd.Store.Server.Refinement.{invoke-access}
use sd.Store.Chain.Replication.{Clock, chain_invoke}
use sd.Store.Wire.Exchange.{Codec, Link, CallFault, call}
use sd.Store.Wire.Delivered.{Reliable, CarriedRequest, CarriedReply, call_lem}
use sd.Store.Server.GivenUp.{data_create_lem}
use sd.Store.Chain.Delivery.{Replicas, chain_invoke-access}

abbrev pub put_request : Key → Data → Request
put_request key d = put (some (some key, some d.bytes))

abbrev pub get_request : Key → Request
get_request key = get (some key)

abbrev pub del_request : Key → Request
del_request key = delete (some key)

-- What `rtable_put` makes of a response: 0, or -1, which is `none`.
abbrev pub put_status : Reply → Option ℕ
put_status put_done = some 0
put_status error = none
put_status delete_done = none
put_status (value d) = none
put_status (result n) = none
put_status (keys ks) = none
put_status (entries es) = none
put_status (statistics s) = none

-- What `rtable_get` makes of a response; NULL is `none`.
abbrev pub got_value : Reply → Option Data
got_value (value d) = some d
got_value error = none
got_value put_done = none
got_value delete_done = none
got_value (result n) = none
got_value (keys ks) = none
got_value (entries es) = none
got_value (statistics s) = none

-- The field `result` of a message, which is 0 where it is not set; -1 for an error is `none`. It is
-- what `rtable_del` and `rtable_size` return.
abbrev pub result_of : Reply → Option ℕ
result_of error = none
result_of (result n) = some n
result_of put_done = some 0
result_of delete_done = some 0
result_of (value d) = some 0
result_of (keys ks) = some 0
result_of (entries es) = some 0
result_of (statistics s) = some 0

-- What `rtable_get_keys` makes of a response.
abbrev pub keys_of : Reply → Option (List Key)
keys_of error = none
keys_of (keys ks) = some ks
keys_of put_done = some []
keys_of delete_done = some []
keys_of (value d) = some []
keys_of (result n) = some []
keys_of (entries es) = some []
keys_of (statistics s) = some []

-- The calls of a client over a link, of what is served at its other end.
module _ {ℓ} {S : Type ℓ} (codec : Codec) (serve : Request → S → Outcome Fault (S × Reply))
    (link : Link) where
  unfoldable pub rtable_put : Key → Data → S → Outcome CallFault (S × Option ℕ)
  unfolding call
  rtable_put key d s = call codec serve link (put_request key d) s >>= λ r. ok (r.0, put_status r.1)

  unfoldable pub rtable_get : Key → S → Outcome CallFault (S × Option Data)
  unfolding call
  rtable_get key s = call codec serve link (get_request key) s >>= λ r. ok (r.0, got_value r.1)

  unfoldable pub rtable_del : Key → S → Outcome CallFault (S × Option ℕ)
  unfolding call
  rtable_del key s = call codec serve link (del_request key) s >>= λ r. ok (r.0, result_of r.1)

  unfoldable pub rtable_size : S → Outcome CallFault (S × Option ℕ)
  unfolding call
  rtable_size s = call codec serve link size s >>= λ r. ok (r.0, result_of r.1)

  unfoldable pub rtable_get_keys : S → Outcome CallFault (S × Option (List Key))
  unfolding call
  rtable_get_keys s = call codec serve link get_keys s >>= λ r. ok (r.0, keys_of r.1)

-- What a client gets for a key from one server.
unfoldable pub read_at :
    Codec → Link → Timeval × Timeval → Key → Server → Outcome CallFault (Option Data)
unfolding rtable_get invoke
read_at codec link time key s = rtable_get codec (invoke none time) link key s >>= λ r. ok r.1

-- The reply to a get.
abbrev pub value_reply : Option Data → Reply
value_reply o = maybe o error value

read_of : (o : Option Data) → got_value (value_reply o) ≡ o
read_of none = refl
read_of (some d) = refl

module _ (codec : Codec) (link : Link) (reliable : Reliable link) where
  read_replica :
      (time : Timeval × Timeval) (j : Key) (s : Server) (m : FiniteMap)
      → Represents s m
      → Ascii j
      → CarriedRequest codec (get_request j)
      → CarriedReply codec (value_reply (m j))
      → read_at codec link time j s ≡ ok (m j)
  unfolding read_at rtable_get
  read_replica time j s m r a c d =
      let (s', e, r') = invoke-access (none, time) (get_key j) s m r a in
      let taken : Outcome CallFault (Server × Reply) → Outcome CallFault (Server × Option Data) =
        λ o. o >>= λ r. ok (r.0, got_value r.1) in
      ap (λ (o : Outcome CallFault (Server × Reply)). taken o >>= λ r. ok r.1)
        (call_lem codec (invoke none time) link reliable (get_request j) s s' (value_reply (m j)) c
          e d)
      ∙ ap ok (read_of (m j))

  read-Replicas :
      (time : Timeval × Timeval) (j : Key) (servers : List Server) (m : FiniteMap)
      → Replicas servers m
      → Ascii j
      → CarriedRequest codec (get_request j)
      → CarriedReply codec (value_reply (m j))
      → All (λ s. read_at codec link time j s ≡ ok (m j)) servers
  read-Replicas time j [] m r a c d = tt
  read-Replicas time j (s ∷ servers) m r a c d =
      (read_replica time j s m r.0 a c d, read-Replicas time j servers m r.1 a c d)

  -- A client puts a value that has bytes at the first server of a chain whose servers hold one map:
  -- `rtable_put` returns 0, and from then on `rtable_get` gives that value under the key, and under
  -- another key what it gave before, at whichever server of the chain it asks. The keys have ASCII
  -- characters only; there is memory; the connections of the client and those between the servers
  -- do not fail, and each call of `read` for a message of the client or of a server to it gives the
  -- whole message; these messages, which are the put and its reply and the get and its reply, have
  -- at most 32767 octets each, but not none, and are unpacked as they were packed. `depth` is any
  -- bound of the number of servers.
  pub rtable_get-rtable_put :
      (depth : ℕ) (clock : Clock) (time : Timeval × Timeval) (servers : List Server) (m : FiniteMap)
      (k j : Key) (d : Data)
      → length servers ≤ depth
      → 0 < length servers
      → Replicas servers m
      → Ascii k
      → Ascii j
      → 0 < length d.bytes
      → CarriedRequest codec (put_request k d)
      → CarriedReply codec put_done
      → CarriedRequest codec (get_request j)
      → CarriedReply codec (value_reply (if k == j then some d else m j))
      → (servers' : List Server) × (rtable_put codec (chain_invoke depth clock) link k d servers
          ≡ ok (servers', some 0))
        × (length servers' ≡ length servers)
        × All (λ s. read_at codec link time j s ≡ ok (if k == j then some d else m j)) servers'
  unfolding rtable_put
  rtable_get-rtable_put depth clock time servers m k j d le lt r a b pos c1 c2 c3 c4 =
      let (servers', e, reps, len) =
        chain_invoke-access depth clock (put_key k d.bytes) servers m le lt a r in
      let q = data_create_lem d pos in
      let e' : chain_invoke depth clock (put_request k d) servers ≡ ok (servers', put_done) =
        e ∙ ap (λ (o : Option Data). ok (servers', (put_access o).1)) q in
      (
        servers',
        ap (λ (o : Outcome CallFault (List Server × Reply)). o >>= λ r. ok (r.0, put_status r.1))
            (call_lem codec (chain_invoke depth clock) link reliable (put_request k d) servers
              servers' put_done c1 e' c2),
        len,
        read-Replicas time j servers' (assign k (some d) m)
            (subst (λ (o : Option Data). Replicas servers' (put_access o).0) q reps) b c3 c4,
      )
    where
      put_access : Option Data → FiniteMap × Reply
      put_access o = maybe o (m, error) (λ d. (assign k (some d) m, put_done))
