-- ===== src/Store/ClientTests.antt =====
-- The theorems on clients and on a server that joins, on concrete ones.
use mathlib.Core.Path.{subst}
use sd.Common.{
  ℕ, zero, suc, ◌≡◌, refl, sym, ◌∙◌, Option, none, some, List, [], ◌∷◌, ◌++◌, All, here, length,
  take, drop, if◌then◌else◌, ok, ◌==◌, text_eq, arith, eqb,
}
use sd.Proto.Text.{codes}
use sd.Store.Keys.{Key}
use sd.Store.SortedList.{Entry}
use sd.Store.Table.{Table, get_all_entries}
use sd.Store.Table.Entries.{get_all_entries_lem}
use sd.Store.Server.{Request, put, get, get_table, Reply, error, value, put_done, entries, Server}
use sd.Store.Server.Session.{ok-injective, Represents}
use sd.Store.Tests.{server, server-Represents, table, table-IsValid, two}
use sd.Store.Chain.{pass, rounds, bubble_sort, last_below, select_prev_server}
use sd.Store.Chain.Replication.{chain_invoke}
use sd.Store.Chain.Delivery.{Replicas}
use sd.Store.Chain.Joining.{join}
use sd.Store.Chain.Merge.{contents, contents-Holds}
use sd.Store.Chain.Takeover.{table_reply, join-Replicas}
use sd.Store.Client.{rtable_put, read_at, rtable_get-rtable_put}
use sd.Store.Wire.{write_interrupted, wrote, got}
use sd.Store.Wire.Exchange.{Codec, Link}
use sd.Store.Wire.Delivered.{Reliable, CarriedReply}
use sd.Store.ChainTests.{nodes, clock, chain, chain-Replicas, ab-Ascii}

-- A packing of the messages that are sent here: an octet for the kind, and lengths before texts.
abbrev pack_request : Request → List ℕ
pack_request (put (some (some k, some bytes))) = 1 ∷ (length k ∷ (k ++ bytes))
pack_request (get (some k)) = 2 ∷ k
pack_request get_table = 3 ∷ []
pack_request r = 0 ∷ []

abbrev unpack_put : List ℕ → Option Request
unpack_put [] = none
unpack_put (n ∷ rest) = some (put (some (some (take n rest), some (drop n rest))))

abbrev unpack_request : List ℕ → Option Request
unpack_request [] = none
unpack_request (c ∷ rest) =
    if eqb c 1
    then unpack_put rest
    else if eqb c 2
    then some (get (some rest))
    else if eqb c 3
    then some get_table
    else none

abbrev pack_entries : List Entry → List ℕ
pack_entries [] = []
pack_entries (e ∷ es) =
    length e.key ∷ (e.key ++ (length e.value.bytes ∷ (e.value.bytes ++ pack_entries es)))

-- A text of the length that stands before it, and the rest.
abbrev unpack_text : List ℕ → List ℕ × List ℕ
unpack_text [] = ([], [])
unpack_text (n ∷ rest) = (take n rest, drop n rest)

abbrev unpack_entries : ℕ → List ℕ → List Entry
unpack_entries zero octets = []
unpack_entries (suc f) [] = []
unpack_entries (suc f) (n ∷ rest) =
    let k = unpack_text (n ∷ rest) in
    let v = unpack_text k.1 in
    record { key = k.0; value = record { bytes = v.0 } } ∷ unpack_entries f v.1

abbrev pack_reply : Reply → List ℕ
pack_reply (value d) = 1 ∷ d.bytes
pack_reply put_done = 2 ∷ []
pack_reply (entries es) = 3 ∷ pack_entries es
pack_reply r = 0 ∷ []

abbrev unpack_reply : List ℕ → Option Reply
unpack_reply [] = none
unpack_reply (c ∷ rest) =
    if eqb c 1
    then some (value (record { bytes = rest }))
    else if eqb c 2
    then some put_done
    else if eqb c 3
    then some (entries (unpack_entries (length rest) rest))
    else some error

abbrev codec : Codec
codec = record {
  pack_request = pack_request;
  unpack_request = unpack_request;
  pack_reply = pack_reply;
  unpack_reply = unpack_reply;
}

-- The request is written in pieces.
abbrev link : Link
link = record {
  client_writes = wrote 2 ∷ write_interrupted ∷ wrote 40000 ∷ [];
  server_read = got 40000;
  server_writes = wrote 40000 ∷ [];
  client_read = got 32768;
}

link-Reliable : Reliable link
link-Reliable = record {
  client_room = omega arith;
  server_gets = omega arith;
  server_room = omega arith;
  client_gets = omega arith;
}

rtable_get-rtable_put_example :
    (servers' : List Server) × (rtable_put codec (chain_invoke 3 clock) link (codes "ab") two chain
      ≡ ok (servers', some 0))
    × (length servers' ≡ length chain)
    × All
        (λ s.
          read_at codec link (clock 0 0) (codes "ab") s
          ≡ ok (if codes "ab" == codes "ab" then some two else none))
        servers'
rtable_get-rtable_put_example =
    rtable_get-rtable_put codec link link-Reliable 3 clock (clock 0 0) chain (λ k. none)
      (codes "ab") (codes "ab") two (omega arith) (omega arith) chain-Replicas ab-Ascii ab-Ascii
      (omega arith) (record { fits = omega arith; some_octets = omega arith; unpacks = refl })
      (record { fits = omega arith; some_octets = omega arith; unpacks = refl })
      (record { fits = omega arith; some_octets = omega arith; unpacks = refl })
      (record { fits = omega arith; some_octets = omega arith; unpacks = refl })

-- A server with the keys "b" and "ca".
abbrev full : Server
full = record server { table = table }

full-Represents : Represents full (contents table)
full-Represents =
    let h = contents-Holds table table-IsValid in record { valid = h.valid; reads = h.reads }

abbrev connect : Key → Option Server
connect k = some full

prev_of_node3 : select_prev_server (codes "node3") nodes ≡ some (codes "node2")
unfolding select_prev_server bubble_sort rounds pass last_below
prev_of_node3 = refl

full-Carried :
    (o : Option (List Entry))
    → get_all_entries full.table ≡ ok o
    → CarriedReply codec (table_reply o)
full-Carried o q =
    let e = ok-injective _ _ (sym (get_all_entries_lem table table-IsValid) ∙ q) in
    subst (λ (o : Option (List Entry)). CarriedReply codec (table_reply o)) e
      (record { fits = omega arith; some_octets = omega arith; unpacks = refl })

join-Replicas_example :
    (t' : Table) × (join codec link connect (clock 0 0) (codes "node3") nodes server.table ≡ ok t')
    × Replicas (full ∷ record server { table = t' } ∷ []) (contents table)
join-Replicas_example =
    join-Replicas codec link connect (clock 0 0) (codes "node3") (codes "node2") nodes full
      (full ∷ []) server (contents table) link-Reliable prev_of_node3 refl (here refl)
      (full-Represents, tt) (omega arith, (omega arith, tt)) server-Represents
      (record { fits = omega arith; some_octets = omega arith; unpacks = refl }) full-Carried
