-- ===== src/Store/ChainTests.antt =====
-- The theorems on the chain of servers and on the connection, on concrete ones.
use sd.Common.{
  ℕ, ◌+◌, ◌^◌, ◌<◌, ◌≡◌, refl, true, Option, none, some, List, [], ◌∷◌, ◌++◌, All, length, take,
  drop, ok, text_eq, arith,
}
use sd.Proto.Text.{codes}
use sd.Store.Keys.{Key}
use sd.Store.SortedList.{list_add}
use sd.Store.Table.{Table, done, table_put, table_get}
use sd.Store.Server.{Server}
use sd.Store.Server.Session.{Access, put_key, get_key, delete_key}
use sd.Store.Tests.{server, server-Represents, one, two}
use sd.Store.Chain.{select_next_server}
use sd.Store.Chain.Neighbours.{NextOf, select_next_server_lem}
use sd.Store.Chain.Replication.{Clock, chain_session}
use sd.Store.Chain.Delivery.{Replicas, chain_requests, map_session, chain_session-accesses}
use sd.Store.Chain.Interleaving.{Pair, put_locally, put_remotely, Run, stay, step}
use sd.Store.Chain.Interleaving.Orders.{put_remotely-diverges, AllInOrder-converges}
use sd.Store.Chain.Merge.{Holds}
use sd.Store.Wire.{
  copy_keys, key_array_to_buffer, buffer_to_key_array, Write, write_interrupted, wrote, got,
  network_send, network_receive,
}
use sd.Store.Wire.Keys.{buffer_to_key_array-key_array_to_buffer}
use sd.Store.Wire.Framing.{network_receive-network_send, network_receive-cut}

abbrev pub nodes : List Key
nodes = codes "node3" ∷ codes "node1" ∷ codes "node2" ∷ []

select_next_server_lem_example :
    NextOf (codes "node1") nodes (select_next_server (codes "node1") nodes)
select_next_server_lem_example = select_next_server_lem (codes "node1") nodes

abbrev pub clock : Clock
clock depth ops =
    (record { tv_sec = depth; tv_usec = ops }, record { tv_sec = depth + 1; tv_usec = ops })

-- Three servers with empty tables.
abbrev pub chain : List Server
chain = server ∷ server ∷ server ∷ []

pub chain-Replicas : Replicas chain (λ k. none)
chain-Replicas = (server-Represents, (server-Represents, (server-Represents, tt)))

pub ab-Ascii : All (λ c. c < 128) (codes "ab")
ab-Ascii = (omega arith, (omega arith, tt))

abbrev chain_turns : List (Clock × Access)
chain_turns =
    (clock, put_key (codes "ab") (7 ∷ []))
    ∷ (clock, get_key (codes "ab"))
    ∷ (clock, delete_key (codes "ab"))
    ∷ []

chain_session-accesses_example :
    (servers' : List Server) × (chain_session 3 (chain_requests chain_turns) chain
      ≡ ok (servers', (map_session chain_turns (λ k. none)).1))
    × Replicas servers' (map_session chain_turns (λ k. none)).0
chain_session-accesses_example =
    chain_session-accesses 3 chain_turns chain (λ k. none) (omega arith) (omega arith)
      chain-Replicas (ab-Ascii, (ab-Ascii, (ab-Ascii, tt)))

buffer_to_key_array-key_array_to_buffer_example :
    ((key_array_to_buffer nodes).0 ≡ length (key_array_to_buffer nodes).1)
    × (buffer_to_key_array (key_array_to_buffer nodes).1 ≡ ok nodes)
buffer_to_key_array-key_array_to_buffer_example =
    buffer_to_key_array-key_array_to_buffer nodes (omega arith) few
  where
    few : 4 + length (copy_keys nodes) < 2 ^ 31
    few = unfold copy_keys in omega arith

-- Messages that are their own octets.
abbrev pack : List ℕ → List ℕ
pack msg = msg

abbrev unpack : List ℕ → Option (List ℕ)
unpack buf = some buf

-- Two octets at a time, with an interruption.
abbrev writes : List Write
writes = wrote 2 ∷ write_interrupted ∷ wrote 2 ∷ wrote 2 ∷ []

abbrev message : List ℕ
message = 8 ∷ 10 ∷ 0 ∷ 7 ∷ 9 ∷ []

network_receive-network_send_example :
    network_receive pack unpack (got 5) ((network_send pack unpack writes message).0 ++ 1 ∷ [])
    ≡ ok (some message, 1 ∷ [])
network_receive-network_send_example =
    network_receive-network_send pack unpack writes 5 message (1 ∷ []) (omega arith) (omega arith)
      (omega arith) (omega arith) refl

network_receive-cut_example :
    network_receive pack unpack (got 3) ((network_send pack unpack writes message).0 ++ 1 ∷ [])
    ≡ ok (unpack (take 3 (pack message)), drop 3 (pack message) ++ 1 ∷ [])
network_receive-cut_example =
    network_receive-cut pack unpack writes 3 message (1 ∷ []) (omega arith) (omega arith)
      (omega arith) (omega arith)

empty-Holds : Holds server.table (λ k. none)
empty-Holds = record { valid = server-Represents.valid; reads = server-Represents.reads }

put_remotely-diverges_example :
    (s : Pair) × Run (record { head = server.table; next = server.table; pending = [] }) s
    × (s.pending ≡ [])
    × (table_get (some (codes "ab")) s.head ≡ ok (some one))
    × (table_get (some (codes "ab")) s.next ≡ ok (some two))
put_remotely-diverges_example =
    put_remotely-diverges (codes "ab") two one server.table server.table (λ k. none) empty-Holds
      empty-Holds ab-Ascii refl refl

-- The table of the server after a put of "ab".
abbrev after_put : Table
after_put = record {
  size = 1;
  rows = 1;
  lists = record { size = 1; nodes = record { key = codes "ab"; value = two } ∷ [] } ∷ [];
}

put_ab : table_put true true (some (codes "ab")) (some two) server.table ≡ ok (after_put, done)
unfolding table_put list_add
put_ab = refl

-- The next server has two rows.
abbrev wide : Table
wide = record {
  size = 0;
  rows = 2;
  lists = record { size = 0; nodes = [] } ∷ record { size = 0; nodes = [] } ∷ [];
}

wide-Holds : Holds wide (λ k. none)
unfolding table_get
wide-Holds = record {
  valid = record {
    some_rows = omega arith;
    counted_rows = refl;
    sound = (
      (record { sorted = tt; valid = refl; counted = refl }, tt),
      ((record { sorted = tt; valid = refl; counted = refl }, tt), tt),
    );
    counted = refl;
  };
  reads = λ k a. refl;
}

abbrev wide_after_put : Table
wide_after_put = record {
  size = 1;
  rows = 2;
  lists =
      record { size = 0; nodes = [] }
      ∷ record { size = 1; nodes = record { key = codes "ab"; value = two } ∷ [] }
      ∷ [];
}

put_ab_wide : table_put true true (some (codes "ab")) (some two) wide ≡ ok (wide_after_put, done)
unfolding table_put list_add
put_ab_wide = refl

abbrev both_empty : Pair
both_empty = record { head = server.table; next = wide; pending = [] }

abbrev both_put : Pair
both_put = record { head = after_put; next = wide_after_put; pending = [] }

-- A put, and the call of the next server.
abbrev put_run : Run both_empty both_put
put_run =
    step (put_locally (codes "ab") two after_put ab-Ascii refl put_ab refl)
      (step (put_remotely [] [] (codes "ab") two wide_after_put refl put_ab_wide refl) stay)

AllInOrder-converges_example :
    table_get (some (codes "ab")) wide_after_put ≡ table_get (some (codes "ab")) after_put
AllInOrder-converges_example =
    AllInOrder-converges server.table wide (λ k. none) both_put put_run empty-Holds wide-Holds
      (tt, (refl, tt)) refl (codes "ab") ab-Ascii
