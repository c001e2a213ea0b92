-- ===== src/Store/Tests.antt =====
-- The theorems on lists, tables and the server, on concrete ones.
use sd.Common.{
  eqb, ltb, suc, ℕ, ◌+◌, ◌-◌, ◌*◌, ◌%◌, ◌^◌, ◌<◌, ◌≤◌, ◌≡◌, refl, Bool, true, false, Option, none,
  some, List, [], ◌∷◌, ◌++◌, All, maybe, if◌then◌else◌, ok, replicate, ◌==◌, text_eq, arith,
}
use sd.Proto.Text.{codes}
use sd.Store.Keys.{Key}
use sd.Store.SortedList.{
  Data, Entry, Chain, added, replaced, list_add, removed, missing, list_remove, list_get,
}
use sd.Store.SortedList.Order.{WellFormed}
use sd.Store.SortedList.Map.{list_add_lem, list_remove_lem}
use sd.Store.Table.{
  get_all_entries, Table, done, row, hash_code, table_put, table_get, table_remove,
}
use sd.Store.Table.Entries.{all_nodes, get_all_entries_lem}
use sd.Store.Table.Map.{IsValid, table_get-table_put}
use sd.Store.Table.Remove.{table_get-table_remove}
use sd.Store.Server.{
  Server, Forward, remote_put, max_retries, forward, Timeval, update_stats, invoke, put, put_done,
}
use sd.Store.Server.Retry.{forward_reaches}
use sd.Store.Server.GivenUp.{forward_gives_up}
use sd.Store.Server.Elapsed.{update_stats_lem}
use sd.Store.Server.Session.{
  Access, assign, put_key, get_key, delete_key, Represents, Env, session, accesses,
}
use sd.Store.Server.Refinement.{session-accesses, requests}

abbrev pub one : Data
one = record { bytes = 1 ∷ [] }

abbrev pub two : Data
two = record { bytes = 2 ∷ 2 ∷ [] }

abbrev entry_b : Entry
entry_b = record { key = codes "b"; value = one }

abbrev entry_ca : Entry
entry_ca = record { key = codes "ca"; value = two }

-- The keys "b" and "ca".
abbrev entries : Chain
entries = record { size = 2; nodes = entry_b ∷ entry_ca ∷ [] }

entries-WellFormed : WellFormed entries
entries-WellFormed = record { sorted = ((refl, tt), (tt, tt)); valid = refl; counted = refl }

abbrev entry_c : Entry
entry_c = record { key = codes "c"; value = two }

list_add_lem_example :
    WellFormed (list_add true entry_c entries).0
    × ((list_add true entry_c entries).1
        ≡ maybe (list_get entry_c.key entries) added (λ x. replaced))
    × ((j : Key)
        → list_get j (list_add true entry_c entries).0
          ≡ (if j == entry_c.key then some entry_c else list_get j entries))
list_add_lem_example = list_add_lem entry_c entries entries-WellFormed refl

list_remove_lem_example :
    WellFormed (list_remove (codes "b") entries).0
    × ((list_remove (codes "b") entries).1
        ≡ maybe (list_get (codes "b") entries) missing (λ x. removed))
    × ((j : Key)
        → list_get j (list_remove (codes "b") entries).0
          ≡ (if codes "b" == j then none else list_get j entries))
list_remove_lem_example = list_remove_lem (codes "b") entries entries-WellFormed

-- The keys "b" and "ca" of hash 98 and 196, in two rows.
abbrev pub table : Table
table = record { size = 2; rows = 2; lists = entries ∷ record { size = 0; nodes = [] } ∷ [] }

pub table-IsValid : IsValid table
table-IsValid = record {
  some_rows = omega arith;
  counted_rows = refl;
  sound = (
    (entries-WellFormed, (unfold hash_code in refl, (unfold hash_code in refl, tt))),
    ((record { sorted = tt; valid = refl; counted = refl }, tt), tt),
  );
  counted = refl;
}

row_b : hash_code (codes "b") 2 ≡ row 0
unfolding hash_code
row_b = refl

row_c : hash_code (codes "c") 2 ≡ row 1
unfolding hash_code
row_c = refl

table_get-table_put_example :
    (t' : Table) × (table_put true true (some (codes "c")) (some two) table ≡ ok (t', done))
    × IsValid t'
    × (t'.rows ≡ table.rows)
    × (table_get (some (codes "b")) t'
        ≡ (if codes "b" == codes "c" then ok (some two) else table_get (some (codes "b")) table))
table_get-table_put_example =
    table_get-table_put table (codes "c") (codes "b") two 1 0 table-IsValid row_c row_b refl

table_get-table_remove_example :
    (t' : Table) × (o : Option Data) × (table_get (some (codes "b")) table ≡ ok o)
    × (table_remove (some (codes "b")) table ≡ ok (t', maybe o missing (λ d. removed)))
    × IsValid t'
    × (t'.rows ≡ table.rows)
    × (table_get (some (codes "c")) t'
        ≡ (if codes "b" == codes "c" then ok none else table_get (some (codes "c")) table))
table_get-table_remove_example =
    table_get-table_remove table (codes "b") (codes "c") 0 1 table-IsValid row_b row_c

get_all_entries_lem_example :
    get_all_entries table ≡ ok (if eqb table.size 0 then none else some (all_nodes table.lists))
get_all_entries_lem_example = get_all_entries_lem table table-IsValid

abbrev pub server : Server
server = record {
  table = record { size = 0; rows = 1; lists = record { size = 0; nodes = [] } ∷ [] };
  stats = record { clients_connected = 0; num_ops = 0; total_time_microseconds = 0 };
  forwarded = [];
}

pub server-Represents : Represents server (λ k. none)
unfolding table_get
server-Represents = record {
  valid = record {
    some_rows = omega arith;
    counted_rows = refl;
    sound = ((record { sorted = tt; valid = refl; counted = refl }, tt), tt);
    counted = refl;
  };
  reads = λ k a. refl;
}

-- The third call and the later ones succeed.
abbrev flaky : ℕ → Bool
flaky n = ltb 1 n

abbrev early : Timeval
early = record { tv_sec = 5; tv_usec = 900000 }

abbrev late : Timeval
late = record { tv_sec = 6; tv_usec = 100000 }

abbrev env : Env
env = (some flaky, (early, late))

-- A put, a get of the same key and of another one, a delete, and a get again.
abbrev turns : List (Env × Access)
turns =
    (env, put_key (codes "ab") (7 ∷ []))
    ∷ (env, get_key (codes "ab"))
    ∷ (env, get_key (codes "ba"))
    ∷ (env, delete_key (codes "ab"))
    ∷ (env, get_key (codes "ab"))
    ∷ []

session-accesses_example :
    (s' : Server) × (session (requests turns) server ≡ ok (s', (accesses turns (λ k. none)).1))
    × Represents s' (accesses turns (λ k. none)).0
session-accesses_example =
    session-accesses turns server (λ k. none) server-Represents (ab, (ab, (ba, (ab, (ab, tt)))))
  where
    ab : All (λ c. c < 128) (codes "ab")
    ab = (omega arith, (omega arith, tt))

    ba : All (λ c. c < 128) (codes "ba")
    ba = (omega arith, (omega arith, tt))

abbrev call : Forward
call = remote_put (codes "ab") one

forward_reaches_example :
    (i : ℕ) × (i ≤ 4)
    × (flaky i ≡ true)
    × ((forward (some flaky) call server).forwarded ≡ server.forwarded ++ replicate (suc i) call)
forward_reaches_example = forward_reaches flaky 4 call server (omega arith) refl

forward_gives_up_example :
    (s' : Server) × (invoke
        (some (λ n. false))
        (early, late)
        (put (some (some (codes "ab"), some one.bytes)))
        server
      ≡ ok (s', put_done))
    × Represents s' (assign (codes "ab") (some one) (λ k. none))
    × (s'.forwarded ≡ server.forwarded ++ replicate max_retries call)
forward_gives_up_example =
    forward_gives_up (λ n. false) (early, late) server (λ k. none) (codes "ab") one
      server-Represents (omega arith, (omega arith, tt)) (omega arith) (λ j b. refl)

update_stats_lem_example :
    ((update_stats (early, late) server).stats.num_ops ≡ 0 + 1)
    × ((update_stats (early, late) server).stats.total_time_microseconds
        ≡ (0 + 200000 + (2 ^ 64 - 1 * 1000000)) % 2 ^ 64)
update_stats_lem_example =
    update_stats_lem early late 200000 1 server refl refl (omega arith) (omega arith)
