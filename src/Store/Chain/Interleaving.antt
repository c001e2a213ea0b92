-- ===== src/Store/Chain/Interleaving.antt =====
-- Puts of several clients at one server of the chain: source/table_skel.c holds the lock of the table
-- for the call of `table_put` only, and a thread of source/network_server.c calls the next server
-- after that.
pub mod Orders
use sd.Common.{ℕ, ◌≡◌, true, some, List, [], ◌∷◌, ◌++◌, ok}
use sd.Store.Keys.{Key}
use sd.Store.SortedList.{Data, data_valid}
use sd.Store.Table.{Table, done, table_put}
use sd.Store.Server.Session.{Ascii}

-- The tables of a server and of the next one, and the puts that threads of the first one have still
-- to pass on, in the order in which they changed its table.
pub record Pair : Type 0 where
  pub head : Table
  pub next : Table
  pub pending : List (Key × Data)

-- A step of one of the threads.
pub data Step (s : Pair) (s' : Pair) : Type 0 where
  -- A put of an ASCII key and a value with bytes, under the lock.
  put_locally :
      (k : Key) (d : Data) (t : Table)
      → Ascii k
      → data_valid d ≡ true
      → table_put true true (some k) (some d) s.head ≡ ok (t, done)
      → s' ≡ record { head = t; next = s.next; pending = s.pending ++ (k, d) ∷ [] }
      → Step s s'
  -- A thread passes its put on, after those of `before`.
  put_remotely :
      (before after : List (Key × Data)) (k : Key) (d : Data) (t : Table)
      → s.pending ≡ before ++ (k, d) ∷ after
      → table_put true true (some k) (some d) s.next ≡ ok (t, done)
      → s' ≡ record { head = s.head; next = t; pending = before ++ after }
      → Step s s'

-- A step that passes puts on in their order only.
abbrev pub InOrder : {s s' : Pair} → Step s s' → Type 0
InOrder (put_locally k d t a v e q) = Unit
InOrder (put_remotely before after k d t p e q) = before ≡ []

pub data Run : Pair → Pair → Type 0 where
  stay : {s : Pair} → Run s s
  step : {s s' s'' : Pair} → Step s s' → Run s' s'' → Run s s''

-- All steps of the run pass puts on in their order.
abbrev pub AllInOrder : {s s' : Pair} → Run s s' → Type 0
AllInOrder stay = Unit
AllInOrder (step p run) = InOrder p × AllInOrder run
