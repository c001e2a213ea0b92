-- ===== src/Store/Chain/Replication.antt =====
-- What the servers of the chain do with a request that one of them gets: source/table_skel.c, with
-- the calls of source/client_stub.c answered by the next server and the servers after it.
use sd.Common.{
  ℕ, zero, suc, ◌-◌, Bool, false, Option, none, some, List, [], ◌∷◌, length, Outcome, ok, err,
  ◌>>=◌,
}
use sd.Store.Table.{Fault}
use sd.Store.Server.{Request, Reply, error, Server, Timeval, invoke}
use sd.Store.Server.Sent.{succeeded}

-- The start and the end of a request: by the server, counted from the end of the chain, and the
-- operations that it counted before.
abbrev pub Clock : Type 0
Clock = ℕ → ℕ → Timeval × Timeval

abbrev pub call_result : Outcome Fault (List Server × Reply) → Bool
call_result (ok r) = succeeded r.1
call_result (err f) = false

-- The rest of the chain, by what it does with the request that is forwarded.
module _ (serve : List Server → Outcome Fault (List Server × Reply)) where
  -- The rest of the chain after so many calls.
  unfoldable pub repeat_calls : ℕ → List Server → Outcome Fault (List Server)
  repeat_calls zero rest = ok rest
  repeat_calls (suc n) rest = serve rest >>= λ r. repeat_calls n r.0

  -- Whether a call after `n` others succeeds.
  abbrev pub answer : List Server → ℕ → Bool
  answer rest n = call_result (repeat_calls n rest >>= serve)

  -- `next_server`, which is NULL at the tail.
  abbrev pub next_server : List Server → Option (ℕ → Bool)
  next_server [] = none
  next_server (s ∷ rest) = some (answer (s ∷ rest))

-- A request to put or to delete, at the first of the servers: the calls that it forwards carry the
-- same key and bytes to the next server. `depth` bounds the servers that are passed.
unfoldable pub chain_invoke :
    ℕ → Clock → Request → List Server → Outcome Fault (List Server × Reply)
unfolding repeat_calls invoke
chain_invoke depth clock q [] = ok ([], error)
chain_invoke zero clock q (s ∷ rest) = ok (s ∷ rest, error)
chain_invoke (suc depth) clock q (s ∷ rest) =
    let serve = chain_invoke depth clock q in
    invoke (next_server serve rest) (clock depth s.stats.num_ops) q s >>= λ r.
    repeat_calls serve (length r.0.forwarded - length s.forwarded) rest >>= λ rest'.
    ok (r.0 ∷ rest', r.1)

-- Requests one after another, at the first server.
unfoldable pub chain_session :
    ℕ → List (Clock × Request) → List Server → Outcome Fault (List Server × List Reply)
unfolding chain_invoke
chain_session depth [] servers = ok (servers, [])
chain_session depth ((clock, q) ∷ turns) servers = chain_invoke depth clock q servers >>= λ r.
    chain_session depth turns r.0 >>= λ rest. ok (rest.0, r.1 ∷ rest.1)
