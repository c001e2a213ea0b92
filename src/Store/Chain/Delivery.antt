-- ===== src/Store/Chain/Delivery.antt =====
-- The servers of the chain stay replicas of one map.
use mathlib.Core.Path.{subst}
use sd.Common.{
  ℕ, zero, suc, ◌+◌, ◌-◌, ◌≤◌, ◌<◌, ◌≡◌, refl, ap, sym, ◌∙◌, Bool, true, false, none, List, [], ◌∷◌,
  All, length, maybe, inl, inr, Bool-cases, Option-cases, Outcome, ok, ◌>>=◌, if_true, if_false,
  arith, if◌then◌else◌, ◌==◌, text_eq,
}
use sd.Store.Keys.{Key}
use sd.Store.SortedList.{data_create}
use sd.Store.Table.{Fault}
use sd.Store.Server.{Request, Reply, Server, calls, max_retries}
use sd.Store.Server.Retry.{calls-succeed}
use sd.Store.Server.Sent.{succeeded, sent, invoke-sent}
use sd.Store.Server.Session.{
  Access, put_key, get_key, delete_key, key_of, request, Ascii, FiniteMap, assign, access,
  Represents,
}
use sd.Store.Server.Refinement.{invoke-access}
use sd.Store.Chain.Replication.{
  Clock, call_result, repeat_calls, answer, next_server, chain_invoke, chain_session,
}

-- All servers hold the map.
abbrev pub Replicas : List Server → FiniteMap → Type 0
Replicas servers m = All (λ s. Represents s m) servers

-- The map stays what it is under a key that it does not have.
assign-none :
    (k : Key) (m : FiniteMap) (servers : List Server)
    → m k ≡ none
    → Replicas servers m
    → Replicas servers (assign k none m)
assign-none k m [] z r = tt
assign-none k m (s ∷ servers) z r = (
  record {
    valid = r.0.valid;
    reads = λ j b.
        r.0.reads j b
        ∙ ap ok (elim (Bool-cases (k == j)) [
          | inl t ↦ ap m (sym ((text_eq.beq_iff k j).0 t)) ∙ z ∙ sym (if_true _ _ t)
          | inr t ↦ sym (if_false _ _ t)
        ]);
  },
  assign-none k m servers z r.1,
)

-- What the servers of a chain promise of an access: they all hold the map's next state, and the
-- reply is that of the map.
abbrev pub Serves : Access → FiniteMap → List Server → Outcome Fault (List Server × Reply) → Type 0
Serves a m servers o =
    (servers' : List Server) × (o ≡ ok (servers', (access a m).1))
    × Replicas servers' (access a m).0
    × (length servers' ≡ length servers)

-- The rest of the chain after the calls that an access makes.
abbrev After : Access → FiniteMap → List Server → Outcome Fault (List Server) → Type 0
After a m rest o =
    (rest' : List Server) × (o ≡ ok rest')
    × Replicas rest' (access a m).0
    × (length rest' ≡ length rest)

calls-one : (answers : ℕ → Bool) → answers 0 ≡ true → calls max_retries answers ≡ 1
calls-one answers h =
    let (i, le, a, e) = calls-succeed max_retries 0 answers (omega arith) h in omega (arith, e)

module _ (serve : List Server → Outcome Fault (List Server × Reply)) (a : Access)
    (m : FiniteMap) where
  -- An access that succeeds is called once.
  one_call :
      (rest : List Server)
      → (0 < length rest → Serves a m rest (serve rest))
      → succeeded (access a m).1 ≡ true
      → After a m rest
          (repeat_calls serve (maybe (next_server serve rest) 0 (calls max_retries)) rest)
  unfolding repeat_calls
  one_call [] ih t = ([], refl, tt, refl)
  one_call (s ∷ rest) ih t =
      let (rest', e, reps, len) = ih (omega arith) in
      let yes_0 : answer serve (s ∷ rest) 0 ≡ true = ap call_result e ∙ t in
      let one : calls max_retries (answer serve (s ∷ rest)) ≡ 1 = calls-one _ yes_0 in
      (
        rest',
        ap (λ n. repeat_calls serve n (s ∷ rest)) one ∙ ap (λ o. o >>= λ r. ok r.0) e,
        reps,
        len,
      )

  -- An access that fails is not forwarded.
  no_call :
      (rest : List Server)
      → Replicas rest (access a m).0
      → After a m rest (repeat_calls serve 0 rest)
  unfolding repeat_calls
  no_call rest r = (rest, refl, r, refl)

-- An access that fails leaves the map as it is.
fails-Replicas :
    (a : Access) (m : FiniteMap) (rest : List Server)
    → succeeded (access a m).1 ≡ false
    → Replicas rest m
    → Replicas rest (access a m).0
fails-Replicas (get_key k) m rest t r = r
fails-Replicas (put_key k bytes) m rest t r = elim (Option-cases (data_create bytes)) [
  | inl q ↦ rw q r
  | inr (d, q) ↦ absurd (let z = rw q at t in cc)
]
fails-Replicas (delete_key k) m rest t r = elim (Option-cases (m k)) [
  | inl q ↦ assign-none k m rest q r
  | inr (d, q) ↦ absurd (let z = rw q at t in cc)
]

module _ (serve : List Server → Outcome Fault (List Server × Reply)) (a : Access) (m : FiniteMap)
    (rest : List Server) (r : Replicas rest m)
    (ih : 0 < length rest → Serves a m rest (serve rest)) where
  change_calls : After a m rest (
      repeat_calls serve
        (if succeeded (access a m).1
          then maybe (next_server serve rest) 0 (calls max_retries)
          else 0)
        rest)
  change_calls = elim (Bool-cases (succeeded (access a m).1)) [
    | inl t ↦
        subst (λ (n : ℕ). After a m rest (repeat_calls serve n rest)) (sym (if_true _ _ t))
          (one_call serve a m rest ih t)
    | inr t ↦
        subst (λ (n : ℕ). After a m rest (repeat_calls serve n rest)) (sym (if_false _ _ t))
          (no_call serve a m rest (fails-Replicas a m rest t r))
  ]

-- The calls that an access makes bring the rest of the chain to the map's next state.
After-calls :
    (serve : List Server → Outcome Fault (List Server × Reply)) (a : Access) (m : FiniteMap)
    (rest : List Server)
    → Replicas rest m
    → (0 < length rest → Serves a m rest (serve rest))
    → After a m rest (repeat_calls serve (sent (next_server serve rest) a (access a m).1) rest)
After-calls serve (get_key k) m rest r ih = no_call serve (get_key k) m rest r
After-calls serve (put_key k bytes) m rest r ih = change_calls serve (put_key k bytes) m rest r ih
After-calls serve (delete_key k) m rest r ih = change_calls serve (delete_key k) m rest r ih

-- A request on an ASCII key that the first of some servers gets, which all hold the same map, leaves
-- them all with the map's next state, and is answered as the map answers it; there is no fault.
pub chain_invoke-access :
    (depth : ℕ) (clock : Clock) (a : Access) (servers : List Server) (m : FiniteMap)
    → length servers ≤ depth
    → 0 < length servers
    → Ascii (key_of a)
    → Replicas servers m
    → Serves a m servers (chain_invoke depth clock (request a) servers)
unfolding chain_invoke
chain_invoke-access depth clock a [] m le lt k r = absurd (omega arith)
chain_invoke-access zero clock a (s ∷ rest) m le lt k r = absurd (omega arith)
chain_invoke-access (suc depth) clock a (s ∷ rest) m le lt k r =
    let serve = chain_invoke depth clock (request a) in
    let next = next_server serve rest in
    let time = clock depth s.stats.num_ops in
    let (s', e, rs) = invoke-access (next, time) a s m r.0 k in
    let n = sent next a (access a m).1 in
    let grown : length s'.forwarded ≡ length s.forwarded + n =
      invoke-sent next time a s (s', (access a m).1) e in
    let count : length s'.forwarded - length s.forwarded ≡ n = omega (arith, grown) in
    let (rest', e', rr, len) =
      After-calls serve a m rest r.1
        (λ lt'. chain_invoke-access depth clock a rest m (omega arith) lt' k r.1) in
    (
      s' ∷ rest',
      ap
            (λ o. o >>= λ p.
              repeat_calls serve (length p.0.forwarded - length s.forwarded) rest >>= λ rest'.
              ok (p.0 ∷ rest', p.1))
            e
          ∙ ap (λ j. repeat_calls serve j rest >>= λ rest'. ok (s' ∷ rest', (access a m).1)) count
          ∙ ap (λ o. o >>= λ rest'. ok (s' ∷ rest', (access a m).1)) e',
      (rs, rr),
      ap suc len,
    )

-- The turns of a session as the requests that the first server gets.
abbrev pub chain_requests : List (Clock × Access) → List (Clock × Request)
chain_requests [] = []
chain_requests ((clock, a) ∷ turns) = (clock, request a) ∷ chain_requests turns

-- What the map does with the accesses, one after another.
abbrev pub map_session : List (Clock × Access) → FiniteMap → FiniteMap × List Reply
map_session [] m = (m, [])
map_session ((clock, a) ∷ turns) m =
    let here = access a m in let rest = map_session turns here.0 in (rest.0, here.1 ∷ rest.1)

-- A session of requests on ASCII keys at the first server of a chain whose servers hold one map ends
-- without a fault; its replies are those of the map, and all servers of the chain hold the map's
-- last state. `depth` is any bound of the number of servers, there is memory for what is put, and no
-- connection fails.
pub chain_session-accesses :
    (depth : ℕ) (turns : List (Clock × Access)) (servers : List Server) (m : FiniteMap)
    → length servers ≤ depth
    → 0 < length servers
    → Replicas servers m
    → All (λ t. Ascii (key_of t.1)) turns
    → (servers' : List Server) × (chain_session depth (chain_requests turns) servers
        ≡ ok (servers', (map_session turns m).1))
      × Replicas servers' (map_session turns m).0
unfolding chain_session
chain_session-accesses depth [] servers m le lt r h = (servers, refl, r)
chain_session-accesses depth ((clock, a) ∷ turns) servers m le lt r h =
    let (s1, e1, r1, len) = chain_invoke-access depth clock a servers m le lt h.0 r in
    let (s2, e2, r2) =
      chain_session-accesses depth turns s1 (access a m).0 (omega arith) (omega arith) r1 h.1 in
    (
      s2,
      ap
            (λ o. o >>= λ r.
              chain_session depth (chain_requests turns) r.0 >>= λ rest. ok (rest.0, r.1 ∷ rest.1))
            e1
          ∙ ap (λ o. o >>= λ rest. ok (rest.0, (access a m).1 ∷ rest.1)) e2,
      r2,
    )
