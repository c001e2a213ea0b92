-- ===== src/Store/Server/Sent.antt =====
-- How many calls of the next server an access makes.
use mathlib.Core.Path.{subst}
use sd.Common.{
  ℕ, ◌+◌, ◌≡◌, refl, ap, sym, ◌∙◌, Bool, true, false, Option, none, some, List, length, maybe,
  ◌>>=◌, Outcome, ok, err, arith, length-append, length-replicate, replicate, if◌then◌else◌,
}
use sd.Store.Keys.{Key}
use sd.Store.SortedList.{Data, data_create, RemoveResult, invalid, removed, missing}
use sd.Store.Table.{Table, PutResult, done, refused, Fault, table_put, table_remove, table_get}
use sd.Store.Server.{
  Reply, error, put_done, delete_done, value, result, keys, entries, statistics, Server, Forward,
  Timeval, calls, max_retries, forward, put_reply, update_stats, del_reply, invoke_put, invoke_del,
  invoke, remote_put, remote_del,
}
use sd.Store.Server.Session.{Access, put_key, get_key, delete_key, request, ok-injective}

-- `rtable_put` and `rtable_del` give -1 for the opcode of an error.
abbrev pub succeeded : Reply → Bool
succeeded error = false
succeeded put_done = true
succeeded delete_done = true
succeeded (value d) = true
succeeded (result n) = true
succeeded (keys ks) = true
succeeded (entries es) = true
succeeded (statistics s) = true

-- The calls of the next server that an access makes, by its reply.
abbrev pub sent : Option (ℕ → Bool) → Access → Reply → ℕ
sent next (get_key k) r = 0
sent next (put_key k bytes) r = if succeeded r then maybe next 0 (calls max_retries) else 0
sent next (delete_key k) r = if succeeded r then maybe next 0 (calls max_retries) else 0

length-forward :
    (next : Option (ℕ → Bool)) (call : Forward) (s : Server)
    → length (forward next call s).forwarded ≡ length s.forwarded + maybe next 0 (calls max_retries)
unfolding forward
length-forward none call s = omega arith
length-forward (some answers) call s =
    let n = calls max_retries answers in
    length-append s.forwarded (replicate n call)
    ∙ ap (length s.forwarded +◌) (length-replicate n call)

-- What holds of all that a step can give holds of what it gave.
through :
    {A : Type 0} (P : Server × Reply → Type 0) (m : Outcome Fault A) (f : A → Server × Reply)
    (p : Server × Reply)
    → ((x : A) → m ≡ ok x → P (f x))
    → (m >>= λ x. ok (f x)) ≡ ok p
    → P p
through P (ok x) f p g h = subst P (ok-injective (f x) p h) (g x refl)
through P (err e) f p g h = absurd (cc)

module _ (next : Option (ℕ → Bool)) (time : Timeval × Timeval) where
  put_reply-sent :
      (s : Server) (o : Option Data) (result : PutResult) (k : Key) (bytes : List ℕ)
      → (o ≡ none → result ≡ refused)
      → length (put_reply next time s result o k).0.forwarded
        ≡ length s.forwarded + sent next (put_key k bytes) (put_reply next time s result o k).1
  put_reply-sent s o refused k bytes h = omega arith
  put_reply-sent s none done k bytes h = absurd (let z = h refl in cc)
  put_reply-sent s (some d) done k bytes h = length-forward next (remote_put k d) s

  del_reply-sent :
      (s : Server) (result : RemoveResult) (k : Key)
      → length (del_reply next time s result k).0.forwarded
        ≡ length s.forwarded + sent next (delete_key k) (del_reply next time s result k).1
  del_reply-sent s invalid k = omega arith
  del_reply-sent s missing k = omega arith
  del_reply-sent s removed k = length-forward next (remote_del k) s

  refused_none :
      (k : Key) (o : Option Data) (s : Server) (p : Table × PutResult)
      → table_put true true (some k) o s.table ≡ ok p
      → o ≡ none
      → p.1 ≡ refused
  unfolding table_put
  refused_none k o s p e z = let q = rw z at e in ap (λ x. x.1) (sym (ok-injective _ _ q))

  pub invoke-sent :
      (a : Access) (s : Server) (p : Server × Reply)
      → invoke next time (request a) s ≡ ok p
      → length p.0.forwarded ≡ length s.forwarded + sent next a p.1
  unfolding invoke invoke_put invoke_del
  invoke-sent (put_key k bytes) s p h =
      through
        (λ (p : Server × Reply).
          length p.0.forwarded ≡ length s.forwarded + sent next (put_key k bytes) p.1)
        (table_put true true (some k) (data_create bytes) s.table)
        (λ r. put_reply next time (record s { table = r.0 }) r.1 (data_create bytes) k) p
        (λ x e.
          put_reply-sent (record s { table = x.0 }) (data_create bytes) x.1 k bytes
            (refused_none k (data_create bytes) s x e))
        h
  invoke-sent (delete_key k) s p h =
      through
        (λ (p : Server × Reply).
          length p.0.forwarded ≡ length s.forwarded + sent next (delete_key k) p.1)
        (table_remove (some k) s.table) (λ r. del_reply next time (record s { table = r.0 }) r.1 k)
        p (λ x e. del_reply-sent (record s { table = x.0 }) x.1 k) h
  invoke-sent (get_key k) s p h =
      through (λ (p : Server × Reply). length p.0.forwarded ≡ length s.forwarded + 0)
        (table_get (some k) s.table) (λ d. (update_stats time s, maybe d error value)) p
        (λ x e. omega arith) h
