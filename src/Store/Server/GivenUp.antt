-- ===== src/Store/Server/GivenUp.antt =====
-- A put whose forwarding fails: what the client, this server and the next one have of it.
use mathlib.Core.Path.{subst}
use sd.Common.{
  ℕ, ◌<◌, ◌≡◌, refl, ap, sym, ◌∙◌, Bool, true, false, Option, some, ◌++◌, length, maybe, replicate,
  ok, ◌>>=◌, leb, if_false, arith, text_eq,
}
use sd.Store.Keys.{Key}
use sd.Store.SortedList.{Data, data_create}
use sd.Store.Table.{done, table_put}
use sd.Store.Server.{
  error, put, Reply, put_done, remote_put, Server, Timeval, max_retries, calls, forward, put_reply,
  invoke, invoke_put,
}
use sd.Store.Server.Retry.{calls-fail}
use sd.Store.Server.Session.{
  Ascii, FiniteMap, assign, put_key, Represents, Env, put-Represents, ok-injective,
}
use sd.Store.Server.Refinement.{invoke-access}

pub data_create_lem : (d : Data) → 0 < length d.bytes → data_create d.bytes ≡ some d
unfolding data_create
data_create_lem d h = let z : leb (length d.bytes) 0 ≡ false = ground arith in if_false _ _ z

module _ (answers : ℕ → Bool) (time : Timeval × Timeval) (s : Server) (m : FiniteMap) (k : Key)
    (d : Data) (r : Represents s m) (a : Ascii k) (pos : 0 < length d.bytes) where
  -- The server after the put, and what it has called.
  invoke_put-forwarded :
      (s' : Server) × (invoke (some answers) time (put (some (some k, some d.bytes))) s
        ≡ ok (s', put_done))
      × (s'.forwarded ≡ s.forwarded ++ replicate (calls max_retries answers) (remote_put k d))
  unfolding invoke invoke_put forward
  invoke_put-forwarded =
      let env : Env = (some answers, time) in
      let (t, e, v, reads) = put-Represents env s m k r a d (ground arith) in
      (
        (put_reply (some answers) time (record s { table = t }) done (some d) k).0,
        ap
              (λ (o : Option Data). table_put true true (some k) o s.table >>= λ r.
                ok (put_reply (some answers) time (record s { table = r.0 }) r.1 o k))
              (data_create_lem d pos)
            ∙ ap
                (λ o. o >>= λ r.
                  ok (put_reply (some answers) time (record s { table = r.0 }) r.1 (some d) k))
                e,
        refl,
      )

  put_access : Option Data → FiniteMap × Reply
  put_access o = maybe o (m, error) (λ d. (assign k (some d) m, put_done))

  -- A server whose table stands for a map gets a put, and the next server fails all calls: the put
  -- is given up after ten of them, which are the same request again; all the same the client is
  -- told that it is done, and the table of this server has the change, and no other. The key has
  -- ASCII characters only, the value has bytes, and there is memory.
  pub forward_gives_up :
      ((j : ℕ) → j < max_retries → answers j ≡ false)
      → (s' : Server) × (invoke (some answers) time (put (some (some k, some d.bytes))) s
          ≡ ok (s', put_done))
        × Represents s' (assign k (some d) m)
        × (s'.forwarded ≡ s.forwarded ++ replicate max_retries (remote_put k d))
  unfolding put_access
  forward_gives_up fails =
      let (s', q, f) = invoke_put-forwarded in
      let (s2, e, rep) = invoke-access (some answers, time) (put_key k d.bytes) s m r a in
      let same : s2 ≡ s' = ap (λ p. p.0) (ok-injective _ _ (sym e ∙ q)) in
      (
        s',
        q,
        subst (λ (s : Server). Represents s (assign k (some d) m)) same
            (subst (λ (o : Option Data). Represents s2 (put_access o).0) (data_create_lem d pos)
              rep),
        f
            ∙ ap (λ (n : ℕ). s.forwarded ++ replicate n (remote_put k d))
                (calls-fail max_retries answers fails),
      )
