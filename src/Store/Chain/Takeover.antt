-- ===== src/Store/Chain/Takeover.antt =====
-- A server that joins holds the map of its predecessor.
use mathlib.Core.Path.{subst}
use sd.Common.{
  ◌≡◌, refl, ap, sym, ◌∙◌, Option, none, some, List, [], ◌∷◌, ◌++◌, All, Among, here, there, maybe,
  inl, inr, Bool-cases, Outcome, ok, ◌>>=◌, if_true, if_false, text_eq, eqb,
}
use sd.Store.Keys.{Key}
use sd.Store.SortedList.{Data, Entry}
use sd.Store.Table.{Fault, Table, get_all_entries}
use sd.Store.Table.Entries.{all_nodes, Found-all_nodes, get_all_entries_lem}
use sd.Store.Server.{Server, Reply, Timeval, entries, error, get_table, update_stats, invoke}
use sd.Store.Wire.Exchange.{Codec, Link, CallFault, in_server}
use sd.Store.Wire.Delivered.{Reliable, CarriedRequest, CarriedReply, call_lem}
use sd.Store.Server.Session.{Ascii, FiniteMap, Represents}
use sd.Store.Chain.{select_prev_server}
use sd.Store.Chain.Delivery.{Replicas}
use sd.Store.Chain.Merge.{Holds, merge_loop-Holds, entries_of}
use sd.Store.Chain.Joining.{
  received_entries, copy_entries, rtable_get_table, merge_loop, merge_tables, join,
}
use sd.Store.Chain.Sent.{over, merged_key, copy_entries-valid, no_entries}

-- The reply to a request for the table.
abbrev pub table_reply : Option (List Entry) → Reply
table_reply o = maybe o error entries

-- Merging, in the server, what was received if there was something.
merged :
    (t : Table) (es : Option (List Entry))
    → maybe es (ok t) (λ es. in_server (merge_loop es t))
      ≡ in_server (maybe es (ok t) (λ es. merge_loop es t))
merged t none = refl
merged t (some es) = refl

module _ (codec : Codec) (link : Link) (reliable : Reliable link)
    (asked : CarriedRequest codec get_table) (time : Timeval × Timeval) (prev : Server) where
  -- The reply that carries the table.
  abbrev pub CarriedTable : Type 0
  CarriedTable =
      (o : Option (List Entry))
      → get_all_entries prev.table ≡ ok o
      → CarriedReply codec (table_reply o)

  received :
      (t : Table) (o : Option (List Entry))
      → CarriedTable
      → get_all_entries prev.table ≡ ok o
      → merge_tables codec link time prev t
        ≡ in_server (maybe (maybe o none copy_entries) (ok t) (λ es. merge_loop es t))
  unfolding merge_tables rtable_get_table received_entries invoke
  received t o carried q =
      let reply_of : Option (List Entry) → Outcome Fault (Server × Reply) =
        λ es. ok (update_stats time prev, table_reply es) in
      ap
        (λ (x : Outcome CallFault (Server × Reply)).
          (x >>= λ r. answer r) >>= λ r. maybe r.1 (ok t) (λ es. in_server (merge_loop es t)))
        (call_lem codec (invoke none time) link reliable get_table prev (update_stats time prev)
          (table_reply o) asked (ap (λ x. x >>= reply_of) q) (carried o q))
      ∙ ap (λ (o : Option (List Entry)). maybe o (ok t) (λ es. in_server (merge_loop es t)))
          (taken o)
      ∙ merged t (maybe o none copy_entries)
    where
      answer : Server × Reply → Outcome CallFault (Server × Option (List Entry))
      answer r = ok (r.0, received_entries r.1)

      taken :
          (o : Option (List Entry)) → received_entries (table_reply o) ≡ maybe o none copy_entries
      taken none = refl
      taken (some es) = refl

  -- Merging what a predecessor sends leaves the table with the predecessor's map over its own; there
  -- is no fault.
  pub merge_tables-over :
      (t : Table) (m m0 : FiniteMap)
      → CarriedTable
      → Holds prev.table m
      → All (λ e. Ascii e.key) (all_nodes prev.table.lists)
      → Holds t m0
      → (t' : Table) × (merge_tables codec link time prev t ≡ ok t') × Holds t' (over m m0)
  merge_tables-over t m m0 carried h a h0 =
      let p = prev.table in
      let es = all_nodes p.lists in
      let f = entries_of p m es h a (Found-all_nodes p h.valid) in
      elim (Bool-cases (eqb p.size 0)) [
        | inl z ↦ (
          t,
          received t none carried (get_all_entries_lem p h.valid ∙ ap ok (if_true _ _ z)),
          record {
            valid = h0.valid;
            reads = λ j b. h0.reads j b ∙ ap ok (no_entries p m m0 j h z b);
          },
        )
        | inr z ↦
            let (t', q, h') = merge_loop-Holds es t m m0 h0 f in
            (
              t',
              received t (some es) carried (get_all_entries_lem p h.valid ∙ ap ok (if_false _ _ z))
                  ∙ ap
                      (λ (o : Option (List Entry)).
                        in_server (maybe o (ok t) (λ es. merge_loop es t)))
                      (copy_entries-valid m es f)
                  ∙ ap in_server q,
              record {
                valid = h'.valid;
                reads = λ j b. h'.reads j b ∙ ap ok (merged_key p m m0 j h f b);
              },
            )
      ]

  -- A server that finds a predecessor and is connected to it holds the predecessor's map over its
  -- own.
  pub join-over :
      (connect : Key → Option Server) (own k : Key) (children : List Key) (t : Table)
      (m m0 : FiniteMap)
      → select_prev_server own children ≡ some k
      → connect k ≡ some prev
      → CarriedTable
      → Holds prev.table m
      → All (λ e. Ascii e.key) (all_nodes prev.table.lists)
      → Holds t m0
      → (t' : Table) × (join codec link connect time own children t ≡ ok t') × Holds t' (over m m0)
  unfolding join
  join-over connect own k children t m m0 s c carried h a h0 =
      let (t', q, h') = merge_tables-over t m m0 carried h a h0 in
      (
        t',
        ap
              (λ o.
                maybe o (ok t)
                  (λ k. maybe (connect k) (ok t) (λ prev. merge_tables codec link time prev t)))
              s
            ∙ ap (λ o. maybe o (ok t) (λ prev. merge_tables codec link time prev t)) c
            ∙ q,
        h',
      )

Replicas-append :
    (servers : List Server) (s : Server) (m : FiniteMap)
    → Replicas servers m
    → Represents s m
    → Replicas (servers ++ s ∷ []) m
Replicas-append [] s m r h = (h, tt)
Replicas-append (x ∷ servers) s m r h = (r.0, Replicas-append servers s m r.1 h)

replica_of :
    (servers : List Server) (s : Server) (m : FiniteMap)
    → Among s servers
    → Replicas servers m
    → Represents s m
replica_of [] s m a r = elim a [ ]
replica_of (x ∷ servers) s m (here q) r = subst (λ x. Represents x m) (sym q) r.0
replica_of (x ∷ servers) s m (there a) r = replica_of servers s m a r.1

-- A server that starts with an empty table and finds one of the servers of a chain as its
-- predecessor joins as one more replica: the servers of the chain and the new one all hold the same
-- map. All keys of the predecessor have ASCII characters only; there is memory; the connection to
-- the predecessor does not fail, and each call of `read` for a message on it gives the whole
-- message; the request for the table and the reply with the table have at most 32767 octets each,
-- but not none, and are unpacked as they were packed.
pub join-Replicas :
    (codec : Codec) (link : Link) (connect : Key → Option Server) (time : Timeval × Timeval)
    (own k : Key) (children : List Key) (prev : Server) (servers : List Server) (s : Server)
    (m : FiniteMap)
    → Reliable link
    → select_prev_server own children ≡ some k
    → connect k ≡ some prev
    → Among prev servers
    → Replicas servers m
    → All (λ e. Ascii e.key) (all_nodes prev.table.lists)
    → Represents s (λ j. none)
    → CarriedRequest codec get_table
    → ((o : Option (List Entry))
        → get_all_entries prev.table ≡ ok o
        → CarriedReply codec (table_reply o))
    → (t' : Table) × (join codec link connect time own children s.table ≡ ok t')
      × Replicas (servers ++ record s { table = t' } ∷ []) m
join-Replicas codec link connect time own k children prev servers s m rel q c am r a h0 asked sent =
    let h = replica_of servers prev m am r in
    let (t', e, h') =
      join-over codec link rel asked time prev connect own k children s.table m (λ j. none) q c sent
        (record { valid = h.valid; reads = h.reads }) a
        (record { valid = h0.valid; reads = h0.reads }) in
    let s' : Server = record s { table = t' } in
    let held : Represents s' m = record {
      valid = h'.valid;
      reads = λ j b. h'.reads j b ∙ ap ok (over_none (m j));
    } in
    (t', e, Replicas-append servers s' m r held)
  where
    over_none : (o : Option Data) → maybe o none some ≡ o
    over_none none = refl
    over_none (some d) = refl
