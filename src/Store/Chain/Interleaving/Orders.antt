-- ===== src/Store/Chain/Interleaving/Orders.antt =====
-- What the order of the calls of the next server does.
use mathlib.Core.Path.{subst}
use sd.Common.{
  ◌≡◌, refl, ap, sym, ◌∙◌, true, some, List, [], ◌∷◌, ◌++◌, All, ok, if◌then◌else◌, if_true, ◌==◌,
  text_eq,
}
use sd.Store.Keys.{Key}
use sd.Store.SortedList.{Data, data_valid}
use sd.Store.Table.{Table, done, table_put, table_get}
use sd.Store.Server.Session.{Ascii, FiniteMap, assign, ok-injective}
use sd.Store.Chain.Merge.{Holds, put-Holds}
use sd.Store.Chain.Interleaving.{
  Pair, Step, put_locally, put_remotely, InOrder, Run, stay, step, AllInOrder,
}

put_of :
    (t : Table) (m : FiniteMap) (k : Key) (d : Data)
    → Holds t m
    → Ascii k
    → data_valid d ≡ true
    → (t' : Table) × (table_put true true (some k) (some d) t ≡ ok (t', done))
      × Holds t' (assign k (some d) m)
put_of t m k d h a v = put-Holds t m (record { key = k; value = d }) h a v

beq_self : (k : Key) → (k == k) ≡ true
beq_self k = (text_eq.beq_iff k k).1 refl

-- Two puts under one key that change the first server in one order can reach the next server in the
-- other: then nothing is pending, and the first server holds the second value and the next server
-- the first one.
pub put_remotely-diverges :
    (k : Key) (d1 d2 : Data) (head next : Table) (m : FiniteMap)
    → Holds head m
    → Holds next m
    → Ascii k
    → data_valid d1 ≡ true
    → data_valid d2 ≡ true
    → (s : Pair) × Run (record { head = head; next = next; pending = [] }) s
      × (s.pending ≡ [])
      × (table_get (some k) s.head ≡ ok (some d2))
      × (table_get (some k) s.next ≡ ok (some d1))
put_remotely-diverges k d1 d2 head next m h n a v1 v2 =
    let (h1, e1, r1) = put_of head m k d1 h a v1 in
    let (h2, e2, r2) = put_of h1 (assign k (some d1) m) k d2 r1 a v2 in
    let (n1, f1, q1) = put_of next m k d2 n a v2 in
    let (n2, f2, q2) = put_of n1 (assign k (some d2) m) k d1 q1 a v1 in
    (
      record { head = h2; next = n2; pending = [] },
      step (put_locally k d1 h1 a v1 e1 refl) (
          step (put_locally k d2 h2 a v2 e2 refl) (
            step (put_remotely ((k, d1) ∷ []) [] k d2 n1 refl f1 refl)
              (step (put_remotely [] [] k d1 n2 refl f2 refl) stay))),
      refl,
      r2.reads k a ∙ ap ok (if_true _ _ (beq_self k)),
      q2.reads k a ∙ ap ok (if_true _ _ (beq_self k)),
    )

-- The map after puts, one after another.
abbrev pub after_puts : List (Key × Data) → FiniteMap → FiniteMap
after_puts [] m = m
after_puts ((k, d) ∷ puts) m = after_puts puts (assign k (some d) m)

-- The puts that are pending bring the next server's map to that of the first one.
pub record Follows (s : Pair) : Type 0 where
  pub head_map : FiniteMap
  pub next_map : FiniteMap
  pub head_holds : Holds s.head head_map
  pub next_holds : Holds s.next next_map
  pub sound : All (λ p. Ascii p.0 × (data_valid p.1 ≡ true)) s.pending
  pub same : (j : Key) → after_puts s.pending next_map j ≡ head_map j

after_puts-append :
    (ps qs : List (Key × Data)) (m : FiniteMap)
    → after_puts (ps ++ qs) m ≡ after_puts qs (after_puts ps m)
after_puts-append [] qs m = refl
after_puts-append ((k, d) ∷ ps) qs m = after_puts-append ps qs (assign k (some d) m)

All-snoc :
    (ps : List (Key × Data)) (p : Key × Data)
    → All (λ p. Ascii p.0 × (data_valid p.1 ≡ true)) ps
    → Ascii p.0 × (data_valid p.1 ≡ true)
    → All (λ p. Ascii p.0 × (data_valid p.1 ≡ true)) (ps ++ p ∷ [])
All-snoc [] p a g = (g, tt)
All-snoc (q ∷ ps) p a g = (a.0, All-snoc ps p a.1 g)

-- The table that a put gave holds the map with the key assigned.
put-Assigned :
    (t t' : Table) (m : FiniteMap) (k : Key) (d : Data)
    → Holds t m
    → Ascii k
    → data_valid d ≡ true
    → table_put true true (some k) (some d) t ≡ ok (t', done)
    → Holds t' (assign k (some d) m)
put-Assigned t t' m k d h a v e =
    let (t0, e0, h0) = put_of t m k d h a v in
    let q : t0 ≡ t' = ap (λ p. p.0) (ok-injective _ _ (sym e0 ∙ e)) in
    subst (λ x. Holds x (assign k (some d) m)) q h0

local-Follows :
    (head next t : Table) (pending : List (Key × Data)) (k : Key) (d : Data)
    → Follows (record { head = head; next = next; pending = pending })
    → Ascii k
    → data_valid d ≡ true
    → table_put true true (some k) (some d) head ≡ ok (t, done)
    → Follows (record { head = t; next = next; pending = pending ++ (k, d) ∷ [] })
local-Follows head next t pending k d f a v e = record {
  head_map = assign k (some d) f.head_map;
  next_map = f.next_map;
  head_holds = put-Assigned head t f.head_map k d f.head_holds a v e;
  next_holds = f.next_holds;
  sound = All-snoc pending (k, d) f.sound (a, v);
  same = λ j.
      ap (λ (m : FiniteMap). m j) (after_puts-append pending ((k, d) ∷ []) f.next_map)
      ∙ ap (λ o. if k == j then some d else o) (f.same j);
}

remote-Follows :
    (head next t : Table) (after : List (Key × Data)) (k : Key) (d : Data)
    → Follows (record { head = head; next = next; pending = (k, d) ∷ after })
    → table_put true true (some k) (some d) next ≡ ok (t, done)
    → Follows (record { head = head; next = t; pending = after })
remote-Follows head next t after k d f e = record {
  head_map = f.head_map;
  next_map = assign k (some d) f.next_map;
  head_holds = f.head_holds;
  next_holds = put-Assigned next t f.next_map k d f.next_holds f.sound.0.0 f.sound.0.1 e;
  sound = f.sound.1;
  same = f.same;
}

Step-Follows : {s s' : Pair} (p : Step s s') → InOrder p → Follows s → Follows s'
Step-Follows {s} {s'} (put_locally k d t a v e q) o f =
    subst Follows (sym q) (local-Follows s.head s.next t s.pending k d f a v e)
Step-Follows {s} {s'} (put_remotely before after k d t p e q) o f =
    let w : s.pending ≡ (k, d) ∷ after = p ∙ ap (λ b. b ++ (k, d) ∷ after) o in
    let g : Follows (record { head = s.head; next = s.next; pending = (k, d) ∷ after }) =
      subst (λ ps. Follows (record { head = s.head; next = s.next; pending = ps })) w f in
    subst Follows (sym (q ∙ ap (λ b. record { head = s.head; next = t; pending = b ++ after }) o))
      (remote-Follows s.head s.next t after k d g e)

Run-Follows : {s s' : Pair} (run : Run s s') → AllInOrder run → Follows s → Follows s'
Run-Follows stay o f = f
Run-Follows (step p run) o f = Run-Follows run o.1 (Step-Follows p o.0 f)

-- If the puts are passed on in the order in which they changed the first server, then, whenever none
-- is pending, the two servers give the same for every ASCII key, however the steps of the threads
-- were mixed. They held the same map at the start.
pub AllInOrder-converges :
    (head next : Table) (m : FiniteMap) (s : Pair)
    (run : Run (record { head = head; next = next; pending = [] }) s)
    → Holds head m
    → Holds next m
    → AllInOrder run
    → s.pending ≡ []
    → (k : Key) → Ascii k
    → table_get (some k) s.next ≡ table_get (some k) s.head
AllInOrder-converges head next m s run h n o e k a =
    let start : Follows (record { head = head; next = next; pending = [] }) = record {
      head_map = m;
      next_map = m;
      head_holds = h;
      next_holds = n;
      sound = tt;
      same = λ j. refl;
    } in
    let f = Run-Follows run o start in
    f.next_holds.reads k a
    ∙ ap ok (ap (λ ps. after_puts ps f.next_map k) (sym e) ∙ f.same k)
    ∙ sym (f.head_holds.reads k a)
