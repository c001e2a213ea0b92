-- ===== src/Store/Chain/Neighbours.antt =====
-- The neighbours that a server picks out of the children of /chain.
use mathlib.Core.Path.{subst}
use sd.Common.{
  ◌≡◌, refl, ap, sym, ◌∙◌, true, Option, none, some, List, [], ◌∷◌, All, Among, here, there,
  if◌then◌else◌, inl, inr, Bool-cases, if_true, if_false, maybe,
}
use sd.Store.Keys.{Key, strcmp, strcmp_refl}
use sd.Store.Chain.{
  is_greater, first_above, last_below, bubble_sort, select_next_server, select_prev_server,
}
use sd.Store.Chain.Sorting.{
  NotAfter, Ascending, All-bubble_sort, All_of_bubble_sort, bubble_sort-sorts,
}

abbrev pub Above : Key → Key → Type 0
Above own c = is_greater (strcmp c own) ≡ true

-- No child is above the server's own node.
abbrev pub NoneAbove : Key → List Key → Type 0
NoneAbove own cs = All (λ c. NotAfter c own) cs

-- The child `k` is above the server's own node, and the least such child.
abbrev pub Least : Key → List Key → Key → Type 0
Least own cs k = Above own k × All (λ c. Above own c → NotAfter k c) cs

-- What the choice of the next server promises.
abbrev pub NextOf : Key → List Key → Option Key → Type 0
NextOf own cs none = NoneAbove own cs
NextOf own cs (some k) = Among k cs × Least own cs k

abbrev pub NoneBelow : Key → List Key → Type 0
NoneBelow own cs = All (λ c. NotAfter own c) cs

abbrev pub Greatest : Key → List Key → Key → Type 0
Greatest own cs k = Above k own × All (λ c. Above c own → NotAfter c k) cs

-- What the choice of the previous server promises.
abbrev pub PrevOf : Key → List Key → Option Key → Type 0
PrevOf own cs none = NoneBelow own cs
PrevOf own cs (some k) = Among k cs × Greatest own cs k

NotAfter-self : (c : Key) → NotAfter c c
NotAfter-self c = ap is_greater (strcmp_refl c)

All-weaken {κ μ} :
    (P : Key → Type κ) (Q : Key → Type μ) (cs : List Key)
    → ((c : Key) → P c → Q c)
    → All P cs
    → All Q cs
All-weaken P Q [] f a = tt
All-weaken P Q (c ∷ cs) f a = (f c a.0, All-weaken P Q cs f a.1)

All-among {κ} : (P : Key → Type κ) (k : Key) (cs : List Key) → Among k cs → All P cs → P k
All-among P k [] m a = elim m [ ]
All-among P k (c ∷ cs) (here p) a = subst P (sym p) a.0
All-among P k (c ∷ cs) (there m) a = All-among P k cs m a.1

among-all : (cs : List Key) → All (λ c. Among c cs) cs
among-all [] = tt
among-all (c ∷ cs) = (
  here refl,
  All-weaken (λ d. Among d cs) (λ d. Among d (c ∷ cs)) cs (λ d m. there m) (among-all cs),
)

-- The loop over a sorted array.
next_step :
    (own c : Key) (cs : List Key) (r : Option Key)
    → NotAfter c own
    → NextOf own cs r
    → NextOf own (c ∷ cs) r
next_step own c cs none n h = (n, h)
next_step own c cs (some k) n h =
    (there h.0, (h.1.0, ((λ a. absurd (let z = sym a ∙ n in cc)), h.1.1)))

first_above_lem : (own : Key) (cs : List Key) → Ascending cs → NextOf own cs (first_above own cs)
unfolding first_above
first_above_lem own [] s = tt
first_above_lem own (c ∷ cs) s = elim (Bool-cases (is_greater (strcmp c own))) [
  | inl t ↦ subst (NextOf own (c ∷ cs)) (sym (if_true _ _ t)) (
    here refl,
    (
      t,
      (
        (λ a. NotAfter-self c),
        All-weaken (NotAfter c) (λ d. Above own d → NotAfter c d) cs (λ d n a. n) s.0,
      ),
    ),
  )
  | inr t ↦
      subst (NextOf own (c ∷ cs)) (sym (if_false _ _ t))
        (next_step own c cs (first_above own cs) t (first_above_lem own cs s.1))
]

sorted_next :
    (own : Key) (xs : List Key) (r : Option Key) → NextOf own (bubble_sort xs) r → NextOf own xs r
sorted_next own xs none h = All_of_bubble_sort (λ c. NotAfter c own) xs h
sorted_next own xs (some k) h = (
  All-among (λ c. Among c xs) k (bubble_sort xs) h.0
      (All-bubble_sort (λ c. Among c xs) xs (among-all xs)),
  (h.1.0, All_of_bubble_sort (λ c. Above own c → NotAfter k c) xs h.1.1),
)

-- The next server is the least child above the server's own node; there is none exactly when no
-- child is above it.
pub select_next_server_lem :
    (own : Key) (children : List Key) → NextOf own children (select_next_server own children)
unfolding select_next_server
select_next_server_lem own children =
    sorted_next own children (first_above own (bubble_sort children))
      (first_above_lem own (bubble_sort children) (bubble_sort-sorts children).0)

below_later :
    (own c : Key) (cs : List Key) (k : Key)
    → All (NotAfter c) cs
    → PrevOf own cs (some k)
    → PrevOf own (c ∷ cs) (some k)
below_later own c cs k n h = (there h.0, (h.1.0, ((λ a. All-among (NotAfter c) k cs h.0 n), h.1.1)))

below_here :
    (own c : Key) (cs : List Key)
    → NoneBelow own cs
    → PrevOf own (c ∷ cs) (if is_greater (strcmp own c) then some c else none)
below_here own c cs h = elim (Bool-cases (is_greater (strcmp own c))) [
  | inl t ↦ subst (PrevOf own (c ∷ cs)) (sym (if_true _ _ t)) (
    here refl,
    (
      t,
      (
        (λ a. NotAfter-self c),
        All-weaken (NotAfter own) (λ d. Above d own → NotAfter d c) cs
            (λ d n a. absurd (let z = sym a ∙ n in cc)) h,
      ),
    ),
  )
  | inr t ↦ subst (PrevOf own (c ∷ cs)) (sym (if_false _ _ t)) (t, h)
]

prev_step :
    (own c : Key) (cs : List Key) (r : Option Key)
    → All (NotAfter c) cs
    → PrevOf own cs r
    → PrevOf own (c ∷ cs) (maybe r (if is_greater (strcmp own c) then some c else none) some)
prev_step own c cs none n h = below_here own c cs h
prev_step own c cs (some k) n h = below_later own c cs k n h

last_below_lem : (own : Key) (cs : List Key) → Ascending cs → PrevOf own cs (last_below own cs)
unfolding last_below
last_below_lem own [] s = tt
last_below_lem own (c ∷ cs) s =
    prev_step own c cs (last_below own cs) s.0 (last_below_lem own cs s.1)

sorted_prev :
    (own : Key) (xs : List Key) (r : Option Key) → PrevOf own (bubble_sort xs) r → PrevOf own xs r
sorted_prev own xs none h = All_of_bubble_sort (NotAfter own) xs h
sorted_prev own xs (some k) h = (
  All-among (λ c. Among c xs) k (bubble_sort xs) h.0
      (All-bubble_sort (λ c. Among c xs) xs (among-all xs)),
  (h.1.0, All_of_bubble_sort (λ c. Above c own → NotAfter c k) xs h.1.1),
)

-- The previous server is the greatest child below the server's own node; there is none exactly when
-- no child is below it.
pub select_prev_server_lem :
    (own : Key) (children : List Key) → PrevOf own children (select_prev_server own children)
unfolding select_prev_server
select_prev_server_lem own children =
    sorted_prev own children (last_below own (bubble_sort children))
      (last_below_lem own (bubble_sort children) (bubble_sort-sorts children).0)
