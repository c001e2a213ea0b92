-- ===== src/Proto/Hash/Laws.antt =====
-- The methods of `Hash` as a finite map.
use mathlib.Core.List.{foldl}
use sd.Common.{
  true, Option, none, some, [], ◌∷◌, Eq, ◌==◌, All, if◌then◌else◌, maybe, beq_refl, inl, inr,
  Bool-cases, ◌≡◌, ◌≢◌, refl, ◌∙◌, ap, arith,
}
use sd.Proto.Hash.{
  Properties, option_beq, own, set, delete, unset, extend, clone, update, merge, index, get,
}

module _ {ℓ κ} {K : Type ℓ} {V : Type κ} ⦃e : Eq K⦄ where
  pub own-set :
      (k j : K) (v : V) (h : Properties K V)
      → own j (set k v h) ≡ (if k == j then some v else own j h)
  unfolding own set
  own-set k j v [] = refl
  own-set k j v ((i, w) ∷ h) =
      ground (arith, e.beq_iff k j, e.beq_iff i k, e.beq_iff i j, own-set k j v h)

  -- Setting a name that is new and deleting it again.
  pub delete-set : (k : K) (v : V) (h : Properties K V) → own k h ≡ none → delete k (set k v h) ≡ h
  unfolding own set delete
  delete-set k v [] n = ground (arith, beq_refl k)
  delete-set k v ((i, w) ∷ h) n = elim (Bool-cases (i == k)) [
    | inl t ↦ absurd (ground arith)
    | inr t ↦ simp (t, delete-set k v h (simp t at n))
  ]

  pub set-own : (k : K) (v : V) (h : Properties K V) → own k h ≡ some v → set k v h ≡ h
  unfolding own set
  set-own k v [] q = cc
  set-own k v ((i, w) ∷ h) q = elim (Bool-cases (i == k)) [
    | inl t ↦
        let u = (e.beq_iff i k).0 t in let r : w ≡ v = ground arith in simp (t, u, r, beq_refl)
    | inr t ↦ simp (t, set-own k v h (simp t at q))
  ]

  pub set-set : (k : K) (v w : V) (h : Properties K V) → set k v (set k w h) ≡ set k v h
  unfolding set
  set-set k v w [] = ground (arith, beq_refl k)
  set-set k v w ((i, u) ∷ h) = elim (Bool-cases (i == k)) [
    | inl t ↦ simp (t, beq_refl)
    | inr t ↦ simp (t, set-set k v w h)
  ]

  -- What holds of each property still does after an assignment, and after a deletion.
  pub All-set {μ} :
      (P : K × V → Type μ) (k : K) (v : V) (h : Properties K V)
      → P (k, v)
      → All P h
      → All P (set k v h)
  unfolding set
  All-set P k v [] p a = (p, tt)
  All-set P k v ((i, w) ∷ h) p a = elim (Bool-cases (i == k)) [
    | inl t ↦ simp t (p, a.1)
    | inr t ↦ simp t (a.0, All-set P k v h p a.1)
  ]

  pub All-delete {μ} :
      (P : K × V → Type μ) (k : K) (h : Properties K V) → All P h → All P (delete k h)
  unfolding delete
  All-delete P k [] a = tt
  All-delete P k ((i, w) ∷ h) a = elim (Bool-cases (i == k)) [
    | inl t ↦ simp t a.1
    | inr t ↦ simp t (a.0, All-delete P k h a.1)
  ]

  pub All-own {μ} :
      (P : K × V → Type μ) (k : K) (h : Properties K V) {v : V}
      → own k h ≡ some v
      → All P h
      → P (k, v)
  unfolding own
  All-own P k [] q a = cc
  All-own P k ((i, w) ∷ h) {v} q a = elim (Bool-cases (i == k)) [
    | inl t ↦ let u = (e.beq_iff i k).0 t in let r : w ≡ v = ground arith in rw (← u, ← r) a.0
    | inr t ↦ All-own P k h (simp t at q) a.1
  ]

  -- Each name stands once.
  abbrev pub Distinct : Properties K V → Type κ
  Distinct [] = Unit
  Distinct ((k, v) ∷ h) = (own k h ≡ none) × Distinct h

  pub Distinct-set : (k : K) (v : V) (h : Properties K V) → Distinct h → Distinct (set k v h)
  unfolding own set
  Distinct-set k v [] d = (refl, tt)
  Distinct-set k v ((i, w) ∷ h) d = elim (Bool-cases (i == k)) [
    | inl t ↦ simp t (rw ((e.beq_iff i k).0 t) at d)
    | inr t ↦
        simp t
          (ground (arith, own-set k i v h, e.beq_iff i k, e.beq_iff k i), Distinct-set k v h d.1)
  ]

  own-delete :
      (k j : K) (h : Properties K V)
      → Distinct h
      → own j (delete k h) ≡ (if k == j then none else own j h)
  unfolding own delete
  own-delete k j [] d = ground arith
  own-delete k j ((i, w) ∷ h) d =
      ground (arith, e.beq_iff k j, e.beq_iff i k, e.beq_iff i j, own-delete k j h)

  Distinct-delete : (k : K) (h : Properties K V) → Distinct h → Distinct (delete k h)
  unfolding own delete
  Distinct-delete k [] d = tt
  Distinct-delete k ((i, w) ∷ h) d = ground (arith, own-delete k i h, Distinct-delete k h)

  own-extend :
      (j : K) (h source : Properties K V)
      → Distinct source
      → own j (extend h source) ≡ maybe (own j source) (own j h) some
  unfolding own extend
  own-extend j h [] d = refl
  own-extend j h ((k, v) ∷ source) d = elim (Bool-cases (k == j)) [
    | inl t ↦ own-extend j (set k v h) source d.1 ∙ rw (own-set, t, ← (e.beq_iff k j).0 t, d.0)
    | inr t ↦ own-extend j (set k v h) source d.1 ∙ rw (own-set, t)
  ]

  Distinct-extend : (h source : Properties K V) → Distinct h → Distinct (extend h source)
  unfolding extend
  Distinct-extend h [] d = d
  Distinct-extend h ((k, v) ∷ source) d = Distinct-extend (set k v h) source (Distinct-set k v h d)

  foldl-extend :
      (h source : Properties K V)
      → foldl (λ result pair. set pair.0 pair.1 result) h source ≡ extend h source
  unfolding extend foldl
  foldl-extend h [] = refl
  foldl-extend h ((k, v) ∷ source) = foldl-extend (set k v h) source

  pub own-clone : (j : K) (h : Properties K V) → Distinct h → own j (clone h) ≡ own j h
  unfolding clone
  own-clone j h d = own-extend j [] h d ∙ same (own j h)
    where
      same : (o : Option V) → maybe o (own j []) some ≡ o
      same none = unfold own in refl
      same (some v) = refl

  Distinct-clone : (h : Properties K V) → Distinct (clone h)
  unfolding clone
  Distinct-clone h = Distinct-extend [] h tt

  update-extend : (h object : Properties K V) → update h object ≡ extend h (clone object)
  unfolding update
  update-extend h object = foldl-extend h (clone object)

  -- Of a hash and an object with each name once: `merge` reads as the object it merges in, and as
  -- the hash where that has no such property;
  -- the result has each name once.
  pub merge_lem :
      (h object : Properties K V)
      → Distinct h
      → Distinct object
      → Distinct (merge h object)
        × ((j : K) → own j (merge h object) ≡ maybe (own j object) (own j h) some)
  unfolding merge
  merge_lem h object d c = (
    rw update-extend (Distinct-extend (clone h) (clone object) (Distinct-clone h)),
    λ j.
        ap (own j) (update-extend (clone h) object)
        ∙ own-extend j (clone h) (clone object) (Distinct-clone object)
        ∙ rw (own-clone j object c, own-clone j h d),
  )

module _ {ℓ κ} {K : Type ℓ} {V : Type κ} ⦃e : Eq K⦄ ⦃f : Eq V⦄ (inherited : K → Option V) where
  option_beq_refl : (o : Option V) → option_beq o o ≡ true
  option_beq_refl none = refl
  option_beq_refl (some v) = beq_refl v

  -- In a hash with each name once: after a `set` the key reads as its value, unless that is the value that every object inherits
  -- under that name; another key reads as before. Each name still stands once.
  pub get-set :
      (k j : K) (v : V) (h : Properties K V)
      → Distinct h
      → Distinct (set k v h)
        × (get inherited j (set k v h) ≡ (
            if k == j
            then (if option_beq (some v) (inherited j) then none else some v)
            else get inherited j h))
  unfolding get
  get-set k j v h d = (
    Distinct-set k v h d,
    elim (Bool-cases (k == j)) [ inl t ↦ simp (own-set, t) | inr t ↦ simp (own-set, t) ],
  )

  -- In a hash with each name once: `unset` returns what the key read as, whether its own or inherited; then `get` has nothing
  -- under the key, and reads any other key as before. Each name still stands once.
  pub get-unset :
      (k j : K) (h : Properties K V)
      → Distinct h
      → Distinct (unset inherited k h).0
        × (get inherited j (unset inherited k h).0 ≡ (if k == j then none else get inherited j h))
        × ((unset inherited k h).1 ≡ maybe (own k h) (inherited k) some)
  unfolding get unset
  get-unset k j h d = (
    Distinct-delete k h d,
    elim (Bool-cases (k == j)) [
      | inl t ↦ simp (own-delete k j h d, t, option_beq_refl)
      | inr t ↦ simp (own-delete k j h d, t)
    ],
    refl,
  )

module _ {ℓ κ} {K : Type ℓ} {V : Type κ} ⦃e : Eq K⦄ ⦃f : Eq V⦄ where
  index-some :
      (value : V) (h : Properties K V) (k : K)
      → Distinct h
      → index value h ≡ some k
      → own k h ≡ some value
  unfolding index own
  index-some value [] k d q = cc
  index-some value ((i, w) ∷ h) k d q =
      ground (arith, e.beq_iff i k, f.beq_iff w value, index-some value h k)

  index-none :
      (value : V) (h : Properties K V) (k : K) → index value h ≡ none → own k h ≢ some value
  unfolding index own
  index-none value [] k q r = cc
  index-none value ((i, w) ∷ h) k q r =
      ground (arith, e.beq_iff i k, f.beq_iff w value, index-none value h k)

  -- In a hash with each name once: the key that `index` finds has the value; where it finds none, no key has the value.
  pub index_lem :
      (value : V) (h : Properties K V)
      → Distinct h
      → ((k : K) → index value h ≡ some k → own k h ≡ some value)
        × (index value h ≡ none → (k : K) → own k h ≢ some value)
  index_lem value h d = (λ k q. index-some value h k d q, λ q k. index-none value h k q)
