-- ===== src/Proto/Events/Entries.antt =====
-- The invariant of the registry of handlers, and what keeps it for a list of entries.
use sd.Common.{
  ℕ, ◌+◌, ◌<◌, ◌≡◌, ◌≢◌, refl, ◌∙◌, false, none, some, List, [], ◌∷◌, ◌++◌, Eq, ◌==◌, All, arith,
  if◌then◌else◌, Bool-cases, Option-cases, inl, inr, eqb, text_eq, nat_eq,
}
use sd.Proto.Text.{Text}
use sd.Proto.Hash.{Properties, own, set}
use sd.Proto.Hash.Laws.{All-own}
use sd.Proto.Events.{Entry, Registry, Page, registry_for, entries_for, splice_entry, find_entry}

pub set-nonempty {κ} : {V : Type κ} (k : Text) (v : V) (h : Properties Text V) → set k v h ≢ []
unfolding set
set-nonempty k v [] q = cc
set-nonempty k v ((i, w) ∷ h) q = elim (Bool-cases (i == k)) [
  | inl t ↦ let s = simp t at q in cc
  | inr t ↦ let s = simp t at q in cc
]

module _ {ℓ} {H : Type ℓ} ⦃e : Eq H⦄ where
  -- A handler has one entry.
  abbrev pub Unique : List (Entry H) → Type ℓ
  Unique [] = Unit
  Unique (x ∷ es) = (find_entry x.handler es ≡ none) × Unique es

  -- The responders of the entries have been created, and no handler stands twice.
  abbrev pub Fine : ℕ → List (Entry H) → Type ℓ
  Fine n es = All (λ x. x.responder < n) es × Unique es

  abbrev pub Sound : ℕ → Text × List (Entry H) → Type ℓ
  Sound n pair = (pair.1 ≢ []) × Fine n pair.1

  -- No registry is empty, and no event name is left without an entry.
  abbrev pub Kept : ℕ → ℕ × Registry H → Type ℓ
  Kept n pair = (pair.1 ≢ []) × All (Sound n) pair.1

  abbrev pub WellFormed : Page H → Type ℓ
  WellFormed page = All (Kept page.next_responder) page.cache

  pub registry-Sound :
      (n element : ℕ) (cache : Properties ℕ (Registry H))
      → All (Kept n) cache
      → All (Sound n) (registry_for element cache)
  registry-Sound n element cache w = elim (Option-cases (own element cache)) [
    | inl q ↦ rw q tt
    | inr (r, q) ↦ rw q ((All-own (Kept n) element cache q w).1)
  ]

  pub entries-Fine :
      (n : ℕ) (name : Text) (registry : Registry H)
      → All (Sound n) registry
      → Fine n (entries_for name registry)
  entries-Fine n name registry w = elim (Option-cases (own name registry)) [
    | inl q ↦ rw q (tt, tt)
    | inr (es, q) ↦ rw q ((All-own (Sound n) name registry q w).1)
  ]

  pub find_entry-append :
      (h : H) (es : List (Entry H)) (x : Entry H)
      → find_entry h (es ++ x ∷ []) ≡ (if x.handler == h then some x else find_entry h es)
  unfolding find_entry
  find_entry-append h [] x = refl
  find_entry-append h (y ∷ es) x = elim (Bool-cases (x.handler == h)) [
    | inl t ↦ simp (t, find_entry-append h es x)
    | inr t ↦ simp (t, find_entry-append h es x)
  ]

  find_entry-tail :
      (h : H) (y : Entry H) (es : List (Entry H))
      → find_entry h (y ∷ es) ≡ none
      → (find_entry h es ≡ none) × ((y.handler == h) ≡ false)
  unfolding find_entry
  find_entry-tail h y es q = elim (Option-cases (find_entry h es)) [
    | inl r ↦ (
      r,
      elim (Bool-cases (y.handler == h)) [
        | inl t ↦ absurd (let s = simp (r, t) at q in cc)
        | inr t ↦ t
      ],
    )
    | inr (x, r) ↦ absurd (let s = simp r at q in cc)
  ]

  Unique-append :
      (es : List (Entry H)) (x : Entry H)
      → find_entry x.handler es ≡ none
      → Unique es
      → Unique (es ++ x ∷ [])
  unfolding find_entry
  Unique-append [] x q u = (refl, tt)
  Unique-append (y ∷ es) x q u =
      let (r, t) = find_entry-tail x.handler y es q in
      let s : (x.handler == y.handler) ≡ false =
        ground (arith, e.beq_iff x.handler y.handler, e.beq_iff y.handler x.handler) in
      (find_entry-append y.handler es x ∙ rw (s, u.0) refl, Unique-append es x r u.1)

  find_entry-splice :
      (h : H) (x : Entry H) (es : List (Entry H))
      → find_entry h es ≡ none
      → find_entry h (splice_entry x es) ≡ none
  unfolding find_entry splice_entry
  find_entry-splice h x [] q = refl
  find_entry-splice h x (y ∷ es) q =
      let (r, t) = find_entry-tail h y es q in
      elim (Bool-cases (eqb y.responder x.responder)) [
        | inl u ↦ simp u r
        | inr u ↦ simp (u, find_entry-splice h x es r, t)
      ]

  pub Fine-splice :
      (n : ℕ) (x : Entry H) (es : List (Entry H)) → Fine n es → Fine n (splice_entry x es)
  unfolding splice_entry
  Fine-splice n x [] f = f
  Fine-splice n x (y ∷ es) f = elim (Bool-cases (eqb y.responder x.responder)) [
    | inl u ↦ simp u (f.0.1, f.1.1)
    | inr u ↦
        let g = Fine-splice n x es (f.0.1, f.1.1) in
        simp u ((f.0.0, g.0), (find_entry-splice y.handler x es f.1.0, g.1))
  ]

  later :
      (n : ℕ) (es : List (Entry H))
      → All (λ x. x.responder < n) es
      → All (λ x. x.responder < n + 1) es
  later n [] a = tt
  later n (x ∷ es) a = (omega (arith, a.0), later n es a.1)

  pub Fine-append :
      (n : ℕ) (h : H) (es : List (Entry H))
      → find_entry h es ≡ none
      → Fine n es
      → Fine (n + 1) (es ++ record { responder = n; handler = h } ∷ [])
  Fine-append n h es q f = (added es f.0, Unique-append es _ q f.1)
    where
      added :
          (xs : List (Entry H))
          → All (λ x. x.responder < n) xs
          → All (λ x. x.responder < n + 1) (xs ++ record { responder = n; handler = h } ∷ [])
      added [] a = (omega arith, tt)
      added (x ∷ xs) a = (omega (arith, a.0), added xs a.1)

  pub Sound-later :
      (n : ℕ) (registry : Registry H) → All (Sound n) registry → All (Sound (n + 1)) registry
  Sound-later n [] a = tt
  Sound-later n ((k, es) ∷ registry) a =
      ((a.0.0, (later n es a.0.1.0, a.0.1.1)), Sound-later n registry a.1)

  pub Kept-later :
      (n : ℕ) (cache : Properties ℕ (Registry H)) → All (Kept n) cache → All (Kept (n + 1)) cache
  Kept-later n [] a = tt
  Kept-later n ((k, r) ∷ cache) a = ((a.0.0, Sound-later n r a.0.1), Kept-later n cache a.1)

  pub append-nonempty : (es : List (Entry H)) (x : Entry H) → es ++ x ∷ [] ≢ []
  append-nonempty [] x q = cc
  append-nonempty (y ∷ es) x q = cc
