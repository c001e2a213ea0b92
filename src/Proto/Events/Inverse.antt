-- ===== src/Proto/Events/Inverse.antt =====
-- Observing a second time, and stopping after observing.
use sd.Common.{
  ℕ, ◌<◌, ◌≡◌, ◌≢◌, refl, ◌∙◌, true, false, Option, none, some, List, [], ◌∷◌, ◌++◌, Eq, All,
  Option-cases, inl, inr, text_eq, nat_eq, eqb, arith, beq_refl,
}
use sd.Proto.Text.{Text}
use sd.Proto.Hash.{Properties, own, set}
use sd.Proto.Hash.Laws.{All-own, set-own, set-set, delete-set, own-set}
use sd.Proto.Events.{
  Entry, Registry, Page, Browser, registry_for, entries_for, splice_entry, no_names, put_entries,
  find_entry, register, unregister, observe, stop_observing_handler, stop_observing, add_event,
  remove_event,
}
use sd.Proto.Events.Entries.{
  Sound, Kept, WellFormed, registry-Sound, entries-Fine, find_entry-append,
}
use sd.Proto.Events.Invariant.{found-unchanged}

module _ {ℓ} {H : Type ℓ} ⦃e : Eq H⦄ where
  -- Whether the handler observes the event of the element.
  abbrev pub entry_of : ℕ → Text → H → Page H → Option (Entry H)
  entry_of element name handler page =
      find_entry handler (entries_for name (registry_for element page.cache))

  -- Observing with a handler that observes the event changes nothing and calls nothing.
  pub observe-again :
      (browser : Browser) (element : ℕ) (name : Text) (handler : H) (page : Page H) (x : Entry H)
      → entry_of element name handler page ≡ some x
      → observe browser element name handler page ≡ page
  unfolding observe register
  observe-again browser element name handler page x q =
      simp (q, found-unchanged handler element name page.cache q)

  splice_entry-last :
      (n : ℕ) (h : H) (es : List (Entry H))
      → All (λ x. x.responder < n) es
      → splice_entry
          (record { responder = n; handler = h })
          (es ++ record { responder = n; handler = h } ∷ [])
        ≡ es
  unfolding splice_entry
  splice_entry-last n h [] a = let t : eqb n n ≡ true = ground arith in simp t
  splice_entry-last n h (y ∷ es) a =
      let t : eqb y.responder n ≡ false = ground (arith, a.0) in
      simp (t, splice_entry-last n h es a.1)

  put_entries-nonempty :
      (element : ℕ) (name : Text) (es : List (Entry H)) (registry : Registry H)
      (cache : Properties ℕ (Registry H))
      → es ≢ []
      → put_entries element name es registry cache ≡ set element (set name es registry) cache
  unfolding put_entries
  put_entries-nonempty element name [] registry cache h = absurd (h refl)
  put_entries-nonempty element name (x ∷ es) registry cache h = refl

  some_names : (registry : Registry H) → registry ≢ [] → no_names registry ≡ false
  some_names [] h = absurd (h refl)
  some_names (pair ∷ registry) h = refl

  -- Putting back the entries that stood under the name before.
  put_entries-back :
      (n element : ℕ) (name : Text) (es : List (Entry H)) (cache : Properties ℕ (Registry H))
      → All (Kept n) cache
      → put_entries element name
          (entries_for name (registry_for element cache))
          (set name es (registry_for element cache))
          (set element (set name es (registry_for element cache)) cache)
        ≡ cache
  unfolding own put_entries
  put_entries-back n element name es cache w = elim (Option-cases (own element cache)) [
    | inl q ↦ rw (q, delete-set name es [] refl) (delete-set element (set name es []) cache q)
    | inr (registry, q) ↦ elim (Option-cases (own name registry)) [
      | inl r ↦
          rw
            (
              q,
              r,
              delete-set name es registry r,
              some_names registry (All-own (Kept n) element cache q w).0,
              set-set element registry (set name es registry) cache,
            )
            (set-own element registry cache q)
      | inr (old, r) ↦
          let kept = All-own (Kept n) element cache q w in
          rw
            (
              q,
              r,
              put_entries-nonempty element name old (set name es registry)
                  (set element (set name es registry) cache)
                  (All-own (Sound n) name registry r kept.1).0,
              set-set name old es registry,
              set-own name old registry r,
              set-set element registry (set name es registry) cache,
            )
            (set-own element registry cache q)
    ]
  ]

  registry_for-set :
      (element : ℕ) (registry : Registry H) (cache : Properties ℕ (Registry H))
      → registry_for element (set element registry cache) ≡ registry
  registry_for-set element registry cache =
      rw (own-set element element registry cache, beq_refl element) refl

  entries_for-set :
      (name : Text) (es : List (Entry H)) (registry : Registry H)
      → entries_for name (set name es registry) ≡ es
  entries_for-set name es registry = rw (own-set name name es registry, beq_refl name) refl

  -- On a page with the invariant, stopping a handler that was just observed, and did not observe
  -- the event before, puts the
  -- registry back as it was, and takes the same responder from the browser that was given to it.
  pub stop_observing-observe :
      (browser : Browser) (element : ℕ) (name : Text) (handler : H) (page : Page H)
      → WellFormed page
      → entry_of element name handler page ≡ none
      → let page' =
          stop_observing browser element
            (some name)
            (some handler)
            (observe browser element name handler page) in
        (page'.cache ≡ page.cache)
        × (page'.calls
            ≡ (page.calls ++ add_event browser element name page.next_responder)
              ++ remove_event browser element name page.next_responder)
  unfolding stop_observing stop_observing_handler unregister observe register
  stop_observing-observe browser element name handler page w q =
      let n = page.next_responder in
      let registry = registry_for element page.cache in
      let entries = entries_for name registry in
      let x : Entry H = record { responder = n; handler = handler } in
      let last : find_entry handler (entries ++ x ∷ []) ≡ some x =
        find_entry-append handler entries x ∙ rw (beq_refl handler) refl in
      let cut =
        splice_entry-last n handler entries
          (entries-Fine n name registry (registry-Sound n element page.cache w)).0 in
      simp
        (
          q,
          registry_for-set element (set name (entries ++ x ∷ []) registry) page.cache,
          entries_for-set name (entries ++ x ∷ []) registry,
          last,
          cut,
        )
        (put_entries-back n element name (entries ++ x ∷ []) page.cache w, refl)
