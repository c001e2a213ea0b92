-- ===== src/Proto/Events/Invariant.antt =====
-- Observing and stopping keep the invariant of the registry of handlers.
use sd.Common.{
  ℕ, ◌+◌, ◌≡◌, ◌≢◌, false, Option, none, some, List, [], ◌∷◌, ◌++◌, Eq, All, Bool-cases,
  Option-cases, inl, inr, text_eq, nat_eq, maybe,
}
use sd.Proto.Text.{Text, codes}
use sd.Proto.Hash.{Properties, own, set, delete}
use sd.Proto.Hash.Laws.{All-set, All-delete, set-own}
use sd.Proto.Events.{
  Entry, Registry, Page, Browser, registry_for, entries_for, splice_entry, no_names, put_entries,
  find_entry, register, unregister, observe, stop_observing_handler, stop_observing_element,
  stop_observing_event_name, stop_observing, remove_event, log,
}
use sd.Proto.Events.Entries.{
  Fine, Sound, Kept, WellFormed, registry-Sound, entries-Fine, Fine-splice, Fine-append,
  Sound-later, Kept-later, set-nonempty, append-nonempty,
}

module _ {ℓ} {H : Type ℓ} ⦃e : Eq H⦄ where
  full : (registry : Registry H) → no_names registry ≡ false → registry ≢ []
  full [] q r = cc
  full (pair ∷ registry) q r = cc

  put_entries-Kept :
      (n element : ℕ) (name : Text) (es : List (Entry H)) (registry : Registry H)
      (cache : Properties ℕ (Registry H))
      → Fine n es
      → All (Sound n) registry
      → All (Kept n) cache
      → All (Kept n) (put_entries element name es registry cache)
  unfolding put_entries
  put_entries-Kept n element name [] registry cache f s w =
      elim (Bool-cases (no_names (delete name registry))) [
        | inl t ↦ simp t (All-delete (Kept n) element cache w)
        | inr t ↦ simp t (
            All-set (Kept n) element (delete name registry) cache
              (full (delete name registry) t, All-delete (Sound n) name registry s) w)
      ]
  put_entries-Kept n element name (x ∷ es) registry cache f s w =
      All-set (Kept n) element (set name (x ∷ es) registry) cache
        (
          set-nonempty name (x ∷ es) registry,
          All-set (Sound n) name (x ∷ es) registry ((λ q. cc), f) s,
        )
        w

  -- Writing back a registry that has the handler changes nothing.
  pub found-unchanged :
      (handler : H) (element : ℕ) (name : Text) (cache : Properties ℕ (Registry H)) {x : Entry H}
      → find_entry handler (entries_for name (registry_for element cache)) ≡ some x
      → set element
          (set name (entries_for name (registry_for element cache)) (registry_for element cache))
          cache
        ≡ cache
  unfolding find_entry own
  found-unchanged handler element name cache q = elim (Option-cases (own element cache)) [
    | inl r ↦ absurd (let s = rw r at q in cc)
    | inr (registry, r) ↦ elim (Option-cases (own name registry)) [
      | inl t ↦ absurd (let s = rw (r, t) at q in cc)
      | inr (es, t) ↦ rw (r, t, set-own name es registry t) (set-own element registry cache r)
    ]
  ]

  -- `observe` keeps the invariant.
  pub observe-WellFormed :
      (browser : Browser) (element : ℕ) (name : Text) (handler : H) (page : Page H)
      → WellFormed page
      → WellFormed (observe browser element name handler page)
  unfolding observe register
  observe-WellFormed browser element name handler page w =
      let registry = registry_for element page.cache in
      let entries = entries_for name registry in
      let s = registry-Sound page.next_responder element page.cache w in
      let f = entries-Fine page.next_responder name registry s in
      elim (Option-cases (find_entry handler entries)) [
        | inl q ↦
            let n = page.next_responder + 1 in
            let x : Entry H = record { responder = page.next_responder; handler = handler } in
            simp q (
              All-set (Kept n) element (set name (entries ++ x ∷ []) registry) page.cache
                (
                  set-nonempty name (entries ++ x ∷ []) registry,
                  All-set (Sound n) name (entries ++ x ∷ []) registry
                      (
                        append-nonempty entries x,
                        Fine-append page.next_responder handler entries q f,
                      )
                      (Sound-later page.next_responder registry s),
                )
                (Kept-later page.next_responder page.cache w))
        | inr (x, q) ↦ simp (q, found-unchanged handler element name page.cache q) w
      ]

  unregister-WellFormed :
      (element : ℕ) (name : Text) (handler : H) (page : Page H)
      → WellFormed page
      → WellFormed (unregister element name handler page).0
  unfolding unregister
  unregister-WellFormed element name handler page w =
      let n = page.next_responder in
      let registry = registry_for element page.cache in
      let entries = entries_for name registry in
      let s = registry-Sound n element page.cache w in
      let f = entries-Fine n name registry s in
      elim (Option-cases (find_entry handler entries)) [
        | inl q ↦ simp q (put_entries-Kept n element name entries registry page.cache f s w)
        | inr (x, q) ↦ simp q (
            put_entries-Kept n element name (splice_entry x entries) registry page.cache
              (Fine-splice n x entries f) s w)
      ]

  stop_observing_handler-WellFormed :
      (browser : Browser) (element : ℕ) (name : Text) (handler : H) (page : Page H)
      → WellFormed page
      → WellFormed (stop_observing_handler browser element name handler page)
  unfolding stop_observing_handler
  stop_observing_handler-WellFormed browser element name handler page w =
      logged (unregister element name handler page).0 (unregister element name handler page).1
        (unregister-WellFormed element name handler page w)
    where
      logged :
          (page : Page H) (entry : Option (Entry H))
          → WellFormed page
          → WellFormed
              (maybe entry page λ x. log (remove_event browser element name x.responder) page)
      logged page none w = w
      logged page (some x) w = w

  -- `stopObserving` keeps the invariant, whichever of its arguments are given.
  pub stop_observing-WellFormed :
      (browser : Browser) (element : ℕ) (name : Option Text) (handler : Option H) (page : Page H)
      → WellFormed page
      → WellFormed (stop_observing browser element name handler page)
  unfolding stop_observing stop_observing_element stop_observing_event_name
  stop_observing-WellFormed browser element none none page w =
      elim (Option-cases (own element page.cache)) [
        | inl q ↦ rw q w
        | inr (r, q) ↦ rw q (All-delete (Kept page.next_responder) element page.cache w)
      ]
  stop_observing-WellFormed browser element (some name) none page w =
      let n = page.next_responder in
      put_entries-Kept n element name [] (registry_for element page.cache) page.cache (tt, tt)
        (registry-Sound n element page.cache w) w
  stop_observing-WellFormed browser element none (some handler) page w =
      unregister-WellFormed element (codes "undefined") handler page w
  stop_observing-WellFormed browser element (some name) (some handler) page w =
      stop_observing_handler-WellFormed browser element name handler page w

-- The pages that calls of `observe` and `stopObserving` lead to, from a page with no handlers.
pub data Reachable {ℓ} {H : Type ℓ} ⦃e : Eq H⦄ (browser : Browser) : Page H → Type ℓ where
  start : Reachable browser (record { cache = []; next_responder = 0; calls = [] })
  observed :
      (element : ℕ) (name : Text) (handler : H) (page : Page H)
      → Reachable browser page
      → Reachable browser (observe browser element name handler page)
  stopped :
      (element : ℕ) (name : Option Text) (handler : Option H) (page : Page H)
      → Reachable browser page
      → Reachable browser (stop_observing browser element name handler page)

-- On every page that can be reached no handler stands twice under an event name of an element, no
-- empty registry or event name is kept, and every responder has been created.
pub Reachable-WellFormed {ℓ} :
    {H : Type ℓ} ⦃e : Eq H⦄ (browser : Browser) {page : Page H}
    → Reachable browser page
    → WellFormed page
Reachable-WellFormed browser start = tt
Reachable-WellFormed browser (observed element name handler page r) =
    observe-WellFormed browser element name handler page (Reachable-WellFormed browser r)
Reachable-WellFormed browser (stopped element name handler page r) =
    stop_observing-WellFormed browser element name handler page (Reachable-WellFormed browser r)
