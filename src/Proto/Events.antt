-- ===== src/Proto/Events.antt =====
-- The registry of event handlers of docs/skin/prototype.js: `Event.observe` and
-- `Event.stopObserving`. An element is its unique ID. The property `element` of a registry is left
-- out, so a registry with no event name is one whose only key is `element`. What the code asks of
-- the browser is a log of calls.
pub mod Entries
pub mod Invariant
pub mod Inverse
pub mod Handler
mod Tests
use mathlib.Core.List.{reverse}
use sd.Common.{
  ℕ, ◌+◌, Bool, true, false, Option, none, some, List, [], ◌∷◌, ◌++◌, map, Eq, ◌==◌, eqb, maybe,
  if◌then◌else◌, text_eq, nat_eq,
}
use sd.Proto.Text.{Text, codes}
use sd.Proto.Strings.{include}
use sd.Proto.Hash.{Properties, own, set, delete}

pub record Entry {ℓ} (H : Type ℓ) : Type ℓ where
  pub responder : ℕ
  pub handler : H

-- The entries under each event name.
abbrev pub Registry {ℓ} : Type ℓ → Type ℓ
Registry H = Properties Text (List (Entry H))

-- A call of the browser, with the element, the name and the responder.
pub data Call : Type 0 where
  add_event_listener remove_event_listener attach_event detach_event : ℕ → Text → ℕ → Call

-- `Event.cache`, the number of the next responder that is created, and the calls so far.
pub record Page {ℓ} (H : Type ℓ) : Type ℓ where
  pub cache : Properties ℕ (Registry H)
  pub next_responder : ℕ
  pub calls : List Call

-- What the code asks about the browser: whether elements have `addEventListener`, and its name for
-- an event.
pub record Browser : Type 0 where
  pub has_add_event_listener : Bool
  pub dom_event_name : Text → Text

unfoldable pub is_custom_event : Text → Bool
unfolding include
is_custom_event event_name = include (codes ":") event_name

module _ (browser : Browser) (element : ℕ) (event_name : Text) (responder : ℕ) where
  observe_standard_event : List Call
  observe_standard_event =
      let actual = browser.dom_event_name event_name in
      if browser.has_add_event_listener
      then add_event_listener element actual responder ∷ []
      else attach_event element (codes "on" ++ actual) responder ∷ []

  observe_custom_event : List Call
  observe_custom_event =
      if browser.has_add_event_listener
      then add_event_listener element (codes "dataavailable") responder ∷ []
      else attach_event element (codes "ondataavailable") responder
        ∷ (attach_event element (codes "onlosecapture") responder ∷ [])

  pub add_event : List Call
  unfolding is_custom_event observe_standard_event observe_custom_event
  add_event = if is_custom_event event_name then observe_custom_event else observe_standard_event

  stop_observing_standard_event : List Call
  stop_observing_standard_event =
      let actual = browser.dom_event_name event_name in
      if browser.has_add_event_listener
      then remove_event_listener element actual responder ∷ []
      else detach_event element (codes "on" ++ actual) responder ∷ []

  stop_observing_custom_event : List Call
  stop_observing_custom_event =
      if browser.has_add_event_listener
      then remove_event_listener element (codes "dataavailable") responder ∷ []
      else detach_event element (codes "ondataavailable") responder
        ∷ (detach_event element (codes "onlosecapture") responder ∷ [])

  pub remove_event : List Call
  unfolding is_custom_event stop_observing_standard_event stop_observing_custom_event
  remove_event =
      if is_custom_event event_name
      then stop_observing_custom_event
      else stop_observing_standard_event

module _ {ℓ} {H : Type ℓ} where
  -- `CACHE[uid]`, made if it is missing; the registry is written back where it changes.
  abbrev pub registry_for : ℕ → Properties ℕ (Registry H) → Registry H
  registry_for uid cache = maybe (own uid cache) [] (λ r. r)

  abbrev pub entries_for : Text → Registry H → List (Entry H)
  entries_for event_name registry = maybe (own event_name registry) [] (λ es. es)

  -- `entries.splice(entries.indexOf(entry), 1)`: an entry is known by its responder.
  pub splice_entry : Entry H → List (Entry H) → List (Entry H)
  splice_entry entry [] = []
  splice_entry entry (e ∷ es) =
      if eqb e.responder entry.responder then es else e ∷ splice_entry entry es

  abbrev pub no_names : Registry H → Bool
  no_names [] = true
  no_names (pair ∷ registry) = false

  -- The end of `unregister`: an empty list of entries is deleted, then an empty registry.
  pub put_entries :
      ℕ → Text → List (Entry H) → Registry H → Properties ℕ (Registry H) → Properties ℕ (Registry H)
  unfolding set delete
  put_entries element event_name [] registry cache =
      let rest = delete event_name registry in
      if no_names rest then delete element cache else set element rest cache
  put_entries element event_name (e ∷ es) registry cache =
      set element (set event_name (e ∷ es) registry) cache

  -- The loops that remove the listeners of entries go from the last entry to the first.
  pub remove_entries : Browser → ℕ → Text → List (Entry H) → List Call
  unfolding remove_event
  remove_entries browser element event_name [] = []
  remove_entries browser element event_name (e ∷ es) =
      remove_entries browser element event_name es
      ++ remove_event browser element event_name e.responder

  pub remove_registry : Browser → ℕ → Registry H → List Call
  unfolding remove_entries
  remove_registry browser element [] = []
  remove_registry browser element ((name, es) ∷ registry) =
      remove_entries browser element name es ++ remove_registry browser element registry

module _ {ℓ} {H : Type ℓ} ⦃e : Eq H⦄ where
  -- The entry of the handler, searched from the last one down.
  unfoldable pub find_entry : H → List (Entry H) → Option (Entry H)
  find_entry handler [] = none
  find_entry handler (entry ∷ entries) =
      maybe (find_entry handler entries) (if entry.handler == handler then some entry else none)
        some

  pub register : ℕ → Text → H → Page H → Page H × Option (Entry H)
  unfolding find_entry set
  register element event_name handler page =
      let registry = registry_for element page.cache in
      let entries = entries_for event_name registry in
      let entry : Entry H = record { responder = page.next_responder; handler = handler } in
      maybe (find_entry handler entries)
        (
          record {
            cache = set element (set event_name (entries ++ entry ∷ []) registry) page.cache;
            next_responder = page.next_responder + 1;
            calls = page.calls;
          },
          some entry,
        )
        (λ old.
          (record page { cache = set element (set event_name entries registry) page.cache }, none))

  pub unregister : ℕ → Text → H → Page H → Page H × Option (Entry H)
  unfolding find_entry splice_entry put_entries
  unregister element event_name handler page =
      let registry = registry_for element page.cache in
      let entries = entries_for event_name registry in
      let entry = find_entry handler entries in
      let entries' = maybe entry entries (λ x. splice_entry x entries) in
      (record page { cache = put_entries element event_name entries' registry page.cache }, entry)

  abbrev pub log : List Call → Page H → Page H
  log new page = record page { calls = page.calls ++ new }

  unfoldable pub observe : Browser → ℕ → Text → H → Page H → Page H
  unfolding register add_event
  observe browser element event_name handler page =
      let (page', entry) = register element event_name handler page in
      maybe entry page' λ x. log (add_event browser element event_name x.responder) page'

  pub stop_observing_handler : Browser → ℕ → Text → H → Page H → Page H
  unfolding unregister remove_event
  stop_observing_handler browser element event_name handler page =
      let (page', entry) = unregister element event_name handler page in
      maybe entry page' λ x. log (remove_event browser element event_name x.responder) page'

  pub stop_observing_element : Browser → ℕ → Page H → Page H
  unfolding delete remove_registry
  stop_observing_element browser element page = maybe (own element page.cache) page λ registry.
      log (remove_registry browser element registry)
        (record page { cache = delete element page.cache })

  pub stop_observing_event_name : Browser → ℕ → Text → Page H → Page H
  unfolding put_entries remove_entries
  stop_observing_event_name browser element event_name page =
      let registry = registry_for element page.cache in
      log (remove_entries browser element event_name (entries_for event_name registry))
        (record page { cache = put_entries element event_name [] registry page.cache })

  -- With a handler and no event name, the code looks under the name `undefined`. An entry that it
  -- finds there is taken out; then `isCustomEvent` of no name throws, and no listener is removed.
  unfoldable pub stop_observing : Browser → ℕ → Option Text → Option H → Page H → Page H
  unfolding stop_observing_handler stop_observing_element stop_observing_event_name unregister
  stop_observing browser element none none page = stop_observing_element browser element page
  stop_observing browser element (some name) none page =
      stop_observing_event_name browser element name page
  stop_observing browser element none (some handler) page =
      (unregister element (codes "undefined") handler page).0
  stop_observing browser element (some name) (some handler) page =
      stop_observing_handler browser element name handler page
