-- ===== src/Proto/Events/Tests.antt =====
-- The theorems on the registry of handlers, on concrete pages.
use sd.Common.{ℕ, ◌≡◌, refl, ◌++◌, true, none, some, [], nat_eq}
use sd.Proto.Text.{codes}
use sd.Proto.Hash.{own}
use sd.Proto.Events.{Page, Browser, find_entry, observe, stop_observing, add_event, remove_event}
use sd.Proto.Events.Entries.{WellFormed}
use sd.Proto.Events.Invariant.{Reachable, start, observed, Reachable-WellFormed}
use sd.Proto.Events.Inverse.{entry_of, stop_observing-observe}

-- A browser with `addEventListener`; the handlers are numbers.
abbrev browser : Browser
browser = record { has_add_event_listener = true; dom_event_name = λ name. name }

abbrev blank_page : Page ℕ
blank_page = record { cache = []; next_responder = 0; calls = [] }

abbrev page_one : Page ℕ
page_one = observe browser 3 (codes "click") 8 blank_page

page_one-Reachable : Reachable browser page_one
page_one-Reachable = observed 3 (codes "click") 8 blank_page start

Reachable-WellFormed_example : WellFormed page_one
Reachable-WellFormed_example = Reachable-WellFormed browser page_one-Reachable

observed_entry :
    entry_of 3 (codes "click") 8 page_one ≡ some (record { responder = 0; handler = 8 })
unfolding observe find_entry own
observed_entry = refl

other_entry : entry_of 3 (codes "app:load") 8 page_one ≡ none
unfolding observe find_entry own
other_entry = refl

stop_observing-observe_example :
    let page' =
      stop_observing browser 3
        (some (codes "app:load"))
        (some 8)
        (observe browser 3 (codes "app:load") 8 page_one) in
    (page'.cache ≡ page_one.cache)
    × (page'.calls
        ≡ (page_one.calls ++ add_event browser 3 (codes "app:load") page_one.next_responder)
          ++ remove_event browser 3 (codes "app:load") page_one.next_responder)
stop_observing-observe_example =
    stop_observing-observe browser 3 (codes "app:load") 8 page_one
      (Reachable-WellFormed browser page_one-Reachable) other_entry
