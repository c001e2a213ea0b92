-- ===== src/Proto/Events/Handler.antt =====
-- `Event.fire` and class `Event.Handler` of docs/skin/prototype.js. What `Event.findElement` gives,
-- and what a callback does, are arguments.
use sd.Common.{ℕ, Bool, true, false, Option, some, maybe, if◌then◌else◌, Eq}
use sd.Proto.Text.{Text, codes}
use sd.Proto.Events.{Page, Browser, observe, stop_observing}

-- An event as it is handed to the browser.
pub record Fired (M : Type 0) : Type 0 where
  pub type : Text
  pub bubbles : Bool
  pub event_name : Text
  pub memo : M

-- `fireEvent_DOM` and `fireEvent_IE`, by whether the document has `createEvent`.
abbrev pub fire_event : {M : Type 0} → Bool → Text → M → Bool → Fired M
fire_event true event_name memo bubble = record {
  type = codes "dataavailable";
  bubbles = bubble;
  event_name = event_name;
  memo = memo;
}
fire_event false event_name memo bubble = record {
  type = if bubble then codes "ondataavailable" else codes "onlosecapture";
  bubbles = bubble;
  event_name = event_name;
  memo = memo;
}

-- `fire`: an event bubbles if nothing else is said, and its memo is an empty object then.
abbrev pub fire : {M : Type 0} → Bool → M → Text → Option M → Option Bool → Fired M
fire create_event empty event_name memo bubble =
    fire_event create_event event_name (maybe memo empty (λ m. m)) (maybe bubble true (λ b. b))

-- `handler` is the bound function that the handler keeps.
pub record Handler (S H : Type 0) : Type 0 where
  pub element : ℕ
  pub event_name : Text
  pub selector : S
  pub handler : H

module _ {S H : Type 0} ⦃e : Eq H⦄ (browser : Browser) where
  abbrev pub start : Handler S H → Page H → Page H
  start h page = observe browser h.element h.event_name h.handler page

  abbrev pub stop : Handler S H → Page H → Page H
  stop h page = stop_observing browser h.element (some h.event_name) (some h.handler) page

-- `handleEvent`: the callback gets the element that is found; without one nothing happens.
abbrev pub handle_event :
    {S H E W : Type 0} → (E → S → Option ℕ) → (ℕ → E → ℕ → W → W) → Handler S H → E → W → W
handle_event find callback h event world =
    maybe (find event h.selector) world (λ found. callback h.element event found world)
