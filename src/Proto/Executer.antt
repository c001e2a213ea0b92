-- ===== src/Proto/Executer.antt =====
-- Class `PeriodicalExecuter` of docs/skin/prototype.js. The callback is a function of the state: it
-- may stop the executer, run the page's timers, and throw.
use sd.Common.{
  ℕ, ◌≡◌, Bool, true, false, Option, none, some, List, [], ◌∷◌, Outcome, ok, if◌then◌else◌, maybe,
  Option-cases, inl, inr,
}

-- `timer` is the interval that is running, and `cleared` the intervals that have been cleared;
-- `page` is the rest of the page, which the callback works on.
pub record Executer (P : Type 0) : Type 0 where
  pub currently_executing : Bool
  pub timer : Option ℕ
  pub cleared : List ℕ
  pub page : P

abbrev pub Callback : Type 0 → Type 0 → Type 0
Callback E P = Executer P → Executer P × Outcome E (Unit {0})

module _ {P : Type 0} where
  -- `initialize`, with the interval that `setInterval` returned.
  pub initialize : ℕ → P → Executer P
  initialize interval page = record {
    currently_executing = false;
    timer = some interval;
    cleared = [];
    page = page;
  }

  pub stop : Executer P → Executer P
  stop x = maybe x.timer x λ t. record x { timer = none; cleared = t ∷ x.cleared }

module _ {E P : Type 0} where
  -- In either case of `try` the flag is reset; what the callback throws is thrown on.
  pub on_timer_event : Callback E P → Callback E P
  on_timer_event callback x =
      if x.currently_executing
      then (x, ok tt)
      else (let (x', result) = callback (record x { currently_executing = true }) in
          (record x' { currently_executing = false }, result))

module _ {E P : Type 0} (callback : Callback E P) (x : Executer P) where
  -- While the callback runs, a timer event changes nothing and does not run it again; otherwise
  -- the event runs it once with the flag set, throws on what it throws, and leaves the flag reset,
  -- so that the next event runs it again.
  pub on_timer_event_lem :
      (x.currently_executing ≡ true → on_timer_event callback x ≡ (x, ok tt))
      × (x.currently_executing ≡ false
          → ((on_timer_event callback x).1 ≡ (callback (record x { currently_executing = true })).1)
            × ((on_timer_event callback x).0.currently_executing ≡ false))
  unfolding on_timer_event
  on_timer_event_lem = (λ h. simp h, λ h. (simp h, simp h))

module _ {P : Type 0} (x : Executer P) where
  -- `stop` clears the running interval once: another `stop` changes nothing.
  pub stop-stop : (stop (stop x) ≡ stop x) × ((stop x).timer ≡ none)
  unfolding stop
  stop-stop = elim (Option-cases x.timer) [
    | inl e ↦ (simp e, simp e)
    | inr (t, e) ↦ (simp e, simp e)
  ]
