-- ===== src/Proto/Ajax/Updater.antt =====
-- `Ajax.Updater` and `Ajax.PeriodicalUpdater` of docs/skin/prototype.js. The regular expression of
-- `stripScripts` and the search of elements by `$` are arguments; frequencies and decays are natural
-- numbers.
pub mod Backoff
use sd.Common.{
  ℕ, ◌+◌, ◌*◌, Bool, true, false, not, ◌&&◌, Option, none, some, List, [], ◌∷◌, ◌++◌, eqb,
  if◌then◌else◌, maybe, ◌==◌, text_eq,
}
use sd.Proto.Text.{Text}
use sd.Proto.Ajax.{success}

-- The argument `container`: an element, or an object with `success` and `failure`.
pub data Container (I : Type 0) : Type 0 where
  single : I → Container I
  split : Option I → Option I → Container I

-- What a field of `this.container` holds: an element, or the argument itself.
pub data Receiver (I : Type 0) : Type 0 where
  element : I → Receiver I
  whole : Receiver I

pub record Receivers (I : Type 0) : Type 0 where
  pub on_success : Receiver I
  pub on_failure : Option (Receiver I)

-- `this.container`; `none` is `null`.
unfoldable pub receivers : {I : Type 0} → Container I → Receivers I
receivers (single i) = record { on_success = element i; on_failure = some (element i) }
receivers (split s f) = record {
  on_success = maybe s whole element;
  on_failure = maybe f (maybe s (some whole) (λ i. none)) (λ i. some (element i));
}

-- The option `insertion`.
pub data Insertion : Type 0 where
  replaces calls : Insertion
  at_position : Text → Insertion

-- What is done to an element: `update`, `insert` at a position, or a call of the option.
pub data Action (I : Type 0) : Type 0 where
  updated called : I → Text → Action I
  inserted : I → Text → Text → Action I

abbrev pub act : {I : Type 0} → Insertion → Text → I → Action I
act replaces s i = updated i s
act calls s i = called i s
act (at_position position) s i = inserted i position s

module _ {I : Type 0} (strip_scripts : Text → Text) (find : Receiver I → Option I) where
  -- `updateContent`, for the status of the request.
  unfoldable pub update_content : Bool → Insertion → Receivers I → ℕ → Text → Option (Action I)
  update_content eval_scripts insertion container status response_text =
      let receiver = if success status then some container.on_success else container.on_failure in
      let s = if eval_scripts then response_text else strip_scripts response_text in
      maybe receiver none λ r. maybe (find r) none λ i. some (act insertion s i)

  -- The callback `onComplete` that `initialize` sets: what is done to the page, and then whether the
  -- caller's callback is called.
  unfoldable pub on_complete :
      Bool → Bool → Insertion → Receivers I → ℕ → Text → Option (Action I) × Bool
  unfolding update_content
  on_complete has_callback eval_scripts insertion container status response_text =
      (update_content eval_scripts insertion container status response_text, has_callback)

-- `Ajax.PeriodicalUpdater`. `timer` is the delay of the timer that is set; `listening` says that the
-- current request has its `onComplete`; `requests` counts the requests, and `finished` the calls of
-- the caller's `onComplete`.
pub record Periodical : Type 0 where
  pub frequency : ℕ
  pub decay : ℕ
  pub option_decay : ℕ
  pub last_text : Option Text
  pub timer : Option ℕ
  pub listening : Bool
  pub requests : ℕ
  pub finished : ℕ

unfoldable pub on_timer_event : Periodical → Periodical
on_timer_event p = record p { timer = none; listening = true; requests = p.requests + 1 }

-- `||` on numbers.
abbrev pub or_else : ℕ → ℕ → ℕ
or_else n default = if eqb n 0 then default else n

-- `initialize` and `start`; an option that is missing is 0.
unfoldable pub initialize : ℕ → ℕ → Periodical
unfolding on_timer_event
initialize frequency decay = on_timer_event (record {
  frequency = or_else frequency 2;
  decay = or_else decay 1;
  option_decay = decay;
  last_text = none;
  timer = none;
  listening = false;
  requests = 0;
  finished = 0;
})

abbrev pub is_last : Option Text → Text → Bool
is_last none s = false
is_last (some t) s = s == t

-- `updateComplete`.
unfoldable pub update_complete : Text → Periodical → Periodical
update_complete response_text p =
    let decay = if is_last p.last_text response_text then p.decay * p.option_decay else 1 in
    let q : Periodical =
      if eqb p.option_decay 0
      then p
      else record p { decay = decay; last_text = some response_text } in
    record q { timer = some (q.decay * q.frequency); listening = false }

unfoldable pub stop : Periodical → Periodical
stop p = record p { listening = false; timer = none; finished = p.finished + 1 }

-- What the browser does: the timer fires, or a request completes.
pub data Tick : Type 0 where
  fires : Tick
  responds : Text → Tick

unfoldable pub tick : Tick → Periodical → Periodical
unfolding on_timer_event update_complete
tick fires p = maybe p.timer p (λ t. on_timer_event p)
tick (responds response_text) p = if p.listening then update_complete response_text p else p

unfoldable pub ticks : List Tick → Periodical → Periodical
unfolding tick
ticks [] p = p
ticks (t ∷ ts) p = ticks ts (tick t p)
