-- ===== src/Proto/Ajax.antt =====
-- `Ajax.Responders` and the states of `Ajax.Request` of docs/skin/prototype.js. What the request
-- calls is a log. The callbacks of the options return or throw, and do not abort the request; the
-- transport's answers are those of one moment.
pub mod Steps
pub mod Completion
pub mod Responders
pub mod Sending
pub mod Response
pub mod Updater
mod Tests
mod SendingTests
use sd.Common.{
  ℕ, ◌+◌, Bool, true, false, not, ◌&&◌, ◌||◌, Option, none, some, List, [], ◌∷◌, ◌++◌, Outcome, ok,
  err, Eq, has, eqb, leb, ltb, if◌then◌else◌,
}
use sd.Proto.Text.{Text, codes}
use sd.Proto.Numbers.{to_string}
use sd.Proto.Arrays.{without}

-- An option that may hold a callback, and how the callback ends.
pub data Callback {ℓ} (E : Type ℓ) : Type ℓ where
  missing : Callback E
  returns : Callback E
  throws : E → Callback E

-- The option `evalJS`.
pub data EvalJs : Type 0 where
  never allowed force : EvalJs

pub record Options {ℓ} (E : Type ℓ) : Type ℓ where
  pub callback : Text → Callback E
  pub eval_js : EvalJs

-- `status` is `none` when reading it throws; `script_type` says that the content type is that of a
-- script, and `evaluated` is what `eval` of the response gives. `header_json` and `response_json` say
-- what is thrown where a response reads its JSON, if it is; `internet_explorer` is
-- `Prototype.Browser.IE`.
pub record Transport {ℓ} (E : Type ℓ) : Type ℓ where
  pub status : Option ℕ
  pub is_same_origin : Bool
  pub script_type : Bool
  pub evaluated : Outcome E (Unit {0})
  pub header_json : Outcome E (Unit {0})
  pub response_json : Outcome E (Unit {0})
  pub internet_explorer : Bool

-- A call: the callback of the status or of `onSuccess` or `onFailure`, where `none` stands for
-- `Prototype.emptyFunction`; `eval`; another callback; a message to the responders.
pub data Report : Type 0 where
  outcome : Option Text → Report
  evaluation : Report
  called : Text → Report
  dispatched : Text → Report

-- `listening` says that the transport's `onreadystatechange` is `onStateChange`.
pub record Request : Type 0 where
  pub complete : Bool
  pub listening : Bool
  pub reports : List Report

-- `Ajax.Responders.register` and `unregister`.
module _ {ℓ} {A : Type ℓ} ⦃e : Eq A⦄ where
  unfoldable pub register : A → List A → List A
  register responder responders =
      if not (has responder responders) then responders ++ responder ∷ [] else responders

  unfoldable pub unregister : A → List A → List A
  unfolding without
  unregister responder responders = without (responder ∷ []) responders

-- The responders that have the callback are called in order; what they throw is dropped.
unfoldable pub dispatch {ℓ} : {A : Type ℓ} → (A → Bool) → List A → List A
dispatch has_callback [] = []
dispatch has_callback (r ∷ rs) =
    if has_callback r then r ∷ dispatch has_callback rs else dispatch has_callback rs

abbrev pub get_status : Option ℕ → ℕ
get_status none = 0
get_status (some status) = if eqb status 1223 then 204 else status

abbrev pub success : ℕ → Bool
success status = eqb status 0 || leb 200 status && ltb status 300 || eqb status 304

-- `Ajax.Request.Events`.
abbrev pub state_name : ℕ → Text
state_name n =
    if eqb n 0
    then codes "Uninitialized"
    else if eqb n 1
    then codes "Loading"
    else if eqb n 2
    then codes "Loaded"
    else if eqb n 3
    then codes "Interactive"
    else if eqb n 4
    then codes "Complete"
    else codes "undefined"

abbrev pub report : Report → Request → Request
report x r = record r { reports = r.reports ++ x ∷ [] }

-- A step of the request that may throw, and the one after it.
abbrev pub Step {ℓ} : Type ℓ → Type ℓ
Step E = Request × Outcome E (Unit {0})

abbrev pub after {ℓ} : {E : Type ℓ} → Step E → (Request → Step E) → Step E
after (r, ok u) k = k r
after (r, err e) k = (r, err e)

module _ {ℓ} {E : Type ℓ} (options : Options E) where
  abbrev pub perform : Text → Callback E → Request → Step E
  perform name missing r = (r, ok tt)
  perform name returns r = (report (called name) r, ok tt)
  perform name (throws e) r = (report (called name) r, err e)

  pub dispatch_exception : E → Request → Step E
  dispatch_exception e r =
      after (perform (codes "onException") (options.callback (codes "onException")) r)
        λ r'. (report (dispatched (codes "onException")) r', ok tt)

  -- `try ... catch (e) { this.dispatchException(e) }`.
  pub caught : Step E → Step E
  unfolding dispatch_exception
  caught (r, ok u) = (r, ok u)
  caught (r, err e) = dispatch_exception e r

  abbrev pub chosen : Text → Callback E → (Request → Step E) → Request → Step E
  chosen name missing k r = k r
  chosen name returns k r = (report (outcome (some name)) r, ok tt)
  chosen name (throws e) k r = (report (outcome (some name)) r, err e)

  -- The callback for the status, or `onSuccess` or `onFailure`, or the empty function.
  pub report_outcome : ℕ → Request → Step E
  report_outcome status r =
      let on_status = codes "on" ++ to_string 10 status in
      let on_result = if success status then codes "onSuccess" else codes "onFailure" in
      chosen on_status (options.callback on_status)
        (λ r'.
          chosen on_result (options.callback on_result) (λ r''. (report (outcome none) r'', ok tt))
            r')
        r

  abbrev pub may_eval : EvalJs → Transport E → Bool
  may_eval never transport = false
  may_eval allowed transport = transport.is_same_origin && transport.script_type
  may_eval force transport = true

  pub eval_response : Transport E → Request → Step E
  unfolding caught
  eval_response transport r = caught (report evaluation r, transport.evaluated)

  pub complete_request : Transport E → Request → Step E
  unfolding caught report_outcome eval_response
  complete_request transport r =
      after (caught (report_outcome (get_status transport.status) (record r { complete = true })))
        λ r'. if may_eval options.eval_js transport then eval_response transport r' else (r', ok tt)

  pub report_state : ℕ → Request → Step E
  report_state n r =
      let name = codes "on" ++ state_name n in
      after (perform name (options.callback name) r) λ r'. (report (dispatched name) r', ok tt)

  -- `new Ajax.Response(this)`, with the transport in state `n`: it reads the JSON of the header and of
  -- the text, and hands what is thrown there to `dispatchException` of the request.
  pub new_response : Transport E → ℕ → Request → Step E
  unfolding caught
  new_response transport n r =
      after
        (if ltb 2 n && not transport.internet_explorer || eqb n 4
          then caught (r, transport.header_json)
          else (r, ok tt))
        λ r'. if eqb n 4 then caught (r', transport.response_json) else (r', ok tt)

  -- `respondToReadyState`, once there is the response.
  pub use_response : Transport E → ℕ → Request → Step E
  unfolding complete_request caught report_state
  use_response transport n r =
      after (if eqb n 4 then complete_request transport r else (r, ok tt)) λ r'.
        after (caught (report_state n r'))
          λ r''. (if eqb n 4 then record r'' { listening = false } else r'', ok tt)

  unfoldable pub respond_to_ready_state : Transport E → ℕ → Request → Step E
  unfolding new_response use_response
  respond_to_ready_state transport n r =
      after (new_response transport n r) λ r'. use_response transport n r'

  unfoldable pub on_state_change : Transport E → ℕ → Request → Step E
  unfolding respond_to_ready_state
  on_state_change transport ready_state r =
      if ltb 1 ready_state && not (eqb ready_state 4 && r.complete)
      then respond_to_ready_state transport ready_state r
      else (r, ok tt)

  -- The browser calls `onreadystatechange` for each state of a list. What a call throws does not
  -- stop it.
  unfoldable pub deliver : Transport E → List ℕ → Request → Request
  unfolding on_state_change
  deliver transport [] r = r
  deliver transport (n ∷ ns) r =
      deliver transport ns (if r.listening then (on_state_change transport n r).0 else r)
