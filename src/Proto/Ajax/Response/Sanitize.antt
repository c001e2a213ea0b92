-- ===== src/Proto/Ajax/Response/Sanitize.antt =====
-- What is evaluated of a response.
use sd.Common.{
  Bool, true, false, not, ◌||◌, Outcome, ok, err, if◌then◌else◌, ◌≡◌, ap, sym, ◌∙◌, if_false,
}
use sd.Proto.Text.{Text}
use sd.Proto.Strings.{blank}
use sd.Proto.Ajax.{Options, Request, EvalJs}
use sd.Proto.Ajax.Response.{
  Engine, Answer, null, escape_special, eval_json, eval_caught, get_response_json, may_eval_json,
}

-- An engine that evaluates otherwise.
abbrev pub with_eval {ℓ} :
    {E : Type ℓ} {J : Type 0} → (Text → Outcome E J) → Engine E J → Engine E J
with_eval eval engine = record engine { eval = eval }

eval_json-unsafe {ℓ} :
    {E : Type ℓ} {J : Type 0} (engine : Engine E J) (eval : Text → Outcome E J) (s : Text)
    (b : Bool)
    → engine.is_json (escape_special (engine.unfilter s)) ≡ false
    → eval_json (with_eval eval engine) s (b || true) ≡ err (engine.syntax_error s)
unfolding eval_json
eval_json-unsafe engine eval s true h = if_false _ _ h
eval_json-unsafe engine eval s false h = if_false _ _ h

-- A response of another origin whose text is no JSON is not evaluated: what `responseJSON` is, and
-- what the request logs, does not depend on what `eval` does.
pub get_response_json-other_origin {ℓ} :
    {E : Type ℓ} {J X : Type 0} (engine : Engine E J) (options : Options E) (eval_option : EvalJs)
    (sanitize_option : Bool) (answer : Answer E X) (s : Text) (r : Request)
    (eval : Text → Outcome E J)
    → engine.is_json (escape_special (engine.unfilter s)) ≡ false
    → get_response_json (with_eval eval engine) options eval_option sanitize_option false answer s r
      ≡ get_response_json engine options eval_option sanitize_option false answer s r
unfolding get_response_json
get_response_json-other_origin engine options eval_option sanitize_option answer s r eval h =
    ap
      (λ o.
        if not (may_eval_json eval_option answer) || blank s
        then (r, ok null)
        else eval_caught options o r)
      (eval_json-unsafe engine eval s sanitize_option h
        ∙ sym (eval_json-unsafe engine engine.eval s sanitize_option h))
