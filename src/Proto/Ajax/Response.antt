-- ===== src/Proto/Ajax/Response.antt =====
-- `Ajax.Response`, `String.evalJSON` and `Ajax.Request.isSameOrigin` of docs/skin/prototype.js. The
-- engine's `eval`, the regular expressions of `unfilterJSON` and `isJSON`, and
-- `decodeURIComponent(escape(s))` are arguments.
pub mod Origin
pub mod Sanitize
use sd.Common.{
  ℕ, ◌+◌, ◌-◌, Bool, true, false, not, ◌&&◌, ◌||◌, Option, none, some, List, [], ◌∷◌, ◌++◌, Outcome,
  ok, err, ◌>>=◌, eqb, leb, ltb, length, drop, if◌then◌else◌, maybe, ◌==◌, text_eq,
}
use sd.Proto.Text.{Text, codes, is_space, is_prefix}
use sd.Proto.Numbers.{to_string}
use sd.Proto.Strings.{include, blank}
use sd.Proto.Hash.Query.{Scalar, interpret}
use sd.Proto.Ajax.{
  Options, Request, Step, EvalJs, never, allowed, force, get_status, dispatch_exception,
}

-- The page: `location.protocol`, `document.domain` and `location.port`.
pub record Location : Type 0 where
  pub protocol : Text
  pub domain : Text
  pub port : Text

abbrev pub spaces : Text → Text × Text
spaces [] = ([], [])
spaces (c ∷ s) = let (a, b) = spaces s in if is_space c then (c ∷ a, b) else ([], c ∷ s)

abbrev pub until_slash : Text → Text
until_slash [] = []
until_slash (c ∷ s) = if eqb c b'/' then [] else c ∷ until_slash s

-- The match of `/^\s*https?:\/\/[^\/]*/`, for what follows the white space.
abbrev pub host_part : Text → Text → Option Text
host_part blanks s =
    if is_prefix (codes "https://") s
    then some (blanks ++ (codes "https://" ++ until_slash (drop 8 s)))
    else if is_prefix (codes "http://") s
    then some (blanks ++ (codes "http://" ++ until_slash (drop 7 s)))
    else none

-- `'#{protocol}//#{domain}#{port}'`.
abbrev pub origin : Location → Text
origin l =
    l.protocol ++ (codes "//" ++ (l.domain ++ (if l.port == [] then [] else codes ":" ++ l.port)))

unfoldable pub is_same_origin : Location → Text → Bool
is_same_origin l url =
    let (blanks, rest) = spaces url in maybe (host_part blanks rest) true λ m. m == origin l

-- The code units that `cx` matches.
abbrev pub is_special : ℕ → Bool
is_special c =
    eqb c 0xad
    || (leb 0x600 c && leb c 0x604)
    || eqb c 0x70f
    || eqb c 0x17b4
    || eqb c 0x17b5
    || (leb 0x200c c && leb c 0x200f)
    || (leb 0x2028 c && leb c 0x202f)
    || (leb 0x2060 c && leb c 0x206f)
    || eqb c 0xfeff
    || (leb 0xfff0 c && leb c 0xffff)
    || eqb c 0

-- `('0000' + a.charCodeAt(0).toString(16)).slice(-4)`.
abbrev pub four_digits : ℕ → Text
four_digits c = let s = codes "0000" ++ to_string 16 c in drop (length s - 4) s

abbrev pub escape_special : Text → Text
escape_special [] = []
escape_special (c ∷ s) =
    (if is_special c then codes "\\u" ++ four_digits c else c ∷ []) ++ escape_special s

-- What the engine and the regular expressions give; `syntax_error` makes the exception.
pub record Engine {ℓ} (E : Type ℓ) (J : Type 0) : Type ℓ where
  pub unfilter : Text → Text
  pub is_json : Text → Bool
  pub eval : Text → Outcome E J
  pub syntax_error : Text → E
  pub decode_header : Text → Option Text

abbrev pub or_throw {ℓ} : {E : Type ℓ} {A : Type 0} → E → Outcome E A → Outcome E A
or_throw e (ok a) = ok a
or_throw e (err x) = err e

-- A value, or `null`, or `undefined`.
pub data Json (J : Type 0) : Type 0 where
  null undef : Json J
  json : J → Json J

-- What the transport answers: its `status` and `statusText`, `none` where reading throws, its text,
-- its XML, and its headers.
pub record Answer {ℓ} (E : Type ℓ) (X : Type 0) : Type ℓ where
  pub status : Option ℕ
  pub status_text : Option Scalar
  pub response_text : Scalar
  pub response_xml : Option X
  pub header : Text → Outcome E (Option Text)

-- A response; `none` is a field that is not set.
pub record Response (J X : Type 0) : Type 0 where
  pub status : ℕ
  pub status_text : Text
  pub response_text : Option Text
  pub header_json : Option (Json J)
  pub response_xml : Option (Option X)
  pub response_json : Option (Json J)

abbrev pub empty_response : {J X : Type 0} → Response J X
empty_response = record {
  status = 0;
  status_text = [];
  response_text = none;
  header_json = none;
  response_xml = none;
  response_json = none;
}

-- A step of the request that gives something or throws.
abbrev pub Got {ℓ} : Type ℓ → Type 0 → Type ℓ
Got E A = Request × Outcome E A

abbrev pub then_get {ℓ} : {E : Type ℓ} {A B : Type 0} → Got E A → (A → Request → Got E B) → Got E B
then_get (r, ok a) k = k a r
then_get (r, err e) k = (r, err e)

abbrev pub undefined_after {ℓ} : {E : Type ℓ} {J : Type 0} → Step E → Got E (Json J)
undefined_after (r, ok u) = (r, ok undef)
undefined_after (r, err e) = (r, err e)

-- `getHeader`: an exception and an empty header are `null`.
abbrev pub get_header {ℓ} : {E : Type ℓ} → Outcome E (Option Text) → Option Text
get_header (ok none) = none
get_header (ok (some [])) = none
get_header (ok (some (c ∷ s))) = some (c ∷ s)
get_header (err e) = none

abbrev pub get_status_text : Option Scalar → Text
get_status_text none = []
get_status_text (some s) = interpret s

-- What `evalJSON` gives, or what is left after `dispatchException`.
abbrev pub eval_caught {ℓ} :
    {E : Type ℓ} {J : Type 0} → Options E → Outcome E J → Request → Got E (Json J)
eval_caught options (ok j) r = (r, ok (json j))
eval_caught options (err e) r = undefined_after (dispatch_exception options e r)

-- The condition on the option `evalJSON` and the content type.
abbrev pub may_eval_json {ℓ} : {E : Type ℓ} {X : Type 0} → EvalJs → Answer E X → Bool
may_eval_json never answer = false
may_eval_json allowed answer =
    include (codes "application/json")
      (maybe (get_header (answer.header (codes "Content-type"))) [] (λ s. s))
may_eval_json force answer = true

module _ {ℓ} {E : Type ℓ} {J : Type 0} (engine : Engine E J) where
  -- `evalJSON`.
  unfoldable pub eval_json : Text → Bool → Outcome E J
  eval_json s sanitize =
      let j = escape_special (engine.unfilter s) in
      if not sanitize || engine.is_json j
      then or_throw (engine.syntax_error s) (engine.eval (codes "(" ++ (j ++ codes ")")))
      else err (engine.syntax_error s)

  -- `eval_option` is the option `evalJSON`, `sanitize_option` is `sanitizeJSON`, and `same_origin`
  -- is `isSameOrigin` of the request.
  module _ (options : Options E) (eval_option : EvalJs) (sanitize_option same_origin : Bool) where
    -- `_getHeaderJSON`. What cannot be decoded stays as it is.
    unfoldable pub get_header_json : {X : Type 0} → Answer E X → Request → Got E (Json J)
    unfolding eval_json
    get_header_json answer r =
        maybe (get_header (answer.header (codes "X-JSON"))) (r, ok null)
          λ s.
            eval_caught options
              (eval_json (maybe (engine.decode_header s) s (λ t. t))
                (sanitize_option || not same_origin))
              r

    -- `_getResponseJSON`.
    unfoldable pub get_response_json : {X : Type 0} → Answer E X → Text → Request → Got E (Json J)
    unfolding eval_json
    get_response_json answer response_text r =
        if not (may_eval_json eval_option answer) || blank response_text
        then (r, ok null)
        else eval_caught options (eval_json response_text (sanitize_option || not same_origin)) r

    -- The fields that are set once the headers are there.
    pub read_headers : {X : Type 0} → Answer E X → Response J X → Request → Got E (Response J X)
    unfolding get_header_json
    read_headers answer response r = then_get (get_header_json answer r) λ h r'. (
      r',
      ok (record response {
        status = get_status answer.status;
        status_text = get_status_text answer.status_text;
        response_text = some (interpret answer.response_text);
        header_json = some h;
      }),
    )

    -- The fields that are set at the end.
    pub read_body : {X : Type 0} → Answer E X → Response J X → Request → Got E (Response J X)
    unfolding get_response_json
    read_body answer response r =
        then_get (get_response_json answer (interpret answer.response_text) r) λ j r'. (
          r',
          ok (record response { response_xml = some answer.response_xml; response_json = some j }),
        )

    -- `Ajax.Response.initialize`.
    unfoldable pub initialize_response :
        {X : Type 0} → Bool → ℕ → Answer E X → Request → Got E (Response J X)
    unfolding read_headers read_body
    initialize_response is_ie ready_state answer r =
        then_get
          (if ltb 2 ready_state && not is_ie || eqb ready_state 4
            then read_headers answer empty_response r
            else (r, ok empty_response))
          λ response r'.
            if eqb ready_state 4 then read_body answer response r' else (r', ok response)
