-- ===== src/Proto/Ajax/Sending.antt =====
-- How `Ajax.Request` of docs/skin/prototype.js is set up and sent. What the request calls on the
-- transport, on the callbacks and on the responders is a list of calls, each of which returns or
-- throws.
pub mod Headers
pub mod Calls
use sd.Common.{
  ℕ, Bool, true, false, not, ◌&&◌, ◌||◌, Option, none, some, List, [], ◌∷◌, ◌++◌, map, Outcome, ok,
  err, ◌>>=◌, has, ◌==◌, text_eq, if◌then◌else◌, maybe,
}
use sd.Proto.Text.{Text, codes}
use sd.Proto.Strings.{to_lower, to_upper, include}
use sd.Proto.Hash.{Properties, set, clone}
use sd.Proto.Hash.Query.{Value, UriError, to_query_string}
use sd.Proto.Hash.Query.Params.{Params, to_query_params}

-- The option `parameters`: a string, a hash or another object.
pub data Parameters : Type 0 where
  string : Text → Parameters
  hash object : Properties Text Value → Parameters

-- The option `requestHeaders`: an array of names and values, or another object; `null` in it is
-- `none`. Here the option itself is not `null`.
pub data Extras : Type 0 where
  no_headers : Extras
  array : List Text → Extras
  properties : Properties Text (Option Text) → Extras

-- The options that a caller gives.
pub record Given : Type 0 where
  pub method : Option Text
  pub asynchronous : Option Bool
  pub content_type : Option Text
  pub encoding : Option Text
  pub parameters : Option Parameters
  pub post_body : Option Text
  pub request_headers : Extras

-- `this.options`; a `postBody` that is missing is empty.
pub record Settings : Type 0 where
  pub method : Text
  pub asynchronous : Bool
  pub content_type : Text
  pub encoding : Text
  pub parameters : Parameters
  pub post_body : Text
  pub request_headers : Extras

abbrev pub option_of {ℓ} : {A : Type ℓ} → A → Option A → A
option_of default none = default
option_of default (some a) = a

abbrev pub to_object : Parameters → Parameters
to_object (string s) = string s
to_object (hash h) = object (clone h)
to_object (object o) = object o

-- `Ajax.Base.initialize`.
unfoldable pub initialize : Given → Settings
initialize options = record {
  method = map to_lower (option_of (codes "post") options.method);
  asynchronous = option_of true options.asynchronous;
  content_type = option_of (codes "application/x-www-form-urlencoded") options.content_type;
  encoding = option_of (codes "UTF-8") options.encoding;
  parameters = to_object (option_of (string []) options.parameters);
  post_body = option_of [] options.post_body;
  request_headers = options.request_headers;
}

-- The parameters as a text.
abbrev pub params_text : Parameters → Text
params_text (string s) = s
params_text (hash h) = to_query_string h
params_text (object o) = to_query_string o

-- A method that browsers do not send goes as a parameter of a post.
unfoldable pub tunnel : Text → Text → Text × Text
tunnel method params =
    if not (has method (codes "get" ∷ codes "post" ∷ []))
    then (
      codes "post",
      params ++ ((if params == [] then [] else codes "&") ++ (codes "_method=" ++ method)),
    )
    else (method, params)

-- The parameters of a get stand in the URL.
unfoldable pub request_url : Text → Text → Text → Text
unfolding include
request_url method params url =
    if not (params == []) && method == codes "get"
    then url ++ ((if include (codes "?") url then codes "&" else codes "?") ++ params)
    else url

-- What the environment says: the methods of the transport and the version of an old browser, the
-- library's version, and whether there are callbacks `onCreate` and `onException`.
pub record Environment : Type 0 where
  pub override_mime_type : Bool
  pub gecko_before_2005 : Bool
  pub version : Text
  pub has_on_create : Bool
  pub has_on_exception : Bool

unfoldable pub default_headers : Environment → Settings → Text → Properties Text (Option Text)
default_headers env s method =
    (codes "X-Requested-With", some (codes "XMLHttpRequest"))
    ∷ (codes "X-Prototype-Version", some env.version)
    ∷ (codes "Accept", some (codes "text/javascript, text/html, application/xml, text/xml, */*"))
    ∷ (if method == codes "post"
        then (
          codes "Content-type",
          some (
              s.content_type
              ++ (if s.encoding == [] then [] else codes "; charset=" ++ s.encoding)),
        )
          ∷ (if env.override_mime_type && env.gecko_before_2005
              then (codes "Connection", some (codes "close")) ∷ []
              else [])
        else [])

-- The loop over an array: a name without a value gets `undefined`.
unfoldable pub add_array : List Text → Properties Text (Option Text) → Properties Text (Option Text)
add_array [] headers = headers
add_array (name ∷ []) headers = set name none headers
add_array (name ∷ (v ∷ rest)) headers = add_array rest (set name (some v) headers)

-- The loop over the pairs of an object.
unfoldable pub add_pairs :
    Properties Text (Option Text) → Properties Text (Option Text) → Properties Text (Option Text)
add_pairs [] headers = headers
add_pairs ((name, v) ∷ rest) headers = add_pairs rest (set name v headers)

abbrev pub add_extras : Extras → Properties Text (Option Text) → Properties Text (Option Text)
add_extras no_headers headers = headers
add_extras (array extras) headers = add_array extras headers
add_extras (properties extras) headers = add_pairs (clone extras) headers

-- What the request calls.
pub data Call : Type 0 where
  on_create dispatch_on_create : Call
  open_url : Text → Text → Bool → Call
  defer_ready_state listen : Call
  set_request_header : Text → Text → Call
  send : Option Text → Call
  state_change : Call
  make_response : Call
  on_exception dispatch_on_exception : Call

-- The loop over the headers; those that are `null` are not sent.
unfoldable pub header_calls : Properties Text (Option Text) → List Call
header_calls [] = []
header_calls ((name, none) ∷ headers) = header_calls headers
header_calls ((name, some v) ∷ headers) = set_request_header name v ∷ header_calls headers

unfoldable pub set_request_headers : Environment → Settings → Text → List Call
unfolding default_headers add_array add_pairs header_calls
set_request_headers env s method =
    header_calls (add_extras s.request_headers (default_headers env s method))

-- `this.body`.
abbrev pub body : Settings → Text → Text → Option Text
body s method params =
    if method == codes "post"
    then some (if s.post_body == [] then params else s.post_body)
    else none

-- The calls in the `try`, in their order.
unfoldable pub calls : Environment → Settings → Text → Text → Text → List Call
unfolding set_request_headers
calls env s method params url =
    (make_response ∷ (if env.has_on_create then on_create ∷ [] else []))
    ++ (dispatch_on_create
        ∷ (open_url (map to_upper method) url s.asynchronous
            ∷ ((if s.asynchronous then defer_ready_state ∷ [] else [])
                ++ (listen
                    ∷ (set_request_headers env s method
                        ++ (send (body s method params)
                            ∷ (if not s.asynchronous && env.override_mime_type
                                then state_change ∷ []
                                else [])))))))

-- The calls of a request of a URL.
unfoldable pub planned : Environment → Settings → Text → List Call
unfolding calls tunnel request_url
planned env s url =
    let (method, params) = tunnel s.method (params_text s.parameters) in
    calls env s method params (request_url method params url)

-- The calls that are made, up to the first that throws, and what it throws.
abbrev pub attempt_next {ℓ} :
    {E : Type ℓ} → Outcome E (Unit {0}) → Call → List Call × Option E → List Call × Option E
attempt_next (ok u) c (made, thrown) = (c ∷ made, thrown)
attempt_next (err e) c (made, thrown) = (c ∷ [], some e)

unfoldable pub attempt {ℓ} :
    {E : Type ℓ} → (Call → Outcome E (Unit {0})) → List Call → List Call × Option E
attempt answer [] = ([], none)
attempt answer (c ∷ cs) = attempt_next (answer c) c (attempt answer cs)

-- `dispatchException`: `onException` may throw, and then the responders are not told.
abbrev pub dispatch_exception {ℓ} :
    {E : Type ℓ} → Bool → Outcome E (Unit {0}) → List Call → List Call × Option E
dispatch_exception false o made = (made ++ dispatch_on_exception ∷ [], none)
dispatch_exception true (ok u) made = (made ++ on_exception ∷ (dispatch_on_exception ∷ []), none)
dispatch_exception true (err e) made = (made ++ on_exception ∷ [], some e)

-- The `catch` of `request`.
abbrev pub rescue {ℓ} :
    {E : Type ℓ}
    → Environment
    → (Call → Outcome E (Unit {0}))
    → List Call × Option E
    → List Call × Option E
rescue env answer (made, none) = (made, none)
rescue env answer (made, some e) =
    dispatch_exception env.has_on_exception (answer on_exception) made

-- What is left of `request`: the fields `url`, `method` and `parameters`, the calls, and what it
-- throws if `onException` throws.
pub record Sent {ℓ} (E : Type ℓ) : Type ℓ where
  pub url : Text
  pub method : Text
  pub parameters : Properties Text Params
  pub made : List Call
  pub thrown : Option E

-- `request`; a parameter that is badly escaped throws out of it.
unfoldable pub request {ℓ} :
    {E : Type ℓ}
    → (Call → Outcome E (Unit {0}))
    → (Text → Bool)
    → Environment
    → Settings
    → Text
    → Outcome UriError (Sent E)
unfolding planned attempt tunnel request_url
request answer inherited env s url =
    let (method, params) = tunnel s.method (params_text s.parameters) in
    to_query_params inherited b'&' params >>= λ parameters.
    let (made, thrown) = rescue env answer (attempt answer (planned env s url)) in
    ok (record {
      url = request_url method params url;
      method = method;
      parameters = parameters;
      made = made;
      thrown = thrown;
    })
