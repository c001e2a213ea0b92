-- ===== src/Proto/Ajax/SendingTests.antt =====
-- The theorems on sending, on responses and on updaters, on concrete requests.
use Prim.Native.String.{String}
use sd.Common.{ℕ, ◌≡◌, refl, true, false, none, some, [], ◌∷◌, ◌++◌, ok, maybe, text_eq}
use sd.Proto.Text.{Text, codes}
use sd.Proto.Hash.{own}
use sd.Proto.Hash.Query.{undef}
use sd.Proto.Ajax.{Options, Request, allowed, missing, never}
use sd.Proto.Ajax.Sending.{
  Environment, Settings, string, array, default_headers, set_request_headers,
}
use sd.Proto.Ajax.Sending.Headers.{
  values_set, sent_value, last_value, given_pairs, set_request_headers_lem,
}
use sd.Proto.Ajax.Response.{Location, origin, is_same_origin, Engine, Answer, get_response_json}
use sd.Proto.Ajax.Response.Origin.{Ends, is_same_origin-absolute}
use sd.Proto.Ajax.Response.Sanitize.{with_eval, get_response_json-other_origin}
use sd.Proto.Ajax.Updater.{Periodical}

abbrev environment : Environment
environment = record {
  override_mime_type = false;
  gecko_before_2005 = false;
  version = codes "1.7.3";
  has_on_create = true;
  has_on_exception = false;
}

abbrev settings : Settings
settings = record {
  method = codes "put";
  asynchronous = true;
  content_type = codes "text/plain";
  encoding = codes "UTF-8";
  parameters = string [];
  post_body = [];
  request_headers = array (codes "Accept" ∷ codes "text/html" ∷ codes "X-A" ∷ []);
}

set_request_headers_lem_example :
    values_set (codes "Accept") (set_request_headers environment settings (codes "post"))
    ≡ sent_value (
        maybe
          (last_value (codes "Accept") (given_pairs settings.request_headers))
          (own (codes "Accept") (default_headers environment settings (codes "post")))
          some)
set_request_headers_lem_example =
    set_request_headers_lem environment settings (codes "post") (codes "Accept")

abbrev here : Location
here = record { protocol = codes "http:"; domain = codes "a.org"; port = codes "80" }

is_same_origin-absolute_example :
    (rest : Text) × (codes "http://a.org:80/x" ≡ origin here ++ rest) × Ends rest
is_same_origin-absolute_example =
    is_same_origin-absolute here (codes "http://a.org:80/x") (codes "http://a.org:80") refl
      (unfold is_same_origin in refl)

-- An engine that takes no text for JSON.
abbrev engine : Engine String ℕ
engine = record {
  unfilter = λ s. s;
  is_json = λ s. false;
  eval = λ s. ok 1;
  syntax_error = λ s. "syntax";
  decode_header = λ s. some s;
}

abbrev options : Options String
options = record { callback = λ name. missing; eval_js = never }

abbrev answer : Answer String ℕ
answer = record {
  status = some 200;
  status_text = none;
  response_text = undef;
  response_xml = none;
  header = λ name. ok (some (codes "application/json"));
}

abbrev pending : Request
pending = record { complete = true; listening = true; reports = [] }

get_response_json-other_origin_example :
    get_response_json
      (with_eval (λ s. ok 2) engine)
      options
      allowed
      false
      false
      answer
      (codes "f()")
      pending
    ≡ get_response_json engine options allowed false false answer (codes "f()") pending
get_response_json-other_origin_example =
    get_response_json-other_origin engine options allowed false answer (codes "f()") pending
      (λ s. ok 2) refl

abbrev periodical : Periodical
periodical = record {
  frequency = 2;
  decay = 1;
  option_decay = 3;
  last_text = some (codes "a");
  timer = none;
  listening = true;
  requests = 4;
  finished = 0;
}
