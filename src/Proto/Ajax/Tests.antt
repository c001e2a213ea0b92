-- ===== src/Proto/Ajax/Tests.antt =====
-- The theorems on requests and responders, on concrete ones.
use Prim.Native.String.{String}
use sd.Common.{
  ℕ, ◌+◌, ◌≡◌, refl, true, false, some, List, [], ◌∷◌, ok, err, inr, false, nat_eq, if◌then◌else◌,
  text_eq, ◌==◌,
}
use sd.Proto.Text.{codes}
use sd.Proto.Ajax.{throws, missing, Options, force, Transport, Request, deliver}
use sd.Proto.Ajax.Steps.{outcomes}
use sd.Proto.Ajax.Completion.{due, deliver-once}

-- Options whose `onSuccess` throws.
abbrev options : Options String
options = record {
  callback = λ name. if name == codes "onSuccess" then throws "failed" else missing;
  eval_js = force;
}

abbrev transport : Transport String
transport = record {
  status = some 200;
  is_same_origin = true;
  script_type = false;
  evaluated = err "syntax";
  header_json = ok tt;
  response_json = err "JSON";
  internet_explorer = false;
}

abbrev pending : Request
pending = record { complete = false; listening = true; reports = [] }

deliver-once_example :
    outcomes (deliver options transport (2 ∷ 3 ∷ 4 ∷ 4 ∷ []) pending).reports
    ≡ 0 + due (2 ∷ 3 ∷ 4 ∷ 4 ∷ [])
deliver-once_example =
    deliver-once options transport (2 ∷ 3 ∷ 4 ∷ 4 ∷ []) pending (inr λ e. λ q. cc) refl refl

abbrev others : List ℕ
others = 1 ∷ 2 ∷ []
