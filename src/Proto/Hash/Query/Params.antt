-- ===== src/Proto/Hash/Query/Params.antt =====
-- `String.toQueryParams`.
use sd.Common.{
  Bool, true, false, none, List, [], ◌∷◌, ◌++◌, eqb, if◌then◌else◌, maybe, Outcome, ok, ◌>>=◌, ℕ,
  text_eq, ◌||◌, ◌≡◌, ◌≢◌, refl,
}
use sd.Proto.Text.{Text, codes, replace_unit, join, split_on, none_of}
use sd.Proto.Strings.{strip, is_line_end}
use sd.Proto.Hash.{Properties, own, set}
use sd.Proto.Hash.Query.{UriError, decode}

-- A value of the resulting object: what a pair gives, and `native` for what an object inherits.
pub data Param : Type 0 where
  absent : Param
  given : Text → Param
  native : Param

pub data Params : Type 0 where
  one : Param → Params
  many : List Param → Params

-- The longest beginning with neither `?` nor `#`, and the rest.
abbrev pub before_mark : Text → Text × Text
before_mark [] = ([], [])
before_mark (c ∷ s) =
    let (a, b) = before_mark s in if eqb c b'?' || eqb c b'#' then ([], c ∷ s) else (c ∷ a, b)

-- `(#.*)?$` matches the whole rest.
abbrev pub is_fragment : Text → Bool
is_fragment [] = true
is_fragment (c ∷ s) = if eqb c b'#' then none_of is_line_end s else false

-- The first group of the leftmost match of `/([^?#]*)(#.*)?$/`.
abbrev pub query_part : Text → Text
query_part [] = []
query_part (c ∷ s) =
    let later = query_part s in
    let (a, b) = before_mark (c ∷ s) in if is_fragment b then a else later

-- `hash[key]` is made an array if it is none, and takes the value too.
abbrev pub push_param : Param → Params → Params
push_param p (one q) = many (q ∷ p ∷ [])
push_param p (many qs) = many (qs ++ p ∷ [])

-- `key in hash` finds what the object inherits, too.
add_param : (Text → Bool) → Text → Param → Properties Text Params → Properties Text Params
add_param inherited key value hash =
    maybe (own key hash)
      (set key (if inherited key then push_param value (one native) else one value) hash)
      (λ old. set key (push_param value old) hash)

-- `value.gsub('+', ' ')` and `decodeURIComponent`, of a pair split at its `=`.
pair_value : List Text → Outcome UriError Param
pair_value [] = ok absent
pair_value (p ∷ ps) =
    decode (replace_unit (λ c. eqb c b'+') (codes " ") (join (codes "=") (p ∷ ps))) >>= λ v.
    ok (given v)

-- The function that `toQueryParams` passes to `inject`, of a pair split at its `=`.
pub param_step :
    (Text → Bool) → Properties Text Params → List Text → Outcome UriError (Properties Text Params)
unfolding add_param pair_value
param_step inherited hash [] = ok hash
param_step inherited hash ([] ∷ rest) = ok hash
param_step inherited hash ((c ∷ key) ∷ rest) =
    decode (c ∷ key) >>= λ k. pair_value rest >>= λ v. ok (add_param inherited k v hash)

-- A pair of a name that is new to the hash, and is not inherited.
pub param_step-new :
    (inherited : Text → Bool) (hash : Properties Text Params) (name value : Text) {k v : Text}
    → name ≢ []
    → decode name ≡ ok k
    → decode (replace_unit (λ c. eqb c b'+') (codes " ") value) ≡ ok v
    → own k hash ≡ none
    → inherited k ≡ false
    → param_step inherited hash (name ∷ (value ∷ [])) ≡ ok (set k (one (given v)) hash)
unfolding param_step
param_step-new inherited hash [] value ne d e fresh plain = absurd (ne refl)
param_step-new inherited hash (c ∷ name) value ne d e fresh plain = simp (d, e, fresh, plain)

-- A pair with no name is passed over.
pub param_step-nil :
    (inherited : Text → Bool) (hash : Properties Text Params) (rest : List Text)
    → param_step inherited hash ([] ∷ rest) ≡ ok hash
unfolding param_step
param_step-nil inherited hash rest = refl

unfoldable pub param_loop :
    (Text → Bool) → Properties Text Params → List Text → Outcome UriError (Properties Text Params)
param_loop inherited hash [] = ok hash
param_loop inherited hash (pair ∷ pairs) =
    param_step inherited hash (split_on b'=' pair) >>= λ h. param_loop inherited h pairs

unfoldable pub to_query_params :
    (Text → Bool) → ℕ → Text → Outcome UriError (Properties Text Params)
unfolding param_loop
to_query_params inherited separator s =
    param_loop inherited [] (split_on separator (query_part (strip s)))
