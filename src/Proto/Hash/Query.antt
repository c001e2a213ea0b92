-- ===== src/Proto/Hash/Query.antt =====
-- `Hash.toQueryString` and `String.toQueryParams`. Here a text is the list of its UTF-8 octets,
-- so that `encodeURIComponent` works octet by octet.
pub mod Params
pub mod Codec
pub mod Marks
pub mod RoundTrip
use sd.Common.{
  ℕ, zero, suc, ◌+◌, ◌-◌, ◌*◌, ◌/◌, ◌%◌, Bool, true, false, not, ◌&&◌, ◌||◌, Option, none, some,
  List, [], ◌∷◌, ◌++◌, map, leb, eqb, if◌then◌else◌, maybe, Outcome, ok, err, ◌>>=◌, text_eq,
}
use sd.Proto.Text.{Text, codes, replace_text, replace_unit, join, split_on}
use sd.Proto.Strings.{strip}
use sd.Proto.Hash.{Properties, own, set}

-- The octets that `encodeURIComponent` leaves: letters, digits and - _ . ! ~ * ' ( ).
abbrev pub is_unreserved : ℕ → Bool
is_unreserved c =
    leb b'a' c && leb c b'z'
    || (leb b'A' c && leb c b'Z')
    || (leb b'0' c && leb c b'9')
    || (eqb c b'-' || eqb c b'_' || eqb c b'.' || eqb c b'!' || eqb c b'~')
    || (leb 39 c && leb c 42)

abbrev pub hex_digit : ℕ → ℕ
hex_digit d = if leb d 9 then 48 + d else 55 + d

unfoldable pub encode : Text → Text
encode [] = []
encode (c ∷ s) =
    (if is_unreserved c then c ∷ [] else b'%' ∷ hex_digit (c / 16) ∷ hex_digit (c % 16) ∷ [])
    ++ encode s

-- The value of a hexadecimal digit.
abbrev pub hex_value : ℕ → Option ℕ
hex_value c =
    if leb 48 c && leb c 57
    then some (c - 48)
    else if leb 65 c && leb c 70
    then some (c - 55)
    else if leb 97 c && leb c 102
    then some (c - 87)
    else none

-- `decodeURIComponent` throws a URIError on a malformed escape. (It also throws if the octets are
-- no UTF-8; here octets are kept.)
pub data UriError : Type 0 where
  malformed : UriError

unfoldable pub decode : Text → Outcome UriError Text
decode [] = ok []
decode (c ∷ []) = if eqb c b'%' then err malformed else ok (c ∷ [])
decode (c ∷ (d ∷ [])) = if eqb c b'%' || eqb d b'%' then err malformed else ok (c ∷ d ∷ [])
decode (c ∷ (d ∷ (e ∷ s))) =
    let escaped = decode s in
    let plain = decode (d ∷ (e ∷ s)) in
    if eqb c b'%'
    then (maybe (hex_value d) (err malformed)
        λ x. maybe (hex_value e) (err malformed) λ y. escaped >>= λ t. ok ((16 * x + y) ∷ t))
    else plain >>= λ t. ok (c ∷ t)

-- The values that a hash may hold: scalars, arrays of them, and other objects.
pub data Scalar : Type 0 where
  undef null : Scalar
  text : Text → Scalar

pub data Value : Type 0 where
  scalar : Scalar → Value
  array : List Scalar → Value
  object : Value

-- `String.interpret`.
abbrev pub interpret : Scalar → Text
interpret undef = []
interpret null = []
interpret (text s) = s

-- `value.gsub(/(\r)?\n/, '\r\n')`: the flag says that a carriage return has just been read.
abbrev pub newlines : Bool → Text → Text
newlines cr [] = if cr then 13 ∷ [] else []
newlines cr (c ∷ s) =
    let rest = newlines (eqb c 13) s in
    if eqb c 10
    then 13 ∷ (10 ∷ rest)
    else (if cr then 13 ∷ [] else []) ++ (if eqb c 13 then rest else c ∷ rest)

unfoldable pub to_query_pair : Text → Scalar → Text
unfolding encode
to_query_pair key undef = key
to_query_pair key null = key ++ b'=' ∷ []
to_query_pair key (text s) =
    key ++ (b'=' ∷ replace_text (codes "%20") (codes "+") (encode (newlines false s)))

-- What `inject` adds to `results` for a pair; an object that is no array adds nothing.
unfoldable pub query_parts : Text → Value → List Text
unfolding to_query_pair
query_parts key (scalar v) = to_query_pair key v ∷ []
query_parts key (array vs) = map (to_query_pair key) vs
query_parts key object = []

unfoldable pub all_parts : Properties Text Value → List Text
unfolding query_parts encode
all_parts [] = []
all_parts ((k, v) ∷ h) = query_parts (encode k) v ++ all_parts h

unfoldable pub to_query_string : Properties Text Value → Text
unfolding all_parts
to_query_string h = join (codes "&") (all_parts h)
