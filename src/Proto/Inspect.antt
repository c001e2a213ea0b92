-- ===== src/Proto/Inspect.antt =====
-- `inspect` and `underscore` of strings and `$w`, of docs/skin/prototype.js.
pub mod Quoted
use sd.Common.{
  ℕ, zero, suc, Bool, true, false, ◌&&◌, ◌||◌, Option, none, some, List, [], ◌∷◌, ◌++◌, eqb, leb,
  ltb, map, if◌then◌else◌, maybe, list_beq, nat_eq,
}
use sd.Proto.Text.{Text, codes, is_space, replace_text, replace_unit}
use sd.Proto.Numbers.{to_padded_string}
use sd.Proto.Strings.{strip, is_upper, is_lower, to_lower}

-- `String.specialChar`.
abbrev pub special_char : ℕ → Option Text
special_char c =
    if eqb c 8
    then some (codes "\\b")
    else if eqb c 9
    then some (codes "\\t")
    else if eqb c 10
    then some (codes "\\n")
    else if eqb c 12
    then some (codes "\\f")
    else if eqb c 13
    then some (codes "\\r")
    else if eqb c b'\\'
    then some (codes "\\\\")
    else none

-- The replacement of a character of `[\x00-\x1f\\]`.
abbrev pub escape_char : ℕ → Text
escape_char c = maybe (special_char c) (codes "\\u00" ++ to_padded_string 2 16 c) (λ t. t)

abbrev pub escape_text : Text → Text
escape_text [] = []
escape_text (c ∷ s) = (if ltb c 32 || eqb c b'\\' then escape_char c else c ∷ []) ++ escape_text s

unfoldable pub inspect : Bool → Text → Text
inspect true s = b'"' ∷ replace_unit (λ c. eqb c b'"') (codes "\\\"") (escape_text s) ++ codes "\""
inspect false s = b'\'' ∷ replace_unit (λ c. eqb c b'\'') (codes "\\'") (escape_text s) ++ codes "'"

-- `.replace(/([A-Z]+)([A-Z][a-z])/g, '$1_$2')`: the mark is put before a capital with a capital in
-- front of it and a small letter after it.
abbrev pub part_acronyms : Bool → Text → Text
part_acronyms capital [] = []
part_acronyms capital (c ∷ []) = c ∷ []
part_acronyms capital (c ∷ (d ∷ s)) =
    (if capital && is_upper c && is_lower d then b'_' ∷ c ∷ [] else c ∷ [])
    ++ part_acronyms (is_upper c) (d ∷ s)

abbrev is_digit : ℕ → Bool
is_digit c = leb b'0' c && leb c b'9'

-- `.replace(/([a-z\d])([A-Z])/g, '$1_$2')`.
abbrev pub part_words : Bool → Text → Text
part_words small [] = []
part_words small (c ∷ s) =
    (if small && is_upper c then b'_' ∷ c ∷ [] else c ∷ [])
    ++ part_words (is_lower c || is_digit c) s

unfoldable pub underscore : Text → Text
underscore s = map to_lower (
    replace_unit (λ c. eqb c b'-') (codes "_")
      (part_words false (part_acronyms false (replace_text (codes "::") (codes "/") s))))

abbrev pub put_first : ℕ → List Text → List Text
put_first c [] = (c ∷ []) ∷ []
put_first c (p ∷ parts) = (c ∷ p) ∷ parts

-- `string.split(/\s+/)`; the flag says that the character in front is white space.
abbrev pub split_spaces : Bool → Text → List Text
split_spaces space [] = [] ∷ []
split_spaces space (c ∷ s) =
    let rest = split_spaces (is_space c) s in
    if is_space c then (if space then rest else [] ∷ rest) else put_first c rest

abbrev pub split_words : Text → List Text
split_words [] = []
split_words (c ∷ s) = split_spaces false (c ∷ s)

-- `$w`, on a string.
unfoldable pub words : Text → List Text
words s = split_words (strip s)
