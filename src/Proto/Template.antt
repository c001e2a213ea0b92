-- ===== src/Proto/Template.antt =====
-- Class `Template` of docs/skin/prototype.js, with its own pattern. What an object has under a name,
-- and how a value is written, are arguments.
pub mod Markers
pub mod Evaluation
use sd.Common.{
  ℕ, zero, suc, ◌+◌, Bool, true, false, not, ◌&&◌, ◌||◌, Option, none, some, List, [], ◌∷◌, ◌++◌,
  eqb, length, if◌then◌else◌, maybe, list_beq, nat_eq,
}
use sd.Proto.Text.{Text, codes, replace_text}
use sd.Proto.Strings.{Match, Pattern, Replacement, gsub, is_line_end}

-- The groups of a match of `Template.Pattern`.
pub record Groups : Type 0 where
  pub before : Text
  pub whole : Text
  pub expr : Text

-- `(.*?)\}`: the characters up to the first brace.
abbrev pub up_to_brace : Text → Option Text
up_to_brace [] = none
up_to_brace (c ∷ s) =
    let rest = up_to_brace s in
    if eqb c b'}'
    then some []
    else if is_line_end c
    then none
    else maybe rest none (λ e. some (c ∷ e))

-- `#\{(.*?)\}` at the start of a text: the expression.
abbrev pub marker : Text → Option Text
marker [] = none
marker (c ∷ []) = none
marker (c ∷ (d ∷ s)) = if eqb c b'#' && eqb d b'{' then up_to_brace s else none

abbrev pub found : ℕ → Text → Text → Match Groups
found i before expr =
    let whole = b'#' ∷ b'{' ∷ expr ++ codes "}" in
    record {
      index = some i;
      text = before ++ whole;
      groups = record { before = before; whole = whole; expr = expr };
    }

-- The first match from the place `i` on; at the start of the text no character need stand before.
pub first_match : Bool → ℕ → Text → Option (Match Groups)
first_match start i [] = none
first_match start i (c ∷ s) =
    let later = first_match false (suc i) s in
    maybe (if start then marker (c ∷ s) else none)
      (maybe (marker s) later (λ e. some (found i (c ∷ []) e))) (λ e. some (found i [] e))

-- `Template.Pattern`.
unfoldable pub template_pattern : Pattern Groups
unfolding first_match
template_pattern s = first_match true 0 s

-- What a match of the pattern of `evaluate` gives: its first group, the name, its last group, where
-- an end is `none`, and what follows the match.
pub record Component : Type 0 where
  pub group : Text
  pub name : Text
  pub stop : Option ℕ
  pub rest : Text

abbrev pub stopped : Text → Text → Text → Option Component
stopped group name [] = some (record { group = group; name = name; stop = none; rest = [] })
stopped group name (c ∷ s) =
    if eqb c b'.' || eqb c b'['
    then some (record { group = group; name = name; stop = some c; rest = s })
    else none

-- `[^.[]+`, and what follows it.
abbrev pub split_name : Text → Text × Text
split_name [] = ([], [])
split_name (c ∷ s) =
    let r = split_name s in if eqb c b'.' || eqb c b'[' then ([], c ∷ s) else (c ∷ r.0, r.1)

-- `(?:.*?[^\\])\](\.|\[|$)`, the shortest: the content, and what follows the bracket.
abbrev pub split_bracket : Text → Option (Text × Text)
split_bracket [] = none
split_bracket (x ∷ []) = none
split_bracket (x ∷ (y ∷ s)) =
    let longer = split_bracket (y ∷ s) in
    if not (eqb x b'\\') && eqb y b']' && maybe (stopped [] [] s) false (λ m. true)
    then some (x ∷ [], s)
    else if is_line_end x
    then none
    else maybe longer none (λ r. some (x ∷ r.0, r.1))

-- The bracket with nothing in it is tried last.
abbrev pub bracket_content : Text → Option (Text × Text)
bracket_content [] = split_bracket []
bracket_content (c ∷ s) =
    maybe (split_bracket (c ∷ s)) (if eqb c b']' then some ([], s) else none) some

abbrev pub component : Text → Option Component
component [] = none
component (c ∷ s) =
    let (word, follows) = split_name (c ∷ s) in
    if eqb c b'['
    then maybe (bracket_content s) none
        (λ r. stopped (b'[' ∷ r.0 ++ codes "]") (replace_text (codes "\\\\]") (codes "]") r.0) r.1)
    else if eqb c b'.'
    then none
    else stopped word word follows

-- What is left of the expression after a component.
abbrev pub remaining : Component → Text
remaining m = maybe m.stop m.rest λ c. if eqb c b'[' then c ∷ m.rest else m.rest

module _ {V : Type 0} (property : V → Text → Option V) (interpret : V → Text) where
  -- The loop of `evaluate`: `null` and `undefined` are `none`, and are written as the empty text.
  pub follow : ℕ → V → Component → Text
  follow zero ctx m = []
  follow (suc fuel) ctx m = maybe (property ctx m.name) [] λ ctx'.
      let last = interpret ctx' in
      maybe m.stop last λ c. maybe (component (remaining m)) last (follow fuel ctx')

  -- The replacement of a match. The expression gets shorter with each component.
  pub substitute : Option V → Groups → Text
  unfolding follow
  substitute none g = g.before
  substitute (some object) g =
      if list_beq g.before (codes "\\")
      then g.whole
      else maybe (component g.expr) g.before λ m. g.before ++ follow (length g.expr) object m

  -- `evaluate`, on the object, or what its `toTemplateReplacements` gives.
  unfoldable pub evaluate : Option V → Text → Text
  unfolding substitute template_pattern gsub
  evaluate object template =
      (gsub template_pattern (λ (s : Unit) m. (s, substitute object m.groups)) tt template).1
