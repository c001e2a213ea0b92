-- ===== src/Proto/Text.antt =====
-- Texts of docs/skin/prototype.js as lists of code units, and the built-in operations on strings
-- and regular expressions that the file uses: `slice`, `indexOf`, `split`, `join`, `replace`.
pub mod Laws
use Prim.Native.Char.{code}
use Prim.Native.String.{String}
use sd.Common.{
  ℕ, zero, suc, ◌-◌, Bool, true, false, ◌&&◌, ◌||◌, Option, none, some, List, [], ◌∷◌, ◌++◌, leb,
  eqb, length, if◌then◌else◌,
}

abbrev pub Text : Type 0
Text = List ℕ

-- The code units of a literal.
abbrev pub codes : String → Text
codes String.[] = []
codes (String.◌∷◌ c s) = code c ∷ codes s

-- The white space of `\s`, within ASCII.
abbrev pub is_space : ℕ → Bool
is_space c = eqb c 32 || leb 9 c && leb c 13

abbrev pub is_prefix : Text → Text → Bool
is_prefix [] s = true
is_prefix (p ∷ ps) [] = false
is_prefix (p ∷ ps) (c ∷ s) = if eqb p c then is_prefix ps s else false

abbrev pub one_later : Option ℕ → Option ℕ
one_later none = none
one_later (some n) = some (suc n)

-- `s.indexOf(p)`, where `none` is -1.
abbrev pub index_of : Text → Text → Option ℕ
index_of p [] = if is_prefix p [] then some 0 else none
index_of p (c ∷ s) =
    let rest = one_later (index_of p s) in if is_prefix p (c ∷ s) then some 0 else rest

-- `s.replace(p, r)` for a regular expression with the flag g that matches just the text `p`, which
-- is not empty: `skip` code units belong to a match that has been replaced.
abbrev pub replace_from : Text → Text → ℕ → Text → Text
replace_from p r skip [] = []
replace_from p r (suc n) (c ∷ s) = replace_from p r n s
replace_from p r zero (c ∷ s) =
    let hit = is_prefix p (c ∷ s) in
    (if hit then r else c ∷ []) ++ replace_from p r (if hit then length p - 1 else 0) s

abbrev pub replace_text : Text → Text → Text → Text
replace_text p r s = replace_from p r 0 s

-- `s.replace(c, r)` for a regular expression with the flag g that matches one code unit.
abbrev pub replace_unit : (ℕ → Bool) → Text → Text → Text
replace_unit p r [] = []
replace_unit p r (c ∷ s) = (if p c then r else c ∷ []) ++ replace_unit p r s

abbrev pub push_part : Bool → ℕ → List Text → List Text
push_part true c parts = [] ∷ parts
push_part false c [] = (c ∷ []) ∷ []
push_part false c (p ∷ parts) = (c ∷ p) ∷ parts

-- `s.split(sep)` for a separator of one code unit.
abbrev pub split_on : ℕ → Text → List Text
split_on sep [] = [] ∷ []
split_on sep (c ∷ s) = push_part (eqb c sep) c (split_on sep s)

-- `parts.join(sep)`.
abbrev pub join : Text → List Text → Text
join sep [] = []
join sep (p ∷ []) = p
join sep (p ∷ (q ∷ ps)) = p ++ (sep ++ join sep (q ∷ ps))

-- `s.replace(/^\s+/, '')`.
abbrev pub trim_left : Text → Text
trim_left [] = []
trim_left (c ∷ s) = if is_space c then trim_left s else c ∷ s

-- No code unit of the text passes the test.
abbrev pub none_of : (ℕ → Bool) → Text → Bool
none_of p [] = true
none_of p (c ∷ s) = if p c then false else none_of p s
