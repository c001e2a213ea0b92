-- ===== src/Proto/Strings.antt =====
-- The methods that docs/skin/prototype.js adds to strings. Texts are lists of code units; a
-- pattern, that is, a regular expression, is a function that finds its first match; one with the flag
-- `y`, which keeps a state, is none.
pub mod Html
pub mod Gsub
pub mod Shape
use mathlib.Core.List.{reverse}
use sd.Common.{
  ℕ, zero, suc, ◌+◌, ◌-◌, ◌%◌, Bool, true, false, not, ◌&&◌, ◌||◌, Option, none, some, List, [],
  ◌∷◌, ◌++◌, ltb, leb, eqb, length, take, drop, replicate, if◌then◌else◌, map, list_beq, nat_eq,
  maybe,
}
use sd.Proto.Text.{
  Text, codes, is_space, is_prefix, index_of, replace_text, replace_unit, join, trim_left,
}

-- What `source.match(pattern)` returns: the place of the match, its text and its groups.
-- The place is undefined for a pattern with the flag `g`.
pub record Match (G : Type 0) : Type 0 where
  pub index : Option ℕ
  pub text : Text
  pub groups : G

abbrev pub Pattern : Type 0 → Type 0
Pattern G = Text → Option (Match G)

-- A replacement function may count or collect: `S` is what its closure keeps.
abbrev pub Replacement : Type 0 → Type 0 → Type 0
Replacement S G = S → Match G → S × Text

-- `source.slice(0, match.index)`; an undefined end is the end of the source.
abbrev pub before_match : Option ℕ → Text → Text
before_match none source = source
before_match (some i) source = take i source

-- `source.slice(match.index + match[0].length)`; the sum is NaN if the index is undefined, and the
-- slice starts at 0.
abbrev pub after_match : Option ℕ → ℕ → Text → Text
after_match none n source = source
after_match (some i) n source = drop (i + n) source

module _ {S G : Type 0} (pattern : Pattern G) (replacement : Replacement S G) where
  -- The loop of `gsub`, with `source` and `result` as they stand. The source that is left when the
  -- fuel runs out is returned too.
  pub gsub_loop : ℕ → S → Text → Text → S × Text × Text
  gsub_loop zero s source result = (s, result, source)
  gsub_loop (suc f) s [] result = (s, result, [])
  gsub_loop (suc f) s (c ∷ source) result =
      maybe (pattern (c ∷ source)) (s, result ++ c ∷ source, [])
        λ m.
          let (s', text) = replacement s m in
          let rest =
            gsub_loop f s' (after_match m.index (length m.text) (c ∷ source))
              (result ++ (before_match m.index (c ∷ source) ++ text)) in
          if ltb 0 (length m.text) then rest else (s, result ++ c ∷ source, [])

  -- `gsub` for a pattern that is not the empty one and has no flag `g`: a match takes a code unit at
  -- least, so the length of the source bounds the rounds.
  unfoldable pub gsub : S → Text → S × Text
  unfolding gsub_loop
  gsub s source = let r = gsub_loop (length source) s source [] in (r.0, r.1)

-- `gsub` for an empty pattern.
unfoldable pub gsub_empty : Text → Text → Text
gsub_empty replacement source =
    replacement ++ (join replacement (map (λ c. c ∷ []) source) ++ replacement)

module _ {S G : Type 0} (pattern : Pattern G) (replacement : Replacement S G) where
  -- The closure of `sub` counts down: `--count < 0` holds from the call on that finds 0.
  sub_replacement : Replacement (ℕ × S) G
  sub_replacement (zero, s) m = ((zero, s), m.text)
  sub_replacement (suc n, s) m = let (s', t) = replacement s m in ((n, s'), t)

  unfoldable pub sub : S → ℕ → Text → S × Text
  unfolding gsub sub_replacement
  sub s count source = let ((n, s'), t) = gsub pattern sub_replacement (count, s) source in (s', t)

-- `scan` runs the iterator on the matches, and returns the text itself.
unfoldable pub scan : {S G : Type 0} → Pattern G → (S → Match G → S) → S → Text → S × Text
unfolding gsub
scan pattern iterator s source = ((gsub pattern (λ s m. (iterator s m, [])) s source).0, source)

-- `slice(0, length - truncation.length)`; a negative end counts from the end of the text.
slice_to : ℕ → ℕ → Text → Text
slice_to end less s = if leb less end then take (end - less) s else take (length s - (less - end)) s

unfoldable pub truncate : ℕ → Text → Text → Text
unfolding slice_to
truncate limit truncation s =
    let n = if eqb limit 0 then 30 else limit in
    if ltb n (length s) then slice_to n (length truncation) s ++ truncation else s

unfoldable pub strip : Text → Text
strip s = reverse (trim_left (reverse (trim_left s)))

-- `stripTags` is a regular expression; it is an argument here.
unfoldable pub escape_html : Text → Text
escape_html s =
    replace_unit (λ c. eqb c b'>') (codes "&gt;")
      (replace_unit (λ c. eqb c b'<') (codes "&lt;")
        (replace_unit (λ c. eqb c b'&') (codes "&amp;") s))

unfoldable pub unescape_html : (Text → Text) → Text → Text
unescape_html strip_tags s = replace_text (codes "&amp;") (codes "&") (
    replace_text (codes "&gt;") (codes ">")
      (replace_text (codes "&lt;") (codes "<") (strip_tags s)))

unfoldable pub to_array : Text → List Text
to_array s = map (λ c. c ∷ []) s

-- Code units have 16 bits. Of the empty text `charCodeAt(-1)` is NaN, which `fromCharCode` takes
-- for 0.
unfoldable pub succ : Text → Text
succ [] = 0 ∷ []
succ (c ∷ []) = ((c + 1) % 65536) ∷ []
succ (c ∷ (d ∷ s)) = c ∷ succ (d ∷ s)

-- `new Array(count + 1).join(this)`.
unfoldable pub times : ℕ → Text → Text
times count s = if ltb count 1 then [] else join s (replicate (count + 1) [])

abbrev pub is_upper : ℕ → Bool
is_upper c = leb b'A' c && leb c b'Z'

abbrev pub is_lower : ℕ → Bool
is_lower c = leb b'a' c && leb c b'z'

-- `toUpperCase` and `toLowerCase` of a code unit, within ASCII.
abbrev pub to_upper : ℕ → ℕ
to_upper c = if is_lower c then c - 32 else c

abbrev pub to_lower : ℕ → ℕ
to_lower c = if is_upper c then c + 32 else c

-- What `.` does not match, within ASCII.
abbrev pub is_line_end : ℕ → Bool
is_line_end c = eqb c 10 || eqb c 13

-- The replacement of `/-+(.)?/g`; the flag says that dashes have just been read.
pub camel : Bool → Text → Text
camel dashes [] = []
camel dashes (c ∷ s) =
    let rest = camel (eqb c b'-') s in
    if eqb c b'-' then rest else (if dashes && not (is_line_end c) then to_upper c else c) ∷ rest

unfoldable pub camelize : Text → Text
unfolding camel
camelize s = camel false s

unfoldable pub capitalize : Text → Text
capitalize [] = []
capitalize (c ∷ s) = to_upper c ∷ map to_lower s

unfoldable pub dasherize : Text → Text
dasherize s = replace_unit (λ c. eqb c b'_') (codes "-") s

unfoldable pub include : Text → Text → Bool
include pattern s = maybe (index_of pattern s) false (λ i. true)

-- `s.lastIndexOf(p, position)`: the last place at most `position`, going down from there.
pub last_index_from : Text → Text → ℕ → Option ℕ
last_index_from p s zero = if is_prefix p s then some 0 else none
last_index_from p s (suc k) =
    let rest = last_index_from p s k in if is_prefix p (drop (suc k) s) then some (suc k) else rest

abbrev pub found_at : ℕ → Option ℕ → Bool
found_at k none = false
found_at k (some i) = eqb i k

-- A position past the end stands for the end.
unfoldable pub starts_with : Text → ℕ → Text → Bool
unfolding last_index_from
starts_with pattern position s =
    found_at position
      (last_index_from pattern s (if ltb (length s) position then length s else position))

-- `s.indexOf(p, d)`, for `d` at most the length of `s`.
abbrev pub index_of_from : Text → Text → ℕ → Option ℕ
index_of_from p s d = maybe (index_of p (drop d s)) none (λ i. some (d + i))

abbrev end_position : Option ℕ → ℕ → ℕ
end_position none n = n
end_position (some p) n = if ltb n p then n else p

unfoldable pub ends_with : Text → Option ℕ → Text → Bool
ends_with pattern position s =
    let p = end_position position (length s) in
    if leb (length pattern) p
    then found_at (p - length pattern) (index_of_from pattern s (p - length pattern))
    else false

unfoldable pub empty : Text → Bool
empty s = list_beq s []

-- `/^\s*$/.test(this)`.
unfoldable pub blank : Text → Bool
blank [] = true
blank (c ∷ s) = is_space c && blank s
