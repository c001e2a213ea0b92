-- ===== src/Proto/Strings/Html.antt =====
-- `escapeHTML` and `unescapeHTML`.
use sd.Common.{
  ℕ, ◌≡◌, refl, Bool, true, false, [], ◌∷◌, ◌++◌, inl, inr, arith, eqb, Bool-cases, if◌then◌else◌,
}
use sd.Proto.Text.{Text, codes, replace_text, none_of}
use sd.Proto.Strings.{escape_html, unescape_html}

-- A text whose units of the three kinds stand as they are, or as their entities.
abbrev entities : Bool → Bool → Bool → Text → Text
entities amp lt gt [] = []
entities amp lt gt (c ∷ s) =
    (if eqb c b'&'
      then (if amp then codes "&amp;" else codes "&")
      else if eqb c b'<'
      then (if lt then codes "&lt;" else codes "<")
      else if eqb c b'>'
      then (if gt then codes "&gt;" else codes ">")
      else c ∷ [])
    ++ entities amp lt gt s

-- A unit that is none of the three, or which one it is.
data Kind (c : ℕ) : Type 0 where
  ampersand : c ≡ b'&' → Kind c
  less : c ≡ b'<' → Kind c
  greater : c ≡ b'>' → Kind c
  other : eqb c b'&' ≡ false → eqb c b'<' ≡ false → eqb c b'>' ≡ false → eqb b'&' c ≡ false → Kind c

kind : (c : ℕ) → Kind c
kind c = elim (Bool-cases (eqb c b'&')) [
  | inl a ↦ ampersand (ground arith)
  | inr a ↦ elim (Bool-cases (eqb c b'<')) [
    | inl l ↦ less (ground arith)
    | inr l ↦ elim (Bool-cases (eqb c b'>')) [
      | inl g ↦ greater (ground arith)
      | inr g ↦ other a l g (ground arith)
    ]
  ]
]

escape_html-entities : (s : Text) → escape_html s ≡ entities true true true s
unfolding escape_html
escape_html-entities [] = refl
escape_html-entities (c ∷ s) = elim (kind c) [
  | ampersand e ↦ rw e (simp (escape_html-entities s))
  | less e ↦ rw e (simp (escape_html-entities s))
  | greater e ↦ rw e (simp (escape_html-entities s))
  | other a l g r ↦ simp (a, l, g, escape_html-entities s)
]

none_of-entities : (s : Text) → none_of (λ c. eqb c b'<') (entities true true true s) ≡ true
none_of-entities [] = refl
none_of-entities (c ∷ s) = elim (kind c) [
  | ampersand e ↦ rw e (none_of-entities s)
  | less e ↦ rw e (none_of-entities s)
  | greater e ↦ rw e (none_of-entities s)
  | other a l g r ↦ simp (a, l, g, none_of-entities s)
]

-- The three replacements of `unescapeHTML`, one after the other.
replace-lt :
    (s : Text)
    → replace_text (codes "&lt;") (codes "<") (entities true true true s)
      ≡ entities true false true s
replace-lt [] = refl
replace-lt (c ∷ s) = elim (kind c) [
  | ampersand e ↦ rw e (simp (replace-lt s))
  | less e ↦ rw e (simp (replace-lt s))
  | greater e ↦ rw e (simp (replace-lt s))
  | other a l g r ↦ simp (a, l, g, r, replace-lt s)
]

replace-gt :
    (s : Text)
    → replace_text (codes "&gt;") (codes ">") (entities true false true s)
      ≡ entities true false false s
replace-gt [] = refl
replace-gt (c ∷ s) = elim (kind c) [
  | ampersand e ↦ rw e (simp (replace-gt s))
  | less e ↦ rw e (simp (replace-gt s))
  | greater e ↦ rw e (simp (replace-gt s))
  | other a l g r ↦ simp (a, l, g, r, replace-gt s)
]

replace-amp :
    (s : Text) → replace_text (codes "&amp;") (codes "&") (entities true false false s) ≡ s
replace-amp [] = refl
replace-amp (c ∷ s) = elim (kind c) [
  | ampersand e ↦ rw e (simp (replace-amp s))
  | less e ↦ rw e (simp (replace-amp s))
  | greater e ↦ rw e (simp (replace-amp s))
  | other a l g r ↦ simp (a, l, g, r, replace-amp s)
]

-- `unescapeHTML` undoes `escapeHTML`, if `stripTags` leaves a text with no `<` as it is.
pub unescape_html-escape_html :
    (strip_tags : Text → Text)
    → ((t : Text) → none_of (λ c. eqb c b'<') t ≡ true → strip_tags t ≡ t)
    → (s : Text) → unescape_html strip_tags (escape_html s) ≡ s
unfolding unescape_html
unescape_html-escape_html strip_tags keeps s =
    rw (escape_html-entities s, keeps _ (none_of-entities s), replace-lt s, replace-gt s)
      (replace-amp s)
