-- ===== src/Proto/Inspect/Quoted.antt =====
-- A reader of brackets and strings, and what `inspect` gives it to read.
use sd.Common.{
  ℕ, ◌≡◌, refl, ap, ◌∙◌, Bool, true, false, ◌||◌, Option, none, some, List, [], ◌∷◌, ◌++◌, All, eqb,
  ltb, if◌then◌else◌, maybe, inl, inr, Bool-cases, arith,
}
use sd.Proto.Text.{Text, codes, replace_unit}
use sd.Proto.Numbers.{to_padded_string, All-to_padded_string}
use sd.Proto.Inspect.{escape_char, escape_text, inspect}

-- Between values, in a string, or after a backslash in a string; what is there while brackets are
-- open is the list of the brackets that close them.
pub data Mode : Type 0 where
  outside quoted escaped : Mode

abbrev pub close : ℕ → List ℕ → Option (List ℕ)
close c [] = none
close c (d ∷ opened) = if eqb c d then some opened else none

-- The state after a character of a JSON text, if it may stand there.
abbrev pub step : ℕ → Mode × List ℕ → Option (Mode × List ℕ)
step c (outside, opened) =
    if eqb c b'"'
    then some (quoted, opened)
    else if eqb c b'['
    then some (outside, b']' ∷ opened)
    else if eqb c b'{'
    then some (outside, b'}' ∷ opened)
    else if eqb c b']' || eqb c b'}'
    then maybe (close c opened) none (λ o. some (outside, o))
    else some (outside, opened)
step c (quoted, opened) =
    if eqb c b'"'
    then some (outside, opened)
    else if eqb c b'\\'
    then some (escaped, opened)
    else if ltb c 32
    then none
    else some (quoted, opened)
step c (escaped, opened) = if ltb c 32 then none else some (quoted, opened)

unfoldable pub read_text : Text → Mode × List ℕ → Option (Mode × List ℕ)
read_text [] state = some state
read_text (c ∷ s) state = maybe (step c state) none (read_text s)

-- A text that leaves the reader in the mode where it was.
abbrev pub Keeps : Mode → Text → Type 0
Keeps mode s = (opened : List ℕ) → read_text s (mode, opened) ≡ some (mode, opened)

pub read_text-append :
    (a b : Text) (state : Mode × List ℕ)
    → read_text (a ++ b) state ≡ maybe (read_text a state) none (read_text b)
unfolding read_text
read_text-append [] b state = refl
read_text-append (c ∷ a) b state = go (step c state) (read_text-append a b)
  where
    go :
        (o : Option (Mode × List ℕ))
        → ((next : Mode × List ℕ)
            → read_text (a ++ b) next ≡ maybe (read_text a next) none (read_text b))
        → maybe o none (read_text (a ++ b)) ≡ maybe (maybe o none (read_text a)) none (read_text b)
    go none ih = refl
    go (some next) ih = ih next

pub Keeps-append : (mode : Mode) (a b : Text) → Keeps mode a → Keeps mode b → Keeps mode (a ++ b)
Keeps-append mode a b h k opened =
    read_text-append a b (mode, opened) ∙ ap (λ o. maybe o none (read_text b)) (h opened) ∙ k opened

-- A character that stands for itself in a string.
abbrev pub Literal : ℕ → Type 0
Literal c = (eqb c b'"' ≡ false) × (eqb c b'\\' ≡ false) × (ltb c 32 ≡ false)

Keeps-literals : (s : Text) → All Literal s → Keeps quoted s
unfolding read_text
Keeps-literals [] a opened = refl
Keeps-literals (c ∷ s) a opened = simp (a.0.0, a.0.1, a.0.2) (Keeps-literals s a.1 opened)

-- A backslash, and a character after it that is not a control character.
Keeps-escaped : (c : ℕ) → ltb c 32 ≡ false → Keeps quoted (b'\\' ∷ c ∷ [])
unfolding read_text
Keeps-escaped c h opened = simp h refl

Keeps-hex : (n : ℕ) → Keeps quoted (codes "\\u00" ++ to_padded_string 2 16 n)
Keeps-hex n =
    Keeps-append quoted (b'\\' ∷ b'u' ∷ []) (b'0' ∷ b'0' ∷ to_padded_string 2 16 n)
      (Keeps-escaped b'u' refl)
      (Keeps-literals (b'0' ∷ b'0' ∷ to_padded_string 2 16 n)
        ((refl, refl, refl), ((refl, refl, refl), digits)))
  where
    digits : All Literal (to_padded_string 2 16 n)
    digits =
        All-to_padded_string Literal 2 16 n (omega arith) (refl, refl, refl)
          (λ d h. (ground arith, ground arith, ground arith))

-- The second replacement of `inspect(true)`.
abbrev escape_quotes : Text → Text
escape_quotes s = replace_unit (λ c. eqb c b'"') (codes "\\\"") s

escape_quotes-append : (a b : Text) → escape_quotes (a ++ b) ≡ escape_quotes a ++ escape_quotes b
escape_quotes-append [] b = refl
escape_quotes-append (c ∷ a) b = elim (Bool-cases (eqb c b'"')) [
  | inl t ↦ simp (t, escape_quotes-append a b)
  | inr t ↦ simp (t, escape_quotes-append a b)
]

escape_quotes-none : (s : Text) → All (λ c. eqb c b'"' ≡ false) s → escape_quotes s ≡ s
escape_quotes-none [] a = refl
escape_quotes-none (c ∷ s) a = simp (a.0, escape_quotes-none s a.1)

-- What the two replacements make of a part of the text is read within a string.
abbrev Quotable : Text → Type 0
Quotable t = Keeps quoted (escape_quotes t)

Quotable-if :
    (b : Bool) (t rest : Text) (o : Option Text)
    → Quotable t
    → Quotable (maybe o rest (λ t. t))
    → Quotable (maybe (if b then some t else o) rest (λ t. t))
Quotable-if true t rest o h k = h
Quotable-if false t rest o h k = k

Quotable-hex : (c : ℕ) → Quotable (codes "\\u00" ++ to_padded_string 2 16 c)
Quotable-hex c =
    let e = escape_quotes-none (codes "\\u00" ++ to_padded_string 2 16 c) plain in
    rw e (Keeps-hex c)
  where
    plain : All (λ c. eqb c b'"' ≡ false) (codes "\\u00" ++ to_padded_string 2 16 c)
    plain = (
      refl,
      (
        refl,
        (
          refl,
          (
            refl,
            All-to_padded_string (λ c. eqb c b'"' ≡ false) 2 16 c (omega arith) refl
                (λ d h. ground arith),
          ),
        ),
      ),
    )

Quotable-escape_char : (c : ℕ) → Quotable (escape_char c)
unfolding read_text
Quotable-escape_char c =
    let rest = codes "\\u00" ++ to_padded_string 2 16 c in
    Quotable-if (eqb c 8) (codes "\\b") rest _ (λ opened. refl)
      (Quotable-if (eqb c 9) (codes "\\t") rest _ (λ opened. refl)
        (Quotable-if (eqb c 10) (codes "\\n") rest _ (λ opened. refl)
          (Quotable-if (eqb c 12) (codes "\\f") rest _ (λ opened. refl)
            (Quotable-if (eqb c 13) (codes "\\r") rest _ (λ opened. refl)
              (Quotable-if (eqb c b'\\') (codes "\\\\") rest none (λ opened. refl)
                (Quotable-hex c))))))

Quotable-literal : (c : ℕ) → ltb c 32 ≡ false → eqb c b'\\' ≡ false → Quotable (c ∷ [])
unfolding read_text
Quotable-literal c h k = elim (Bool-cases (eqb c b'"')) [
  | inl t ↦ simp t (λ opened. refl)
  | inr t ↦ simp (t, k, h) (λ opened. refl)
]

Quotable-unit : (c : ℕ) → Quotable (if ltb c 32 || eqb c b'\\' then escape_char c else c ∷ [])
Quotable-unit c = go (ltb c 32) (eqb c b'\\') refl refl
  where
    go :
        (p q : Bool)
        → ltb c 32 ≡ p
        → eqb c b'\\' ≡ q
        → Quotable (if p || q then escape_char c else c ∷ [])
    go true q h k = Quotable-escape_char c
    go false true h k = Quotable-escape_char c
    go false false h k = Quotable-literal c h k

Quotable-escape_text : (s : Text) → Quotable (escape_text s)
unfolding read_text
Quotable-escape_text [] = λ opened. refl
Quotable-escape_text (c ∷ s) =
    let first = if ltb c 32 || eqb c b'\\' then escape_char c else c ∷ [] in
    let e = escape_quotes-append first (escape_text s) in
    rw e (
      Keeps-append quoted (escape_quotes first) (escape_quotes (escape_text s)) (Quotable-unit c)
        (Quotable-escape_text s))

-- What `inspect` gives for a text with the double quotes is one string: a reader of strings that
-- starts before it, within whatever brackets, is outside a string after it, and never at a character
-- that may not stand in one.
pub Keeps-inspect : (s : Text) → Keeps outside (inspect true s)
unfolding inspect read_text
Keeps-inspect s opened =
    read_text-append (escape_quotes (escape_text s)) (codes "\"") (quoted, opened)
    ∙ ap (λ o. maybe o none (read_text (codes "\""))) (Quotable-escape_text s opened)
