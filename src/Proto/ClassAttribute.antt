-- ===== src/Proto/ClassAttribute.antt =====
-- `hasClassName` and the methods beside it, of docs/skin/prototype.js, on the text of an element's
-- `className`. The code builds a regular expression from the class name. It is spelled out here for a
-- name of which each character stands for itself; for others, the engine's answers are arguments.
use sd.Common.{
  ℕ, ◌<◌, ◌≡◌, refl, ap, ◌∙◌, Bool, true, false, not, ◌&&◌, ◌||◌, Option, none, some, [], ◌∷◌, ◌++◌,
  length, drop, sym, Outcome, ok, ◌>>=◌, has, if◌then◌else◌, maybe, eqb, arith, inl, inr,
  Bool-cases, if_true, if_false, list_beq, list_beq_iff, nat_eq,
}
use sd.Proto.Text.{Text, codes, none_of, is_space, is_prefix, trim_left}
use sd.Proto.Strings.{strip}

abbrev pub ends_word : Text → Bool
ends_word [] = true
ends_word (c ∷ s) = is_space c

-- The name stands at the start of the text, and white space or the end after it.
abbrev pub stands : Text → Text → Bool
stands name s = is_prefix name s && ends_word (drop (length name) s)

-- `(^|\s+)name(\s+|$)`: the flag says that the text starts here, or follows white space.
abbrev pub has_match : Bool → Text → Text → Bool
has_match bound name [] = bound && stands name []
has_match bound name (c ∷ s) = bound && stands name (c ∷ s) || has_match (is_space c) name s

abbrev pub spaced : Text → Text
spaced [] = []
spaced (c ∷ s) = (c ∷ s) ++ codes " "

-- What follows a match that starts with the name.
abbrev pub after_name : Text → Text → Option Text
after_name name s = if stands name s then some (b' ' ∷ trim_left (drop (length name) s)) else none

-- `.replace(re, ' ')`, which replaces the first match only.
abbrev pub replace_match : Bool → Text → Text → Option Text
replace_match start name [] = none
replace_match start name (c ∷ s) =
    let later = replace_match false name s in
    maybe (if start then after_name name (c ∷ s) else none)
      (maybe (if is_space c then after_name name (trim_left (c ∷ s)) else none)
        (maybe later none (λ r. some (c ∷ r))) some)
      some

-- A character that means something else in a regular expression.
abbrev pub is_special : ℕ → Bool
is_special c = has c (codes "\\^$.*+?()[]{}|")

-- What a call of the engine gives: some names make no regular expression, and the call throws.
module _ {ℓ} {E : Type ℓ} (inherited : Text → Bool) (test : Text → Text → Outcome E Bool)
    (replace : Text → Text → Outcome E Text) where
  -- The name stands for itself, and the cache of expressions, which is an object, does not inherit
  -- something else under it.
  abbrev pub is_literal : Text → Bool
  is_literal name = none_of is_special name && not (inherited name)

  unfoldable pub has_class_name : Text → Text → Outcome E Bool
  has_class_name name [] = ok false
  has_class_name name (c ∷ s) =
      if list_beq (c ∷ s) name
      then ok true
      else if is_literal name
      then ok (has_match true name (c ∷ s))
      else test name (c ∷ s)

  unfoldable pub add_class_name : Text → Text → Outcome E Text
  unfolding has_class_name
  add_class_name name s =
      has_class_name name s >>= λ found. ok (if found then s else spaced s ++ name)

  unfoldable pub remove_class_name : Text → Text → Outcome E Text
  remove_class_name name s =
      (if is_literal name
        then ok (maybe (replace_match true name s) s (λ r. r))
        else replace name s)
      >>= λ r. ok (strip r)

  -- `toggleClassName`; `bool` is undefined where it is `none`.
  unfoldable pub toggle_class_name : Option Bool → Text → Text → Outcome E Text
  unfolding has_class_name add_class_name remove_class_name
  toggle_class_name bool name s =
      maybe bool (has_class_name name s >>= λ found. ok (not found)) ok >>= λ add.
      if add then add_class_name name s else remove_class_name name s

or_true : (a b : Bool) → b ≡ true → (a || b) ≡ true
or_true true b h = refl
or_true false b h = h

both_true {ℓ} :
    {E : Type ℓ} (a : Bool) (b : Outcome E Bool)
    → b ≡ ok true
    → (if a then ok true else b) ≡ ok true
both_true true b h = refl
both_true false b h = h

eqb_self : (c : ℕ) → eqb c c ≡ true
eqb_self c = ground arith

stands_self : (name : Text) → stands name name ≡ true
stands_self name = prefix name ∙ ap ends_word (nothing name)
  where
    nothing : (s : Text) → drop (length s) s ≡ []
    nothing [] = refl
    nothing (c ∷ s) = nothing s

    prefix :
        (s : Text)
        → (is_prefix s s && ends_word (drop (length name) name))
          ≡ ends_word (drop (length name) name)
    prefix [] = refl
    prefix (c ∷ s) = simp (eqb_self c) (prefix s)

has_match_self : (name : Text) → 0 < length name → has_match true name name ≡ true
has_match_self [] h = absurd (omega arith)
has_match_self (c ∷ s) h = simp (stands_self (c ∷ s)) refl

has_match-last :
    (bound : Bool) (name s : Text)
    → 0 < length name
    → has_match bound name ((s ++ codes " ") ++ name) ≡ true
has_match-last bound name [] h = or_true _ _ (has_match_self name h)
has_match-last bound name (c ∷ s) h = or_true _ _ (has_match-last (is_space c) name s h)

module _ {ℓ} {E : Type ℓ} (inherited : Text → Bool) (test : Text → Text → Outcome E Bool)
    (replace : Text → Text → Outcome E Text) where
  itself :
      (name t : Text)
      → 0 < length t
      → t ≡ name
      → has_class_name inherited test replace name t ≡ ok true
  unfolding has_class_name
  itself name [] p e = absurd (omega arith)
  itself name (c ∷ t) p e = if_true _ _ ((list_beq_iff (c ∷ t) name).1 e)

  -- A literal name stands after what was there.
  has_class_name-spaced :
      (name s : Text)
      → 0 < length name
      → is_literal inherited test replace name ≡ true
      → has_class_name inherited test replace name (spaced s ++ name) ≡ ok true
  unfolding has_class_name
  has_class_name-spaced name [] h l = itself name name h refl
  has_class_name-spaced name (c ∷ s) h l =
      both_true _ _ (if_true _ _ l ∙ ap ok (has_match-last true name (c ∷ s) h))

  -- For a literal name the engine is not asked.
  has_class_name-returns :
      (name s : Text)
      → is_literal inherited test replace name ≡ true
      → (b : Bool) × (has_class_name inherited test replace name s ≡ ok b)
  unfolding has_class_name
  has_class_name-returns name [] l = (false, refl)
  has_class_name-returns name (c ∷ s) l = elim (Bool-cases (list_beq (c ∷ s) name)) [
    | inl t ↦ (true, if_true _ _ t)
    | inr t ↦ (has_match true name (c ∷ s), if_false _ _ t ∙ if_true _ _ l)
  ]

  -- For a class name that is not empty, that has none of the characters that mean something else in
  -- a regular expression, and that is no name which objects inherit, `addClassName` returns a text in
  -- which `hasClassName` finds it; a text that has it already is left as it is.
  pub has_class_name-add_class_name :
      (name s : Text)
      → 0 < length name
      → is_literal inherited test replace name ≡ true
      → (s' : Text) × (add_class_name inherited test replace name s ≡ ok s')
        × (has_class_name inherited test replace name s' ≡ ok true)
        × (has_class_name inherited test replace name s ≡ ok true → s' ≡ s)
  unfolding add_class_name
  has_class_name-add_class_name name s h l =
      let (b, e) = has_class_name-returns name s l in added b e
    where
      added :
          (b : Bool)
          → has_class_name inherited test replace name s ≡ ok b
          → (s' : Text) × ((has_class_name inherited test replace name s >>= λ found.
                ok (if found then s else spaced s ++ name))
              ≡ ok s')
            × (has_class_name inherited test replace name s' ≡ ok true)
            × (has_class_name inherited test replace name s ≡ ok true → s' ≡ s)
      added true e = (s, rw e refl, e, λ q. refl)
      added false e = (
        spaced s ++ name,
        rw e refl,
        has_class_name-spaced name s h l,
        λ q. absurd (let z = sym e ∙ q in cc),
      )
