-- ===== src/Proto/Template/Markers.antt =====
-- Where the pattern of a template finds a marker.
use sd.Common.{
  ℕ, suc, ◌+◌, ◌≡◌, refl, ap, sym, ◌∙◌, Bool, true, false, if◌then◌else◌, Option, none, some, [],
  ◌∷◌, ◌++◌, All, eqb, length, maybe, append_assoc, arith, nat_eq,
}
use sd.Proto.Text.{Text, codes}
use sd.Proto.Strings.{Match, is_line_end}
use sd.Proto.Strings.Gsub.{Indexed}
use sd.Proto.Template.{Groups, up_to_brace, marker, found, first_match, template_pattern}

-- Text in front of a marker: no mark, and no backslash.
abbrev pub Lead : Text → Type 0
Lead = All λ c. (eqb c b'#' ≡ false) × (eqb c b'\\' ≡ false)

-- A name in a marker: one component of an expression.
abbrev pub Name : Text → Type 0
Name = All λ c.
    (eqb c b'}' ≡ false) × (is_line_end c ≡ false) × (eqb c b'.' ≡ false) × (eqb c b'[' ≡ false)

up_to_brace_lem : (name post : Text) → Name name → up_to_brace (name ++ (b'}' ∷ post)) ≡ some name
up_to_brace_lem [] post h = refl
up_to_brace_lem (c ∷ name) post h = simp (h.0.0, h.0.1, up_to_brace_lem name post h.1)

-- `#{name}`.
abbrev pub marked : Text → Text
marked name = b'#' ∷ b'{' ∷ name ++ codes "}"

marker-marked : (name post : Text) → Name name → marker (marked name ++ post) ≡ some name
marker-marked name post h =
    ap up_to_brace (append_assoc name (codes "}") post) ∙ up_to_brace_lem name post h

marker-other : (c : ℕ) (s : Text) → eqb c b'#' ≡ false → marker (c ∷ s) ≡ none
marker-other c [] h = refl
marker-other c (d ∷ s) h = simp h

marker-Lead :
    (p : Text) (c : ℕ) (s : Text) → Lead p → eqb c b'#' ≡ false → marker (p ++ (c ∷ s)) ≡ none
marker-Lead [] c s h k = marker-other c s k
marker-Lead (d ∷ p) c s h k = marker-other d (p ++ (c ∷ s)) h.0.0

first_match-later :
    (i : ℕ) (p : Text) (c : ℕ) (name post : Text)
    → Lead p
    → eqb c b'#' ≡ false
    → Name name
    → first_match false i (p ++ (c ∷ (marked name ++ post)))
      ≡ some (found (i + length p) (c ∷ []) name)
unfolding first_match
first_match-later i [] c name post h k n =
    ap
      (λ (o : Option Text).
        maybe o (first_match false (suc i) (marked name ++ post)) (λ e. some (found i (c ∷ []) e)))
      (marker-marked name post n)
    ∙ ap (λ (j : ℕ). some (found j (c ∷ []) name)) (omega arith)
first_match-later i (d ∷ p) c name post h k n =
    let s = p ++ (c ∷ (marked name ++ post)) in
    ap (λ (o : Option Text). maybe o (first_match false (suc i) s) (λ e. some (found i (d ∷ []) e)))
      (marker-Lead p c (marked name ++ post) h.1 k)
    ∙ first_match-later (suc i) p c name post h.1 k n
    ∙ ap (λ (j : ℕ). some (found j (c ∷ []) name)) (omega arith)

pub first_match-Lead :
    (p : Text) (c : ℕ) (name post : Text)
    → Lead p
    → eqb c b'#' ≡ false
    → Name name
    → template_pattern (p ++ (c ∷ (marked name ++ post))) ≡ some (found (length p) (c ∷ []) name)
unfolding template_pattern first_match
first_match-Lead [] c name post h k n =
    ap
      (λ (o : Option Text).
        maybe o
          (maybe (marker (marked name ++ post)) (first_match false 1 (marked name ++ post))
            (λ e. some (found 0 (c ∷ []) e)))
          (λ e. some (found 0 [] e)))
      (marker-other c (marked name ++ post) k)
    ∙ first_match-later 0 [] c name post h k n
first_match-Lead (d ∷ p) c name post h k n =
    let s = p ++ (c ∷ (marked name ++ post)) in
    ap
      (λ (o : Option Text).
        maybe o (maybe (marker s) (first_match false 1 s) (λ e. some (found 0 (d ∷ []) e)))
          (λ e. some (found 0 [] e)))
      (marker-other d s h.0.0)
    ∙ first_match-later 0 (d ∷ p) c name post h k n
    ∙ ap (λ (j : ℕ). some (found j (c ∷ []) name)) (omega arith)

pub first_match-start :
    (name post : Text) → Name name → template_pattern (marked name ++ post) ≡ some (found 0 [] name)
unfolding template_pattern first_match
first_match-start name post n =
    let s = b'{' ∷ (name ++ codes "}") ++ post in
    ap
      (λ (o : Option Text).
        maybe o (maybe (marker s) (first_match false 1 s) (λ e. some (found 0 (b'#' ∷ []) e)))
          (λ e. some (found 0 [] e)))
      (marker-marked name post n)

-- The pattern has no flag `g`: a match has its place.
first_match-index :
    (start : Bool) (i : ℕ) (s : Text) (m : Match Groups)
    → first_match start i s ≡ some m
    → (j : ℕ) × (m.index ≡ some j)
unfolding first_match
first_match-index start i [] m e = cc
first_match-index start i (c ∷ s) m e =
    first (first_match-index false (suc i) s m) (if start then marker (c ∷ s) else none) (marker s)
      e
  where
    place :
        (before expr : Text) → some (found i before expr) ≡ some m → (j : ℕ) × (m.index ≡ some j)
    place before expr q =
        let r : found i before expr ≡ m = cc in (i, ap (λ (m : Match Groups). m.index) (sym r))

    first :
        (first_match false (suc i) s ≡ some m → (j : ℕ) × (m.index ≡ some j))
        → (o p : Option Text)
        → maybe o
            (maybe p (first_match false (suc i) s) (λ e. some (found i (c ∷ []) e)))
            (λ e. some (found i [] e))
          ≡ some m
        → (j : ℕ) × (m.index ≡ some j)
    first later (some expr) p q = place [] expr q
    first later none (some expr) q = place (c ∷ []) expr q
    first later none none q = later q

pub template_pattern-Indexed : Indexed template_pattern
unfolding template_pattern
template_pattern-Indexed s m e = first_match-index true 0 s m e
