-- ===== src/Proto/ClassNames.antt =====
-- `Element.ClassNames` of docs/skin/prototype.js: the names in an element's `className`.
use sd.Common.{
  ℕ, ◌≡◌, ◌≢◌, refl, ap, sym, ◌∙◌, Bool, true, false, List, [], ◌∷◌, ◌++◌, All, ◌==◌, has, text_eq,
  if◌then◌else◌, append-nil, Bool-cases, inl, inr, arith,
}
use sd.Proto.Text.{Text, codes, is_space, join, push_part, none_of}
use sd.Proto.Arrays.{without}

-- `s.split(/\s+/)`: the flag says that white space has just been read.
split_runs : Bool → Text → List Text
split_runs spaces [] = [] ∷ []
split_runs false (c ∷ s) =
    if is_space c then [] ∷ split_runs true s else push_part false c (split_runs false s)
split_runs true (c ∷ s) =
    if is_space c then split_runs true s else push_part false c (split_runs false s)

-- `select(function(name) { return name.length > 0; })`.
abbrev not_empty : List Text → List Text
not_empty [] = []
not_empty ([] ∷ names) = not_empty names
not_empty ((c ∷ name) ∷ names) = (c ∷ name) ∷ not_empty names

-- What `_each` passes on.
unfoldable pub class_names : Text → List Text
unfolding split_runs
class_names class_name = not_empty (split_runs false class_name)

unfoldable pub add : Text → Text → Text
unfolding class_names
add name class_name =
    if has name (class_names class_name)
    then class_name
    else join (codes " ") (class_names class_name ++ name ∷ [])

unfoldable pub remove : Text → Text → Text
unfolding class_names without
remove name class_name =
    if has name (class_names class_name)
    then join (codes " ") (without (name ∷ []) (class_names class_name))
    else class_name

-- A class name.
abbrev pub Word : Text → Type 0
Word w = (w ≢ []) × (none_of is_space w ≡ true)

abbrev Solid : Text → Type 0
Solid w = none_of is_space w ≡ true

Solid-push :
    (c : ℕ) (ps : List Text) → is_space c ≡ false → All Solid ps → All Solid (push_part false c ps)
Solid-push c [] t a = (simp t, tt)
Solid-push c (p ∷ ps) t a = (simp t a.0, a.1)

Solid-split_runs : (spaces : Bool) (s : Text) → All Solid (split_runs spaces s)
unfolding split_runs
Solid-split_runs spaces [] = (refl, tt)
Solid-split_runs false (c ∷ s) = elim (Bool-cases (is_space c)) [
  | inl t ↦ simp t (refl, Solid-split_runs true s)
  | inr t ↦ simp t (Solid-push c (split_runs false s) t (Solid-split_runs false s))
]
Solid-split_runs true (c ∷ s) = elim (Bool-cases (is_space c)) [
  | inl t ↦ simp t (Solid-split_runs true s)
  | inr t ↦ simp t (Solid-push c (split_runs false s) t (Solid-split_runs false s))
]

Word-not_empty : (ps : List Text) → All Solid ps → All Word (not_empty ps)
Word-not_empty [] a = tt
Word-not_empty ([] ∷ ps) a = Word-not_empty ps a.1
Word-not_empty ((c ∷ p) ∷ ps) a = (((λ q. cc), a.0), Word-not_empty ps a.1)

Word-class_names : (s : Text) → All Word (class_names s)
unfolding class_names
Word-class_names s = Word-not_empty (split_runs false s) (Solid-split_runs false s)

split_runs-word : (w : Text) → Solid w → split_runs false w ≡ w ∷ []
unfolding split_runs
split_runs-word [] h = refl
split_runs-word (c ∷ w) h = elim (Bool-cases (is_space c)) [
  | inl t ↦ absurd (let u = simp t at h in cc)
  | inr t ↦ simp (t, split_runs-word w (simp t at h))
]

split_runs-append :
    (w rest : Text) → Solid w → split_runs false (w ++ 32 ∷ rest) ≡ w ∷ split_runs true rest
unfolding split_runs
split_runs-append [] rest h = refl
split_runs-append (c ∷ w) rest h = elim (Bool-cases (is_space c)) [
  | inl t ↦ absurd (let u = simp t at h in cc)
  | inr t ↦ simp (t, split_runs-append w rest (simp t at h))
]

-- At the first code unit of a word the flag makes no difference.
split_runs-flag :
    (w rest : Text) → Word w → split_runs true (w ++ rest) ≡ split_runs false (w ++ rest)
unfolding split_runs
split_runs-flag [] rest h = absurd (h.0 refl)
split_runs-flag (c ∷ w) rest h = elim (Bool-cases (is_space c)) [
  | inl t ↦ absurd (let u = simp t at h.1 in cc)
  | inr t ↦ simp t
]

split_runs-join :
    (w : Text) (ws : List Text)
    → All Word (w ∷ ws)
    → split_runs false (join (codes " ") (w ∷ ws)) ≡ w ∷ ws
split_runs-join w [] a = split_runs-word w a.0.1
split_runs-join w (v ∷ ws) a =
    split_runs-append w (join (codes " ") (v ∷ ws)) a.0.1
    ∙ ap (w ∷◌) (flag v ws a.1 ∙ split_runs-join v ws a.1)
  where
    flag :
        (v : Text) (ws : List Text)
        → All Word (v ∷ ws)
        → split_runs true (join (codes " ") (v ∷ ws)) ≡ split_runs false (join (codes " ") (v ∷ ws))
    flag v [] a =
        ap (split_runs true) (sym (append-nil v))
        ∙ split_runs-flag v [] a.0
        ∙ ap (split_runs false) (append-nil v)
    flag v (u ∷ ws) a = split_runs-flag v (32 ∷ join (codes " ") (u ∷ ws)) a.0

not_empty-words : (ws : List Text) → All Word ws → not_empty ws ≡ ws
not_empty-words [] a = refl
not_empty-words ([] ∷ ws) a = absurd (a.0.0 refl)
not_empty-words ((c ∷ w) ∷ ws) a = ap ((c ∷ w) ∷◌) (not_empty-words ws a.1)

class_names-join : (ws : List Text) → All Word ws → class_names (join (codes " ") ws) ≡ ws
unfolding class_names split_runs
class_names-join [] a = refl
class_names-join (w ∷ ws) a = ap not_empty (split_runs-join w ws a) ∙ not_empty-words (w ∷ ws) a

All-append : (ws : List Text) (v : Text) → All Word ws → Word v → All Word (ws ++ v ∷ [])
All-append [] v a p = (p, tt)
All-append (w ∷ ws) v a p = (a.0, All-append ws v a.1 p)

All-without : (vs ws : List Text) → All Word ws → All Word (without vs ws)
unfolding without
All-without vs [] a = tt
All-without vs (w ∷ ws) a = elim (Bool-cases (has w vs)) [
  | inl t ↦ simp t (All-without vs ws a.1)
  | inr t ↦ simp t (a.0, All-without vs ws a.1)
]

without-fresh : (v : Text) (ws : List Text) → has v ws ≡ false → without (v ∷ []) ws ≡ ws
unfolding without
without-fresh v [] h = refl
without-fresh v (w ∷ ws) h = elim (Bool-cases (w == v)) [
  | inl t ↦ absurd (let u = simp t at h in cc)
  | inr t ↦
      let u : (v == w) ≡ false = ground (arith, text_eq.beq_iff w v, text_eq.beq_iff v w) in
      simp (u, without-fresh v ws (simp t at h))
]

-- Adding a name puts it behind the others if it is not among them, and removing one takes it away
-- and keeps the order of the others, however the names were separated before.
pub add-remove_lem :
    (name class_name : Text)
    → Word name
    → (class_names (add name class_name) ≡ (
        if has name (class_names class_name)
        then class_names class_name
        else class_names class_name ++ name ∷ []))
      × (class_names (remove name class_name) ≡ without (name ∷ []) (class_names class_name))
unfolding add remove
add-remove_lem name class_name w =
    let ws = Word-class_names class_name in
    elim (Bool-cases (has name (class_names class_name))) [
      | inl t ↦ (
        simp t,
        simp t (class_names-join _ (All-without (name ∷ []) (class_names class_name) ws)),
      )
      | inr t ↦ (
        simp t (class_names-join _ (All-append (class_names class_name) name ws w)),
        simp t (sym (without-fresh name (class_names class_name) t)),
      )
    ]
