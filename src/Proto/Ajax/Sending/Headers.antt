-- ===== src/Proto/Ajax/Sending/Headers.antt =====
-- The headers that a request sets.
use sd.Common.{
  ◌&&◌, Option, none, some, List, [], ◌∷◌, ◌==◌, text_eq, if◌then◌else◌, maybe, ◌≡◌, refl, ap, sym,
  ◌∙◌, inl, inr, Bool-cases, Option-cases,
}
use sd.Proto.Text.{Text, codes}
use sd.Proto.Hash.{Properties, own, set, clone}
use sd.Proto.Hash.Laws.{own-set, Distinct, Distinct-set}
use sd.Proto.Ajax.Sending.{
  Extras, no_headers, array, properties, Environment, Settings, Call, set_request_header,
  default_headers, add_array, add_pairs, add_extras, header_calls, set_request_headers,
}

-- The names and values of an array.
abbrev pub pairs_of : List Text → Properties Text (Option Text)
pairs_of [] = []
pairs_of (name ∷ []) = (name, none) ∷ []
pairs_of (name ∷ (v ∷ rest)) = (name, some v) ∷ pairs_of rest

-- The names and values that a caller gives.
abbrev pub given_pairs : Extras → Properties Text (Option Text)
given_pairs no_headers = []
given_pairs (array extras) = pairs_of extras
given_pairs (properties extras) = clone extras

-- The value that stands last under a name.
abbrev pub last_value : Text → Properties Text (Option Text) → Option (Option Text)
last_value k [] = none
last_value k ((name, v) ∷ rest) =
    maybe (last_value k rest) (if name == k then some v else none) some

-- The values that are set under a name, call after call.
abbrev pub values_set : Text → List Call → List Text
values_set k [] = []
values_set k (set_request_header name v ∷ cs) =
    if name == k then v ∷ values_set k cs else values_set k cs
values_set k (c ∷ cs) = values_set k cs

add_array-pairs :
    (extras : List Text) (h : Properties Text (Option Text))
    → add_array extras h ≡ add_pairs (pairs_of extras) h
unfolding add_array add_pairs
add_array-pairs [] h = refl
add_array-pairs (name ∷ []) h = refl
add_array-pairs (name ∷ (v ∷ rest)) h = add_array-pairs rest (set name (some v) h)

add_extras-pairs :
    (extras : Extras) (h : Properties Text (Option Text))
    → add_extras extras h ≡ add_pairs (given_pairs extras) h
unfolding add_pairs
add_extras-pairs no_headers h = refl
add_extras-pairs (array extras) h = add_array-pairs extras h
add_extras-pairs (properties extras) h = refl

own-add_pairs :
    (k : Text) (xs h : Properties Text (Option Text))
    → own k (add_pairs xs h) ≡ maybe (last_value k xs) (own k h) some
unfolding add_pairs
own-add_pairs k [] h = refl
own-add_pairs k ((name, v) ∷ xs) h = elim (Option-cases (last_value k xs)) [
  | inr (w, q) ↦ own-add_pairs k xs (set name v h) ∙ simp q
  | inl q ↦
      own-add_pairs k xs (set name v h)
      ∙ simp (q, own-set) (elim (Bool-cases (name == k)) [ inl t ↦ simp t | inr t ↦ simp t ])
]

Distinct-add_pairs : (xs h : Properties Text (Option Text)) → Distinct h → Distinct (add_pairs xs h)
unfolding add_pairs
Distinct-add_pairs [] h d = d
Distinct-add_pairs ((name, v) ∷ xs) h d =
    Distinct-add_pairs xs (set name v h) (Distinct-set name v h d)

-- The calls for a value under a name: one, or none for `null` or for nothing.
abbrev pub sent_value : Option (Option Text) → List Text
sent_value none = []
sent_value (some none) = []
sent_value (some (some v)) = v ∷ []

values_set-header_calls :
    (k : Text) (h : Properties Text (Option Text))
    → Distinct h
    → values_set k (header_calls h) ≡ sent_value (own k h)
unfolding header_calls own
values_set-header_calls k [] d = refl
values_set-header_calls k ((name, none) ∷ h) d = elim (Bool-cases (name == k)) [
  | inl t ↦ simp t (
      values_set-header_calls k h d.1
      ∙ ap sent_value (ap (λ j. own j h) (sym ((text_eq.beq_iff name k).0 t)) ∙ d.0))
  | inr t ↦ simp t (values_set-header_calls k h d.1)
]
values_set-header_calls k ((name, some v) ∷ h) d = elim (Bool-cases (name == k)) [
  | inl t ↦ simp t (
      ap (v ∷◌) (
        values_set-header_calls k h d.1
        ∙ ap sent_value (ap (λ j. own j h) (sym ((text_eq.beq_iff name k).0 t)) ∙ d.0)))
  | inr t ↦ simp t (values_set-header_calls k h d.1)
]

default_headers-Distinct :
    (env : Environment) (s : Settings) (method : Text) → Distinct (default_headers env s method)
unfolding default_headers own
default_headers-Distinct env s method = elim (Bool-cases (method == codes "post")) [
  | inr t ↦ simp t (refl, (refl, (refl, tt)))
  | inl t ↦ elim (Bool-cases (env.override_mime_type && env.gecko_before_2005)) [
    | inl u ↦ simp (t, u) (refl, (refl, (refl, (refl, (refl, tt)))))
    | inr u ↦ simp (t, u) (refl, (refl, (refl, (refl, tt))))
  ]
]

-- A header is set at most once; its value is the last that the caller gives under the name, else
-- that of the request's own headers, and it is not set if that value is `null`.
pub set_request_headers_lem :
    (env : Environment) (s : Settings) (method name : Text)
    → values_set name (set_request_headers env s method)
      ≡ sent_value (
          maybe
            (last_value name (given_pairs s.request_headers))
            (own name (default_headers env s method))
            some)
unfolding set_request_headers
set_request_headers_lem env s method name =
    let h = default_headers env s method in
    let xs = given_pairs s.request_headers in
    ap (λ l. values_set name (header_calls l)) (add_extras-pairs s.request_headers h)
    ∙ values_set-header_calls name (add_pairs xs h)
        (Distinct-add_pairs xs h (default_headers-Distinct env s method))
    ∙ ap sent_value (own-add_pairs name xs h)
