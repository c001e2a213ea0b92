-- ===== src/Proto/Forms.antt =====
-- `Form.serializeElements` with the option `hash`, and `Form.Element.Serializers` of
-- docs/skin/prototype.js, for reading. Inherited names of the result are not modelled.
pub mod Writing
mod Tests
use sd.Common.{
  ℕ, ◌≡◌, refl, ap, ◌∙◌, Bool, true, false, not, ◌&&◌, ◌||◌, Option, none, some, List, [], ◌∷◌,
  ◌++◌, map, Eq, ◌==◌, get_elem?, if◌then◌else◌, maybe, text_eq, Bool-cases, inl, inr,
}
use sd.Proto.Text.{Text, codes}
use sd.Proto.Strings.{to_lower}
use sd.Proto.Hash.{Properties, own, set}

pub record Choice : Type 0 where
  pub value_attribute : Option Text
  pub text : Text
  pub selected : Bool

-- What the serializers read of an element; `selectedIndex` is `none` below 0, and otherwise the
-- index of a choice.
pub data Control : Type 0 where
  input : Bool → Text → Control
  textarea button : Text → Control
  selection : Option ℕ → List Choice → Control

pub record Field : Type 0 where
  pub name : Text
  pub disabled : Bool
  pub type : Text
  pub control : Control

-- What `getValue` returns.
pub data Got : Type 0 where
  null : Got
  single : Text → Got
  several : List Text → Got

abbrev pub option_value : Choice → Text
option_value c = maybe c.value_attribute c.text (λ v. v)

abbrev select_one : Option ℕ → List Choice → Got
select_one index choices =
    maybe index null λ i. maybe (get_elem? choices i) null λ c. single (option_value c)

abbrev pub selected_values : List Choice → List Text
selected_values [] = []
selected_values (c ∷ cs) =
    if c.selected then option_value c ∷ selected_values cs else selected_values cs

abbrev select_many : List Choice → Got
select_many [] = null
select_many (c ∷ cs) = several (selected_values (c ∷ cs))

abbrev input_selector : Bool → Text → Got
input_selector checked value = if checked then single value else null

abbrev read_control : Text → Control → Got
read_control type (input checked value) =
    let lower = map to_lower type in
    if lower == codes "checkbox" || lower == codes "radio"
    then input_selector checked value
    else single value
read_control type (textarea value) = single value
read_control type (button value) = single value
read_control type (selection index choices) =
    if type == codes "select-one" then select_one index choices else select_many choices

unfoldable pub get_value : Field → Got
get_value field = read_control field.type field.control

-- The option `submit`: absent, `false`, or the name of the button that was pressed.
pub data Submit : Type 0 where
  unset refused : Submit
  named : Text → Submit

-- `submit !== false && (!submit || key == submit)`.
abbrev pub admits : Submit → Text → Bool
admits unset key = true
admits refused key = false
admits (named []) key = true
admits (named (c ∷ s)) key = key == c ∷ s

abbrev pub as_array : Got → List Text
as_array null = []
as_array (single v) = v ∷ []
as_array (several vs) = vs

accumulate : Properties Text Got → Text → Got → Properties Text Got
accumulate result key value =
    maybe (own key result) (set key value result)
      (λ old. set key (several (as_array old ++ as_array value)) result)

abbrev pub is_submit : Field → Bool
is_submit field = field.type == codes "submit"

abbrev is_present : Got → Bool
is_present null = false
is_present (single v) = true
is_present (several vs) = true

-- Whether the element is looked at, and has a value that is no file.
unfoldable pub has_value : Field → Bool
unfolding get_value
has_value field =
    not field.disabled
    && not (field.name == [])
    && is_present (get_value field)
    && not (field.type == codes "file")

-- `inject` over the elements, with what the accumulator makes of each value.
pub serialize_loop {ℓ} : {R : Type ℓ} → (R → Text → Got → R) → Submit → Bool → R → List Field → R
unfolding has_value get_value
serialize_loop add submit submitted result [] = result
serialize_loop add submit submitted result (field ∷ fields) =
    let pressed = not submitted && admits submit field.name in
    let taken = add result field.name (get_value field) in
    if not (has_value field)
    then serialize_loop add submit submitted result fields
    else if not (is_submit field)
    then serialize_loop add submit submitted taken fields
    else if pressed
    then serialize_loop add submit true taken fields
    else serialize_loop add submit submitted result fields

unfoldable pub serialize_elements : Submit → List Field → Properties Text Got
unfolding serialize_loop accumulate
serialize_elements submit fields = serialize_loop accumulate submit false [] fields

-- The fields that are no submit buttons.
abbrev pub no_submits : List Field → List Field
no_submits [] = []
no_submits (field ∷ fields) =
    if is_submit field then no_submits fields else field ∷ no_submits fields

serialize_loop-submitted {ℓ} :
    {R : Type ℓ} (add : R → Text → Got → R) (submit : Submit) (result : R) (fields : List Field)
    → serialize_loop add submit true result fields
      ≡ serialize_loop add submit true result (no_submits fields)
unfolding serialize_loop
serialize_loop-submitted add submit result [] = refl
serialize_loop-submitted add submit result (field ∷ fields) = elim (Bool-cases (is_submit field)) [
  | inl s ↦ elim (Bool-cases (has_value field)) [
    | inl t ↦ simp (s, t) (serialize_loop-submitted add submit result fields)
    | inr t ↦ simp (s, t) (serialize_loop-submitted add submit result fields)
  ]
  | inr s ↦ elim (Bool-cases (has_value field)) [
    | inl t ↦
        simp (s, t)
          (serialize_loop-submitted add submit (add result field.name (get_value field)) fields)
    | inr t ↦ simp (s, t) (serialize_loop-submitted add submit result fields)
  ]
]

pub serialize_loop-first {ℓ} :
    {R : Type ℓ} (add : R → Text → Got → R) (submit : Submit) (submitted : Bool) (result : R)
    (before : List Field) (pressed : Field) (later : List Field)
    → has_value pressed ≡ true
    → is_submit pressed ≡ true
    → admits submit pressed.name ≡ true
    → serialize_loop add submit submitted result (before ++ pressed ∷ later)
      ≡ serialize_loop add submit submitted result (before ++ pressed ∷ no_submits later)
unfolding serialize_loop
serialize_loop-first add submit true result [] pressed later h s a =
    simp (h, s) (serialize_loop-submitted add submit result later)
serialize_loop-first add submit false result [] pressed later h s a =
    simp (h, s, a) (serialize_loop-submitted add submit _ later)
serialize_loop-first add submit submitted result (field ∷ before) pressed later h s a =
    let taken = add result field.name (get_value field) in
    simp (
      serialize_loop-first add submit submitted result before pressed later h s a,
      serialize_loop-first add submit submitted taken before pressed later h s a,
      serialize_loop-first add submit true taken before pressed later h s a,
    )

-- Once a submit button with a value is admitted, the submit buttons after it are left out: at most
-- one of them is sent.
pub serialize_elements-submit :
    (submit : Submit) (before : List Field) (pressed : Field) (later : List Field)
    → has_value pressed ≡ true
    → is_submit pressed ≡ true
    → admits submit pressed.name ≡ true
    → serialize_elements submit (before ++ pressed ∷ later)
      ≡ serialize_elements submit (before ++ pressed ∷ no_submits later)
unfolding serialize_elements
serialize_elements-submit submit before pressed later h s a =
    serialize_loop-first accumulate submit false [] before pressed later h s a
