-- ===== src/Proto/Forms/Writing.antt =====
-- Forms of docs/skin/prototype.js beyond reading: `serializeElements` as a text, the serializers for
-- writing, the lists of elements, and the observers. What the browser changes by itself when an
-- option is selected is not here.
use sd.Common.{
  ℕ, ◌≡◌, refl, ap, sym, ◌∙◌, Bool, true, false, not, ◌&&◌, ◌||◌, Option, none, some, List, [], ◌∷◌,
  ◌++◌, map, ◌==◌, has, if◌then◌else◌, maybe, text_eq, Bool-cases, inl, inr, if_false, append-nil,
  append_assoc,
}
use sd.Proto.Text.{Text, codes, join, replace_text}
use sd.Proto.Strings.{to_lower}
use sd.Proto.Hash.Query.{Value, scalar, array, text, encode, newlines, to_query_string}
use sd.Proto.Forms.{
  Choice, Control, input, textarea, button, selection, Field, Got, null, single, several,
  option_value, as_array, read_control, selected_values, get_value, has_value, Submit, admits,
  is_submit, no_submits, serialize_loop, serialize_loop-first,
}

-- `value.gsub(/%20/, '+')` of an encoded text.
unfoldable pub encode_plus : Text → Text
unfolding encode
encode_plus s = replace_text (codes "%20") (codes "+") (encode s)

-- What the values under a name add to the text.
unfoldable pub add_values : Text → Text → List Text → Text
unfolding encode_plus
add_values result key [] = result
add_values result key (v ∷ vs) =
    result
    ++ ((if result == [] then [] else codes "&")
        ++ join (codes "&")
            (map (λ w. encode_plus key ++ (codes "=" ++ encode_plus (newlines false w))) (v ∷ vs)))

-- The accumulator without the option `hash`, on UTF-8 octets.
unfoldable pub accumulate_text : Text → Text → Got → Text
unfolding add_values
accumulate_text result key value = add_values result key (as_array value)

unfoldable pub serialize_text : Submit → List Field → Text
unfolding serialize_loop accumulate_text
serialize_text submit fields = serialize_loop accumulate_text submit false [] fields

-- The text, too, has at most one submit button in it: the buttons after one that is admitted and has
-- a value are left out.
pub serialize_text-submit :
    (submit : Submit) (before : List Field) (pressed : Field) (later : List Field)
    → has_value pressed ≡ true
    → is_submit pressed ≡ true
    → admits submit pressed.name ≡ true
    → serialize_text submit (before ++ pressed ∷ later)
      ≡ serialize_text submit (before ++ pressed ∷ no_submits later)
unfolding serialize_text
serialize_text-submit submit before pressed later h s a =
    serialize_loop-first accumulate_text submit false [] before pressed later h s a

-- `Form.Element.Methods.serialize`.
abbrev pub got_value : Got → Option Value
got_value null = none
got_value (single v) = some (scalar (text v))
got_value (several vs) = some (array (map text vs))

unfoldable pub serialize_element : Field → Text
unfolding get_value to_query_string
serialize_element field =
    if not field.disabled && not (field.name == [])
    then maybe (got_value (get_value field)) [] (λ v. to_query_string ((field.name, v) ∷ []))
    else []

-- The elements of a form: the names of their tags, with the serializers for them.
abbrev pub serializer_tags : List Text
serializer_tags = codes "input" ∷ codes "textarea" ∷ codes "select" ∷ codes "button" ∷ []

-- `Form.getElements`.
unfoldable pub get_elements {ℓ} : {A : Type ℓ} → (A → Text) → List A → List A
get_elements tag_name [] = []
get_elements tag_name (e ∷ es) =
    if has (map to_lower (tag_name e)) serializer_tags
    then e ∷ get_elements tag_name es
    else get_elements tag_name es

-- `Form.getInputs`; an empty name, or type, asks for none.
unfoldable pub get_inputs : Text → Text → List Field → List Field
get_inputs type_name name [] = []
get_inputs type_name name (field ∷ fields) =
    let rest = get_inputs type_name name fields in
    if not (type_name == []) && not (field.type == type_name)
      || not (name == []) && not (field.name == name)
    then rest
    else field ∷ rest

-- The loop of `select` for one value: the first option that has it is selected.
unfoldable pub mark_one : Text → List Choice → List Choice
mark_one v [] = []
mark_one v (c ∷ cs) =
    let rest = mark_one v cs in
    if option_value c == v then record c { selected = true } ∷ cs else c ∷ rest

-- The loop of `select` for an array.
unfoldable pub mark_all : List Text → List Choice → List Choice
mark_all vs [] = []
mark_all vs (c ∷ cs) = record c { selected = has (option_value c) vs } ∷ mark_all vs cs

-- A value that is written: a text or an array.
pub data Written : Type 0 where
  one : Text → Written
  many : List Text → Written

-- `String(value)` and `!!value`.
abbrev pub written_text : Written → Text
written_text (one s) = s
written_text (many ss) = join (codes ",") ss

abbrev pub truthy : Written → Bool
truthy (one s) = not (s == [])
truthy (many ss) = true

unfoldable pub write_control : Text → Written → Control → Control
unfolding mark_one mark_all
write_control type v (input checked value) =
    let lower = map to_lower type in
    if lower == codes "checkbox" || lower == codes "radio"
    then input (truthy v) value
    else input checked (written_text v)
write_control type v (textarea value) = textarea (written_text v)
write_control type v (button value) = button (written_text v)
write_control type (one s) (selection index choices) = selection index (mark_one s choices)
write_control type (many ss) (selection index choices) = selection index (mark_all ss choices)

-- `setValue`, by the serializers.
unfoldable pub set_value : Written → Field → Field
unfolding write_control
set_value v field = record field { control = write_control field.type v field.control }

-- `disable`, `enable`, and what `Form.disable` and `Form.enable` do to all the elements.
abbrev pub set_disabled : Bool → Field → Field
set_disabled b field = record field { disabled = b }

-- The values that have an option among the choices, in the choices' order.
abbrev pub values_in : List Text → List Choice → List Text
values_in vs [] = []
values_in vs (c ∷ cs) =
    if has (option_value c) vs then option_value c ∷ values_in vs cs else values_in vs cs

-- What an observer with a timer keeps, and the calls of its callback.
pub record Observer : Type 0 where
  pub last_value : Text
  pub reported : List Text

-- `Abstract.TimedObserver.execute`, for the value that the element has, as a text, and
-- `Abstract.EventObserver.onElementEvent`, for a value that is a text; the callback returns.
unfoldable pub execute : Text → Observer → Observer
execute value o =
    if not (o.last_value == value)
    then record { last_value = value; reported = o.reported ++ value ∷ [] }
    else o

-- The event that `registerCallback` observes; `none` for an element without a type.
unfoldable pub callback_event : Text → Option Text
callback_event type =
    let lower = map to_lower type in
    if type == []
    then none
    else if lower == codes "checkbox" || lower == codes "radio"
    then some (codes "click")
    else some (codes "change")

-- The observer after it has looked at values one after the other.
unfoldable pub polls : List Text → Observer → Observer
unfolding execute
polls [] o = o
polls (v ∷ vs) o = polls vs (execute v o)

-- The values of a list that differ from the one before, the first from a given one.
abbrev pub changes : Text → List Text → List Text
changes last [] = []
changes last (v ∷ vs) = if last == v then changes v vs else v ∷ changes v vs

polls_go :
    (vs : List Text) (last : Text) (reported : List Text)
    → (polls vs (record { last_value = last; reported = reported })).reported
      ≡ reported ++ changes last vs
unfolding polls execute
polls_go [] last reported = sym (append-nil reported)
polls_go (v ∷ vs) last reported = elim (Bool-cases (last == v)) [
  | inl t ↦
      let e = (text_eq.beq_iff last v).0 t in
      simp t (polls_go vs last reported ∙ ap (λ l. reported ++ changes l vs) e)
  | inr t ↦
      simp t (polls_go vs v (reported ++ v ∷ []) ∙ append_assoc reported (v ∷ []) (changes v vs))
]

-- An observer that looks at values one after the other calls its callback for those that differ from
-- the one before, in order and once each.
pub polls_lem :
    (vs : List Text) (o : Observer) → (polls vs o).reported ≡ o.reported ++ changes o.last_value vs
polls_lem vs o = polls_go vs o.last_value o.reported

selected_values-mark_all :
    (vs : List Text) (cs : List Choice) → selected_values (mark_all vs cs) ≡ values_in vs cs
unfolding mark_all
selected_values-mark_all vs [] = refl
selected_values-mark_all vs (c ∷ cs) = elim (Bool-cases (has (option_value c) vs)) [
  | inl t ↦ simp t (ap (option_value c ∷◌) (selected_values-mark_all vs cs))
  | inr t ↦ simp t (selected_values-mark_all vs cs)
]

-- A list that lets several options be selected gives, after an array is written to it, those of the
-- array's values that it has an option for, in the order of the options.
pub get_value-set_value :
    (vs : List Text) (field : Field) (index : Option ℕ) (c : Choice) (cs : List Choice)
    → field.control ≡ selection index (c ∷ cs)
    → (field.type == codes "select-one") ≡ false
    → get_value (set_value (many vs) field) ≡ several (values_in vs (c ∷ cs))
unfolding get_value set_value mark_all write_control
get_value-set_value vs field index c cs q t =
    ap (λ x. read_control field.type (write_control field.type (many vs) x)) q
    ∙ if_false _ _ t
    ∙ ap several (selected_values-mark_all vs (c ∷ cs))
