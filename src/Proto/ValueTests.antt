-- ===== src/Proto/ValueTests.antt =====
-- The theorems on values, their texts and templates, on concrete ones.
use sd.Common.{
  ◌≡◌, refl, true, Bool, Outcome, ok, err, Option, none, some, ◌++◌, [], ◌∷◌, ◌&&◌, false,
  get_elem?, if◌then◌else◌, ◌==◌, text_eq, arith,
}
use sd.Proto.Text.{Text, codes}
use sd.Proto.Objects.{
  Value, boolean, number, text, undefined, primitive, array, object, end, element, last, member,
  to_json,
}
use sd.Proto.Objects.Json.{PlainNumbers, KeepsSome, Keeps-to_json}
use sd.Proto.Traversal.{Node, select_nodes, recursively_find, recursively_find_lem}
use sd.Proto.ClassAttribute.{has_class_name, add_class_name, has_class_name-add_class_name}
use sd.Proto.Template.{evaluate}
use sd.Proto.Template.Markers.{marked}
use sd.Proto.Template.Evaluation.{value_text, evaluate-marker}

-- {"a\"]": [12, undefined, "{"], "b": undefined, "c": true}
abbrev sample : Value
sample = object (
    member (codes "a\"]")
      (array (
        element (primitive (number true (codes "12")))
          (element undefined (element (primitive (text (codes "{"))) end))))
      (member (codes "b") undefined (member (codes "c") (primitive (boolean true)) last)))

Keeps-to_json_example : KeepsSome (to_json sample)
unfolding PlainNumbers
Keeps-to_json_example = Keeps-to_json sample (
  (((refl, refl, refl, refl, refl), ((refl, refl, refl, refl, refl), tt)), (tt, (tt, tt))),
  (tt, (tt, tt)),
)

-- An object with one property, "name".
abbrev property : Text → Text → Option Text
property o k = if k == codes "name" then some o else none

evaluate-marker_example :
    evaluate property
      (λ t. t)
      (some (codes "Ada"))
      (codes "Hi " ++ (marked (codes "name") ++ codes "!"))
    ≡ codes "Hi "
      ++ (value_text property (λ t. t) (codes "Ada") (codes "name")
          ++ evaluate property (λ t. t) (some (codes "Ada")) (codes "!"))
evaluate-marker_example =
    evaluate-marker property (λ t. t) (codes "Ada") (codes "name") (codes "!")
      (
        (refl, refl, refl, refl),
        ((refl, refl, refl, refl), ((refl, refl, refl, refl), ((refl, refl, refl, refl), tt))),
      )
      (omega arith) (codes "Hi ") ((refl, refl), ((refl, refl), ((refl, refl), tt)))

abbrev text_node : Node
text_node = record { id = 1; is_element = false }

abbrev item : Node
item = record { id = 2; is_element = true }

abbrev other : Node
other = record { id = 3; is_element = true }

recursively_find_lem_example :
    recursively_find none 1 (item ∷ text_node ∷ other ∷ [])
    ≡ get_elem? (select_nodes (λ n. n.is_element && true) (item ∷ text_node ∷ other ∷ [])) 1
recursively_find_lem_example = recursively_find_lem none 1 (item ∷ text_node ∷ other ∷ [])

-- An engine that is not asked, and objects that inherit one name.
abbrev no_test : Text → Text → Outcome Text Bool
no_test name s = err (codes "SyntaxError")

abbrev no_replace : Text → Text → Outcome Text Text
no_replace name s = err (codes "SyntaxError")

abbrev inherits : Text → Bool
inherits name = name == codes "constructor"

has_class_name-add_class_name_example :
    (s' : Text) × (add_class_name inherits no_test no_replace (codes "on") (codes "one two")
      ≡ ok s')
    × (has_class_name inherits no_test no_replace (codes "on") s' ≡ ok true)
    × (has_class_name inherits no_test no_replace (codes "on") (codes "one two") ≡ ok true
        → s' ≡ codes "one two")
has_class_name-add_class_name_example =
    has_class_name-add_class_name inherits no_test no_replace (codes "on") (codes "one two")
      (omega arith) refl
