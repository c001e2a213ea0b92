-- ===== src/Proto/Objects/Json.antt =====
-- What `toJSON` writes is well nested.
use sd.Common.{
  ◌≡◌, refl, ap, ◌∙◌, Bool, true, false, Option, none, some, List, [], ◌∷◌, ◌++◌, All, eqb, maybe,
}
use sd.Proto.Text.{Text, codes, join}
use sd.Proto.Inspect.{inspect}
use sd.Proto.Inspect.Quoted.{
  outside, Keeps, Keeps-append, read_text, read_text-append, Keeps-inspect,
}
use sd.Proto.Objects.{
  Primitive, boolean, number, text, Value, undefined, null, function, primitive, boxed, array,
  object, converting, Values, end, element, Members, last, member, of_primitive, push_member, str,
  elements, members, to_json,
}

-- No quote and no bracket, as in what `String` gives for a number.
abbrev pub Plain : Text → Type 0
Plain = All λ c.
    (eqb c b'"' ≡ false)
    × (eqb c b'[' ≡ false)
    × (eqb c b'{' ≡ false)
    × (eqb c b']' ≡ false)
    × (eqb c b'}' ≡ false)

abbrev pub PlainNumber : Primitive → Type 0
PlainNumber (boolean b) = Unit
PlainNumber (number f s) = Plain s
PlainNumber (text s) = Unit

-- The numbers in a value are written without quotes and brackets.
unfoldable mutual
  pub PlainNumbers : Value → Type 0
  PlainNumbers undefined = Unit
  PlainNumbers null = Unit
  PlainNumbers function = Unit
  PlainNumbers (primitive p) = PlainNumber p
  PlainNumbers (boxed p) = PlainNumber p
  PlainNumbers (array vs) = PlainElements vs
  PlainNumbers (object ms) = PlainMembers ms
  PlainNumbers (converting ms v) = PlainMembers ms × PlainNumbers v

  pub PlainElements : Values → Type 0
  PlainElements end = Unit
  PlainElements (element v vs) = PlainNumbers v × PlainElements vs

  pub PlainMembers : Members → Type 0
  PlainMembers last = Unit
  PlainMembers (member key v ms) = PlainNumbers v × PlainMembers ms

Keeps-Plain : (s : Text) → Plain s → Keeps outside s
unfolding read_text
Keeps-Plain [] a opened = refl
Keeps-Plain (c ∷ s) a opened = simp (a.0.0, a.0.1, a.0.2, a.0.3, a.0.4) (Keeps-Plain s a.1 opened)

Keeps-primitive : (p : Primitive) → PlainNumber p → Keeps outside (of_primitive p)
unfolding read_text
Keeps-primitive (boolean true) a opened = refl
Keeps-primitive (boolean false) a opened = refl
Keeps-primitive (number true s) a opened = Keeps-Plain s a opened
Keeps-primitive (number false s) a opened = refl
Keeps-primitive (text s) a opened = Keeps-inspect s opened

Keeps-join :
    (parts : List Text) → All (Keeps outside) parts → Keeps outside (join (codes ",") parts)
unfolding read_text
Keeps-join [] a opened = refl
Keeps-join (p ∷ []) a opened = a.0 opened
Keeps-join (p ∷ (q ∷ parts)) a opened =
    Keeps-append outside p (codes "," ++ join (codes ",") (q ∷ parts)) a.0
      (Keeps-append outside (codes ",") (join (codes ",") (q ∷ parts)) (λ o. refl)
        (Keeps-join (q ∷ parts) a.1))
      opened

Keeps-array : (s : Text) → Keeps outside s → Keeps outside (b'[' ∷ s ++ codes "]")
unfolding read_text
Keeps-array s h opened =
    read_text-append s (codes "]") (outside, b']' ∷ opened)
    ∙ ap (λ o. maybe o none (read_text (codes "]"))) (h (b']' ∷ opened))

Keeps-object : (s : Text) → Keeps outside s → Keeps outside (b'{' ∷ s ++ codes "}")
unfolding read_text
Keeps-object s h opened =
    read_text-append s (codes "}") (outside, b'}' ∷ opened)
    ∙ ap (λ o. maybe o none (read_text (codes "}"))) (h (b'}' ∷ opened))

-- The text of a value, if it has one.
abbrev pub KeepsSome : Option Text → Type 0
KeepsSome none = Unit
KeepsSome (some s) = Keeps outside s

Keeps-element : (o : Option Text) → KeepsSome o → Keeps outside (maybe o (codes "null") (λ s. s))
unfolding read_text
Keeps-element none k = λ opened. refl
Keeps-element (some s) k = k

Keeps-push :
    (key : Text) (o : Option Text) (parts : List Text)
    → KeepsSome o
    → All (Keeps outside) parts
    → All (Keeps outside) (push_member key o parts)
unfolding read_text
Keeps-push key none parts k a = a
Keeps-push key (some s) parts k a = (
  Keeps-append outside (inspect true key) (b':' ∷ s) (Keeps-inspect key)
      (Keeps-append outside (codes ":") s (λ o. refl) k),
  a,
)

mutual
  unfolding str PlainNumbers read_text

  Keeps-str : (b : Bool) (v : Value) → PlainNumbers v → KeepsSome (str b v)
  Keeps-str b undefined a = tt
  Keeps-str b null a = λ opened. refl
  Keeps-str b function a = tt
  Keeps-str b (primitive p) a = Keeps-primitive p a
  Keeps-str b (boxed p) a = Keeps-primitive p a
  Keeps-str b (array vs) a =
      Keeps-array (join (codes ",") (elements vs)) (Keeps-join (elements vs) (Keeps-elements vs a))
  Keeps-str b (object ms) a =
      Keeps-object (join (codes ",") (members ms)) (Keeps-join (members ms) (Keeps-members ms a))
  Keeps-str true (converting ms v) a = Keeps-str false v a.1
  Keeps-str false (converting ms v) a =
      Keeps-object (join (codes ",") (members ms)) (Keeps-join (members ms) (Keeps-members ms a.0))

  Keeps-elements : (vs : Values) → PlainElements vs → All (Keeps outside) (elements vs)
  Keeps-elements end a = tt
  Keeps-elements (element v vs) a =
      (Keeps-element (str true v) (Keeps-str true v a.0), Keeps-elements vs a.1)

  Keeps-members : (ms : Members) → PlainMembers ms → All (Keeps outside) (members ms)
  Keeps-members last a = tt
  Keeps-members (member key v ms) a =
      Keeps-push key (str true v) (members ms) (Keeps-str true v a.0) (Keeps-members ms a.1)

-- What `toJSON` writes for a value, where it writes something, is well nested: a reader of brackets
-- and strings that starts before it, within whatever brackets, meets a closing bracket only for the
-- one that it opens, no control character in a string, and is outside strings and within the same
-- brackets after it. The numbers in the value are written without quotes and brackets.
pub Keeps-to_json : (v : Value) → PlainNumbers v → KeepsSome (to_json v)
unfolding to_json
Keeps-to_json v a = Keeps-str true v a
