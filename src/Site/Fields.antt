-- ===== src/Site/Fields.antt =====
-- `getBlank` and `getPrompt` of docs/skin/getBlank.js, and `getFileName` of docs/skin/init.js.
use sd.Common.{
  ℕ, suc, ◌≡◌, refl, true, Option, none, some, [], ◌∷◌, ◌++◌, eqb, drop, length, maybe,
  if◌then◌else◌, ◌==◌, text_eq, nat_eq, Bool-cases, inl, inr,
}
use sd.Proto.Text.{Text, none_of}

-- The value of the field after a call.
unfoldable pub get_blank : Text → Text → Text
get_blank std_value value = if value == std_value then [] else value

unfoldable pub get_prompt : Text → Text → Text
get_prompt std_value value = if value == [] then std_value else value

-- Leaving a field after entering it keeps what it held, except that the prompt stands in for an
-- empty field; a prompt that stood there stands there again.
pub get_prompt-get_blank :
    (std_value value : Text)
    → get_prompt std_value (get_blank std_value value) ≡ (if value == [] then std_value else value)
unfolding get_prompt get_blank
get_prompt-get_blank std_value value = elim (Bool-cases (value == std_value)) [
  | inl t ↦ simp t (go (value) ((text_eq.beq_iff value std_value).0 t))
  | inr t ↦ simp t
]
  where
    go : (v : Text) → v ≡ std_value → std_value ≡ (if v == [] then std_value else v)
    go v q = elim (Bool-cases (v == [])) [ inl u ↦ simp u | inr u ↦ rw u (cc) ]

-- `s.lastIndexOf(c)` for one code unit.
last_index_of : ℕ → Text → Option ℕ
last_index_of c [] = none
last_index_of c (d ∷ s) =
    maybe (last_index_of c s) (if eqb d c then some 0 else none) (λ i. some (suc i))

unfoldable pub get_file_name : Text → Text
unfolding last_index_of
get_file_name url = drop (maybe (last_index_of b'/' url) 0 suc) url

last_index_of-none : (c : ℕ) (s : Text) → none_of (λ d. eqb d c) s ≡ true → last_index_of c s ≡ none
unfolding last_index_of
last_index_of-none c [] h = refl
last_index_of-none c (d ∷ s) h = elim (Bool-cases (eqb d c)) [
  | inl t ↦ absurd (let u = simp t at h in cc)
  | inr t ↦ simp (t, last_index_of-none c s (simp t at h))
]

last_index_of-slash :
    (directory file : Text)
    → none_of (λ c. eqb c b'/') file ≡ true
    → last_index_of b'/' (directory ++ b'/' ∷ file) ≡ some (length directory)
unfolding last_index_of
last_index_of-slash [] file h = simp (last_index_of-none b'/' file h)
last_index_of-slash (c ∷ directory) file h = simp (last_index_of-slash directory file h)

drop-slash :
    (directory file : Text) → drop (suc (length directory)) (directory ++ b'/' ∷ file) ≡ file
drop-slash [] file = refl
drop-slash (c ∷ directory) file = drop-slash directory file

-- The file name is what follows the last slash, if there is one.
pub get_file_name_lem :
    (directory file : Text)
    → none_of (λ c. eqb c b'/') file ≡ true
    → (get_file_name file ≡ file) × (get_file_name (directory ++ b'/' ∷ file) ≡ file)
unfolding get_file_name
get_file_name_lem directory file h = (
  rw (last_index_of-none b'/' file h) refl,
  rw (last_index_of-slash directory file h) (drop-slash directory file),
)
