-- ===== src/Proto/Forms/Tests.antt =====
-- The theorem on forms, on a form with two submit buttons.
use sd.Common.{◌≡◌, refl, false, true, none, some, [], ◌∷◌, ◌++◌}
use sd.Proto.Text.{codes}
use sd.Proto.Forms.Writing.{set_value, many, get_value-set_value}
use sd.Proto.Forms.{
  selection, several, get_value, Field, textarea, button, unset, has_value, no_submits,
  serialize_elements, serialize_elements-submit,
}

abbrev note : Field
note = record {
  name = codes "note";
  disabled = false;
  type = codes "textarea";
  control = textarea (codes "hi");
}

abbrev save : Field
save = record {
  name = codes "save";
  disabled = false;
  type = codes "submit";
  control = button (codes "Save");
}

abbrev send : Field
send = record {
  name = codes "send";
  disabled = false;
  type = codes "submit";
  control = button (codes "Send");
}

save_value : has_value save ≡ true
unfolding has_value
save_value = refl

serialize_elements-submit_example :
    serialize_elements unset ((note ∷ []) ++ save ∷ (send ∷ (note ∷ [])))
    ≡ serialize_elements unset ((note ∷ []) ++ save ∷ no_submits (send ∷ (note ∷ [])))
serialize_elements-submit_example =
    serialize_elements-submit unset (note ∷ []) save (send ∷ (note ∷ [])) save_value refl refl

abbrev list_field : Field
list_field = record {
  name = codes "list";
  disabled = false;
  type = codes "select-multiple";
  control = selection none (
      record { value_attribute = none; text = codes "a"; selected = true }
      ∷ record { value_attribute = some (codes "b"); text = codes "B"; selected = false }
      ∷ []);
}

get_value-set_value_example :
    get_value (set_value (many (codes "b" ∷ codes "c" ∷ [])) list_field) ≡ several (codes "b" ∷ [])
get_value-set_value_example =
    get_value-set_value (codes "b" ∷ codes "c" ∷ []) list_field none
      (record { value_attribute = none; text = codes "a"; selected = true })
      (record { value_attribute = some (codes "b"); text = codes "B"; selected = false } ∷ []) refl
      refl
