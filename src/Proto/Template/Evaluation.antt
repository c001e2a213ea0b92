-- ===== src/Proto/Template/Evaluation.antt =====
-- What `evaluate` makes of a template with a marker in it.
use sd.Common.{
  ◌⊎◌, ℕ, zero, suc, ◌+◌, ◌<◌, ◌≡◌, refl, ap, sym, ◌∙◌, false, Option, none, some, [], ◌∷◌, ◌++◌,
  eqb, length, length-append, take, drop, maybe, append_assoc, if_false, inl, inr, arith, list_beq,
  nat_eq,
}
use sd.Proto.Text.{Text, codes}
use sd.Proto.Strings.{Match, gsub}
use sd.Proto.Strings.Gsub.{gsub-match}
use sd.Proto.Template.{
  Groups, found, template_pattern, Component, split_name, component, follow, substitute, evaluate,
}
use sd.Proto.Template.Markers.{
  Lead, Name, marked, first_match-Lead, first_match-start, template_pattern-Indexed,
}

split_name_lem : (name : Text) → Name name → split_name name ≡ (name, [])
split_name_lem [] h = refl
split_name_lem (c ∷ name) h = simp (h.0.2, h.0.3, split_name_lem name h.1)

component-Name :
    (name : Text)
    → Name name
    → 0 < length name
    → component name ≡ some (record { group = name; name = name; stop = none; rest = [] })
component-Name [] h p = absurd (omega arith)
component-Name (c ∷ name) h p = simp (h.0.2, h.0.3, split_name_lem name h.1)

take_lead : (a b : Text) → take (length a) (a ++ b) ≡ a
take_lead [] b = refl
take_lead (c ∷ a) b = ap (c ∷◌) (take_lead a b)

drop_prefix : (b post : Text) → drop (length b) (b ++ post) ≡ post
drop_prefix [] post = refl
drop_prefix (c ∷ b) post = drop_prefix b post

drop_lead : (a b post : Text) → drop (length a + length b) (a ++ (b ++ post)) ≡ post
drop_lead [] b post =
    ap (λ (n : ℕ). drop n (b ++ post)) (let z : 0 + length b ≡ length b = omega arith in z)
    ∙ drop_prefix b post
drop_lead (c ∷ a) b post =
    ap (λ (n : ℕ). drop n (c ∷ (a ++ (b ++ post))))
      (let z : suc (length a) + length b ≡ suc (length a + length b) = omega arith in z)
    ∙ drop_lead a b post

split_last :
    (s : Text)
    → Lead s
    → (s ≡ [])
      ⊎ ((p : Text) × (c : ℕ) × (s ≡ p ++ c ∷ [])
          × Lead p
          × ((eqb c b'#' ≡ false) × (eqb c b'\\' ≡ false)))
split_last [] h = inl refl
split_last (c ∷ s) h = elim (split_last s h.1) [
  | inl e ↦ inr ([], c, ap (c ∷◌) e, tt, h.0)
  | inr (p, d, e, l, k) ↦ inr (c ∷ p, d, ap (c ∷◌) e, (h.0, l), k)
]

-- What stands for a marker of a name.
abbrev pub value_text : {V : Type 0} → (V → Text → Option V) → (V → Text) → V → Text → Text
value_text property interpret object name = maybe (property object name) [] interpret

module _ {V : Type 0} (property : V → Text → Option V) (interpret : V → Text) (object : V)
    (name post : Text) (n : Name name) (p : 0 < length name) where
  substitute-name :
      (before : Text)
      → list_beq before (codes "\\") ≡ false
      → substitute property interpret
          (some object)
          (record { before = before; whole = marked name; expr = name })
        ≡ before ++ value_text property interpret object name
  unfolding substitute follow
  substitute-name before b =
      if_false _ _ b
      ∙ ap
          (λ (o : Option Component).
            maybe o before (λ m. before ++ follow property interpret (length name) object m))
          (component-Name name n p)
      ∙ ap (before ++◌) (one_step (length name) p)
    where
      one_step :
          (fuel : ℕ)
          → 0 < fuel
          → follow property interpret fuel object
              (record { group = name; name = name; stop = none; rest = [] })
            ≡ value_text property interpret object name
      one_step zero h = absurd (omega arith)
      one_step (suc fuel) h = refl

  -- One match, at the place where it stands.
  evaluate-found :
      (lead before : Text)
      → template_pattern (lead ++ ((before ++ marked name) ++ post))
        ≡ some (found (length lead) before name)
      → list_beq before (codes "\\") ≡ false
      → evaluate property interpret (some object) (lead ++ ((before ++ marked name) ++ post))
        ≡ (lead ++ before)
          ++ (value_text property interpret object name
              ++ evaluate property interpret (some object) post)
  unfolding evaluate
  evaluate-found lead before e b =
      let source = lead ++ ((before ++ marked name) ++ post) in
      let replacement : Unit → Match Groups → Unit × Text =
        λ s m. (s, substitute property interpret (some object) m.groups) in
      let m = found (length lead) before name in
      let tail = evaluate property interpret (some object) post in
      gsub-match template_pattern template_pattern-Indexed replacement tt source m (length lead) e
        refl (omega (arith, length-append before (marked name)))
        (omega (
          arith,
          length-append lead ((before ++ marked name) ++ post),
          length-append (before ++ marked name) post,
          length-append before (marked name),
        ))
      ∙ ap
          (λ (t : Text).
            take (length lead) source
            ++ (substitute property interpret (some object) m.groups
                ++ (gsub template_pattern replacement tt t).1))
          (drop_lead lead (before ++ marked name) post)
      ∙ ap (λ (t : Text). t ++ (substitute property interpret (some object) m.groups ++ tail))
          (take_lead lead ((before ++ marked name) ++ post))
      ∙ ap (λ (t : Text). lead ++ (t ++ tail)) (substitute-name before b)
      ∙ ap (lead ++◌) (append_assoc before (value_text property interpret object name) tail)
      ∙ sym (append_assoc lead before (value_text property interpret object name ++ tail))

  evaluate-start :
      evaluate property interpret (some object) (marked name ++ post)
      ≡ value_text property interpret object name ++ evaluate property interpret (some object) post
  evaluate-start = evaluate-found [] [] (first_match-start name post n) refl

  evaluate-later :
      (lead : Text) (c : ℕ)
      → Lead lead
      → (eqb c b'#' ≡ false) × (eqb c b'\\' ≡ false)
      → evaluate property interpret (some object) (lead ++ (c ∷ (marked name ++ post)))
        ≡ (lead ++ (c ∷ []))
          ++ (value_text property interpret object name
              ++ evaluate property interpret (some object) post)
  evaluate-later lead c h k =
      evaluate-found lead (c ∷ []) (first_match-Lead lead c name post h k.0 n) (if_false _ _ k.1)

  -- In a template with a text in front, which holds no mark and no backslash, and a marker of one
  -- plain name, evaluate keeps the text, puts what the object has under the name for the marker, or
  -- nothing where that is null or undefined, and goes on with what follows as with a template.
  pub evaluate-marker :
      (lead : Text)
      → Lead lead
      → evaluate property interpret (some object) (lead ++ (marked name ++ post))
        ≡ lead
          ++ (value_text property interpret object name
              ++ evaluate property interpret (some object) post)
  evaluate-marker lead h = elim (split_last lead h) [
    | inl e ↦
        ap (λ (l : Text). evaluate property interpret (some object) (l ++ (marked name ++ post))) e
        ∙ evaluate-start
        ∙ ap
            (λ (l : Text).
              l
              ++ (value_text property interpret object name
                  ++ evaluate property interpret (some object) post))
            (sym e)
    | inr (front, c, e, l, k) ↦
        ap (λ (l : Text). evaluate property interpret (some object) (l ++ (marked name ++ post))) e
        ∙ ap (evaluate property interpret (some object))
            (append_assoc front (c ∷ []) (marked name ++ post))
        ∙ evaluate-later front c l k
        ∙ ap
            (λ (l : Text).
              l
              ++ (value_text property interpret object name
                  ++ evaluate property interpret (some object) post))
            (sym e)
  ]
