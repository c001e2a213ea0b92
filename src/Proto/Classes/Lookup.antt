-- ===== src/Proto/Classes/Lookup.antt =====
-- What is found in a new class.
use sd.Common.{
  fun_ext, ℕ, suc, ◌≡◌, refl, ap, sym, ◌∙◌, Bool, true, false, Option, none, some, List, [], ◌∷◌,
  ◌++◌, eqb, length, if◌then◌else◌, maybe, ◌==◌, text_eq, inl, inr, Bool-cases, Option-cases,
  if_true, if_false, arith,
}
use sd.Proto.Text.{Text, codes}
use sd.Proto.Hash.{Properties, own, set}
use sd.Proto.Hash.Laws.{own-set}
use sd.Proto.Classes.{
  Member, Stored, empty_function, class_itself, Klass, is_some, stored, add_methods, add_sources,
  lookup, push_subclass, completed, with_subclass, create,
}

module _ {B : Type 0} where
  length-push_subclass :
      (p c : ℕ) (classes : List (Klass B)) → length (push_subclass p c classes) ≡ length classes
  unfolding push_subclass
  length-push_subclass p c [] = refl
  length-push_subclass p c (k ∷ classes) = elim (Bool-cases (eqb p (length classes))) [
    | inl t ↦ simp t
    | inr t ↦ simp t (ap suc (length-push_subclass p c classes))
  ]

  lookup-push_subclass :
      (p c j : ℕ) (name : Text) (classes : List (Klass B))
      → lookup j name (push_subclass p c classes) ≡ lookup j name classes
  unfolding lookup push_subclass
  lookup-push_subclass p c j name [] = refl
  lookup-push_subclass p c j name (k ∷ classes) =
      let older = push_subclass p c classes in
      let here = own name k.prototype in
      let inherited : (ℕ → Option (Stored B)) → Option (Stored B) =
        λ f. maybe here (maybe k.superclass none f) some in
      let before : ℕ → Option (Stored B) = λ q. lookup q name older in
      elim (Bool-cases (eqb p (length classes))) [
        | inl t ↦ ap (lookup j name) (if_true _ _ t)
        | inr t ↦
            ap (lookup j name) (if_false _ _ t)
            ∙ ap (λ n. if eqb j n then inherited before else lookup j name older)
                (length-push_subclass p c classes)
            ∙ ap (λ f. if eqb j (length classes) then inherited f else lookup j name older)
                (fun_ext λ q. lookup-push_subclass p c q name classes)
            ∙ ap (λ r. if eqb j (length classes) then inherited (λ q. lookup q name classes) else r)
                (lookup-push_subclass p c j name classes)
      ]

  length-with_subclass :
      (parent : Option ℕ) (classes : List (Klass B))
      → length (with_subclass parent classes) ≡ length classes
  unfolding with_subclass
  length-with_subclass none classes = refl
  length-with_subclass (some p) classes = length-push_subclass p (length classes) classes

  lookup-with_subclass :
      (parent : Option ℕ) (j : ℕ) (name : Text) (classes : List (Klass B))
      → lookup j name (with_subclass parent classes) ≡ lookup j name classes
  unfolding with_subclass
  lookup-with_subclass none j name classes = refl
  lookup-with_subclass (some p) j name classes =
      lookup-push_subclass p (length classes) j name classes

  -- What is found in the newest class.
  lookup-newest :
      (parent : Option ℕ) (subs : List ℕ) (h : Properties Text (Stored B)) (name : Text)
      (classes : List (Klass B))
      → lookup (length classes) name (
          record { superclass = parent; subclasses = subs; prototype = h }
          ∷ with_subclass parent classes)
        ≡ maybe (own name h) (maybe parent none (λ p. lookup p name classes)) some
  unfolding lookup
  lookup-newest parent subs h name classes =
      let older = with_subclass parent classes in
      let e : eqb (length classes) (length older) ≡ true =
        ground (arith, length-with_subclass parent classes) in
      if_true _ _ e
      ∙ ap (λ f. maybe (own name h) (maybe parent none f) some)
          (fun_ext λ q. lookup-with_subclass parent q name classes)

  -- The property that stands last under a name in a list of sources.
  abbrev pub last_member : Text → Properties Text (Member B) → Option (Member B)
  last_member k [] = none
  last_member k ((name, m) ∷ source) =
      maybe (last_member k source) (if name == k then some m else none) some

  abbrev pub all_members : List (Properties Text (Member B)) → Properties Text (Member B)
  all_members [] = []
  all_members (source ∷ sources) = source ++ all_members sources

  add_methods-append :
      (a : Bool) (xs ys : Properties Text (Member B)) (h : Properties Text (Stored B))
      → add_methods a (xs ++ ys) h ≡ add_methods a ys (add_methods a xs h)
  unfolding add_methods
  add_methods-append a [] ys h = refl
  add_methods-append a ((name, m) ∷ xs) ys h =
      add_methods-append a xs ys (set name (stored a name m) h)

  add_sources-members :
      (a : Bool) (sources : List (Properties Text (Member B))) (h : Properties Text (Stored B))
      → add_sources a sources h ≡ add_methods a (all_members sources) h
  unfolding add_sources add_methods
  add_sources-members a [] h = refl
  add_sources-members a (source ∷ sources) h =
      add_sources-members a sources (add_methods a source h)
      ∙ sym (add_methods-append a source (all_members sources) h)

  own-add_methods :
      (a : Bool) (k : Text) (xs : Properties Text (Member B)) (h : Properties Text (Stored B))
      → own k (add_methods a xs h) ≡ maybe (last_member k xs) (own k h) (λ m. some (stored a k m))
  unfolding add_methods
  own-add_methods a k [] h = refl
  own-add_methods a k ((name, m) ∷ xs) h = elim (Option-cases (last_member k xs)) [
    | inr (w, q) ↦ own-add_methods a k xs (set name (stored a name m) h) ∙ simp q
    | inl q ↦
        own-add_methods a k xs (set name (stored a name m) h)
        ∙ simp (q, own-set)
            (elim (Bool-cases (name == k)) [
              | inl t ↦ simp t (ap (λ n. some (stored a n m)) ((text_eq.beq_iff name k).0 t))
              | inr t ↦ simp t
            ])
  ]

  own-completed :
      (klass : ℕ) (o : Option (Stored B)) (h : Properties Text (Stored B)) (name : Text)
      → (codes "initialize" == name) ≡ false
      → (codes "constructor" == name) ≡ false
      → own name (completed klass o h) ≡ own name h
  own-completed klass none h name i c =
      own-set (codes "constructor") name (class_itself klass)
        (set (codes "initialize") empty_function h)
      ∙ if_false _ _ c
      ∙ own-set (codes "initialize") name empty_function h
      ∙ if_false _ _ i
  own-completed klass (some m) h name i c =
      own-set (codes "constructor") name (class_itself klass) h ∙ if_false _ _ c

  flat :
      (o : Option (Member B)) (inherited : Option (Stored B)) (f : Member B → Stored B)
      → maybe (maybe o none (λ m. some (f m))) inherited some ≡ maybe o inherited (λ m. some (f m))
  flat none inherited f = refl
  flat (some m) inherited f = refl

  -- What a new class has under a name, other than `initialize` and `constructor`: the property that
  -- stands last under it in the sources, or what its superclass had.
  pub lookup-create :
      (parent : Option ℕ) (sources : List (Properties Text (Member B))) (classes : List (Klass B))
      (name : Text)
      → (codes "initialize" == name) ≡ false
      → (codes "constructor" == name) ≡ false
      → lookup (length classes) name (create parent sources classes)
        ≡ maybe
            (last_member name (all_members sources))
            (maybe parent none (λ p. lookup p name classes))
            (λ m. some (stored (is_some parent) name m))
  unfolding create own
  lookup-create parent sources classes name i c =
      let id = length classes in
      let h = add_sources (is_some parent) sources [] in
      let inherited = maybe parent none (λ p. lookup p name classes) in
      let bare : Klass B = record { superclass = parent; subclasses = []; prototype = h } in
      let found = lookup id (codes "initialize") (bare ∷ with_subclass parent classes) in
      lookup-newest parent [] (completed id found h) name classes
      ∙ ap (λ o. maybe o inherited some)
          (own-completed id found h name i c
            ∙ ap (own name) (add_sources-members (is_some parent) sources [])
            ∙ own-add_methods (is_some parent) name (all_members sources) [])
      ∙ flat (last_member name (all_members sources)) inherited (stored (is_some parent) name)

  -- A new class has a property `initialize`, whatever its parent and its sources are.
  pub lookup-create_initialize :
      (parent : Option ℕ) (sources : List (Properties Text (Member B))) (classes : List (Klass B))
      → (m : Stored B) × (lookup
            (length classes)
            (codes "initialize")
            (create parent sources classes)
          ≡ some m)
  unfolding create
  lookup-create_initialize parent sources classes =
      let id = length classes in
      let init = codes "initialize" in
      let h = add_sources (is_some parent) sources [] in
      let inherited = maybe parent none (λ p. lookup p init classes) in
      let bare : Klass B = record { superclass = parent; subclasses = []; prototype = h } in
      let found = lookup id init (bare ∷ with_subclass parent classes) in
      let newest = lookup-newest parent [] (completed id found h) init classes in
      elim (Option-cases found) [
        | inl q ↦ (
          empty_function,
          newest
              ∙ ap (λ o. maybe (own init (completed id o h)) inherited some) q
              ∙ ap (λ o. maybe o inherited some)
                  (own-set (codes "constructor") init (class_itself id) (set init empty_function h)
                    ∙ own-set init init empty_function h),
        )
        | inr (m, q) ↦ (
          m,
          newest
              ∙ ap (λ o. maybe (own init (completed id o h)) inherited some) q
              ∙ ap (λ o. maybe o inherited some)
                  (own-set (codes "constructor") init (class_itself id) h)
              ∙ sym (lookup-newest parent [] h init classes)
              ∙ q,
        )
      ]
