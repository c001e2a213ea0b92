-- ===== src/Proto/Classes.antt =====
-- `Class.create` and `addMethods` of docs/skin/prototype.js, where `for ... in` sees all properties.
-- The classes are a list, the newest one first; a class is the number of those before it. What is
-- found in `Object.prototype`, and `valueOf` and `toString` of a wrapped function, are not modelled; a
-- property `initialize` is a function.
pub mod Lookup
use sd.Common.{
  fun_ext, ℕ, zero, suc, ◌+◌, ◌<◌, ◌≡◌, ◌≢◌, refl, ap, sym, ◌∙◌, Bool, true, false, not, Option,
  none, some, List, [], ◌∷◌, ◌++◌, eqb, length, if◌then◌else◌, maybe, Eq, ◌==◌, text_eq, inl, inr,
  Bool-cases, Option-cases, if_true, if_false, arith,
}
use sd.Proto.Text.{Text, codes}
use sd.Proto.Hash.{Properties, own, set}
use sd.Proto.Hash.Laws.{own-set}

-- A property of a source: a value, a function, or a function whose first argument is `$super`.
pub data Member (B : Type 0) : Type 0 where
  plain method super_method : B → Member B

-- A property of a prototype: one of a source, a function of a source that gets the ancestor's method
-- of a name, `Prototype.emptyFunction`, or the class.
pub data Stored (B : Type 0) : Type 0 where
  copied : Member B → Stored B
  wrapped : Text → B → Stored B
  empty_function : Stored B
  class_itself : ℕ → Stored B

pub record Klass (B : Type 0) : Type 0 where
  pub superclass : Option ℕ
  pub subclasses : List ℕ
  pub prototype : Properties Text (Stored B)

-- Whether there is an ancestor.
abbrev pub is_some : Option ℕ → Bool
is_some none = false
is_some (some p) = true

module _ {B : Type 0} where
  -- What `addMethods` stores, for a class with an ancestor or without.
  abbrev pub stored : Bool → Text → Member B → Stored B
  stored true name (super_method b) = wrapped name b
  stored true name (plain b) = copied (plain b)
  stored true name (method b) = copied (method b)
  stored false name m = copied m

  -- The loop of `addMethods`.
  unfoldable pub add_methods :
      Bool → Properties Text (Member B) → Properties Text (Stored B) → Properties Text (Stored B)
  add_methods ancestor [] prototype = prototype
  add_methods ancestor ((name, m) ∷ source) prototype =
      add_methods ancestor source (set name (stored ancestor name m) prototype)

  unfoldable pub add_sources :
      Bool
      → List (Properties Text (Member B))
      → Properties Text (Stored B)
      → Properties Text (Stored B)
  unfolding add_methods
  add_sources ancestor [] prototype = prototype
  add_sources ancestor (source ∷ sources) prototype =
      add_sources ancestor sources (add_methods ancestor source prototype)

  -- A property of a class's prototype, or of that of its superclass, and so on.
  unfoldable pub lookup : ℕ → Text → List (Klass B) → Option (Stored B)
  lookup klass name [] = none
  lookup klass name (c ∷ older) =
      let inherited = maybe c.superclass none (λ p. lookup p name older) in
      let rest = lookup klass name older in
      if eqb klass (length older) then maybe (own name c.prototype) inherited some else rest

  -- `parent.subclasses.push(klass)`.
  unfoldable pub push_subclass : ℕ → ℕ → List (Klass B) → List (Klass B)
  push_subclass parent klass [] = []
  push_subclass parent klass (c ∷ older) =
      let rest = push_subclass parent klass older in
      if eqb parent (length older)
      then record c { subclasses = c.subclasses ++ klass ∷ [] } ∷ older
      else c ∷ rest

  -- `if (!klass.prototype.initialize)`, and the constructor.
  abbrev pub completed :
      ℕ → Option (Stored B) → Properties Text (Stored B) → Properties Text (Stored B)
  completed klass none prototype =
      set (codes "constructor") (class_itself klass)
        (set (codes "initialize") empty_function prototype)
  completed klass (some m) prototype = set (codes "constructor") (class_itself klass) prototype

  -- The classes before the new one, with the new one among the subclasses of its parent.
  unfoldable pub with_subclass : Option ℕ → List (Klass B) → List (Klass B)
  unfolding push_subclass
  with_subclass none classes = classes
  with_subclass (some p) classes = push_subclass p (length classes) classes

  -- `create`.
  unfoldable pub create :
      Option ℕ → List (Properties Text (Member B)) → List (Klass B) → List (Klass B)
  unfolding add_sources lookup with_subclass
  create parent sources classes =
      let older = with_subclass parent classes in
      let prototype = add_sources (is_some parent) sources [] in
      let bare : Klass B = record { superclass = parent; subclasses = []; prototype = prototype } in
      let found = lookup (length classes) (codes "initialize") (bare ∷ older) in
      record bare { prototype = completed (length classes) found prototype } ∷ older
