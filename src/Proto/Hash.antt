-- ===== src/Proto/Hash.antt =====
-- Class `Hash` of docs/skin/prototype.js. The object `_object` is the list of its own properties
-- in their order, with the names of the properties; `inherited` is what `Object.prototype` has
-- under a name, which a read of a missing property finds.
pub mod Laws
pub mod Query
use mathlib.Core.List.{foldl}
use sd.Common.{
  Bool, true, false, Option, none, some, List, [], ◌∷◌, map, Eq, ◌==◌, if◌then◌else◌, maybe,
}

abbrev pub Properties {ℓ κ} : Type ℓ → Type κ → Type (ℓ ⊔ κ)
Properties K V = List (K × V)

-- `===` on values that may be `undefined`.
abbrev pub option_beq {ℓ} : {V : Type ℓ} ⦃e : Eq V⦄ → Option V → Option V → Bool
option_beq none none = true
option_beq none (some b) = false
option_beq (some a) none = false
option_beq (some a) (some b) = a == b

module _ {ℓ κ} {K : Type ℓ} {V : Type κ} ⦃e : Eq K⦄ where
  -- An own property.
  unfoldable pub own : K → Properties K V → Option V
  own k [] = none
  own k ((j, v) ∷ h) = if j == k then some v else own k h

  -- An assignment to a property, which adds a new one at the end.
  unfoldable pub set : K → V → Properties K V → Properties K V
  set k v [] = (k, v) ∷ []
  set k v ((j, w) ∷ h) = if j == k then (k, v) ∷ h else (j, w) ∷ set k v h

  -- `delete this._object[key]`.
  unfoldable pub delete : K → Properties K V → Properties K V
  delete k [] = []
  delete k ((j, w) ∷ h) = if j == k then h else (j, w) ∷ delete k h

  -- `this._object[key]`.
  pub read : (K → Option V) → K → Properties K V → Option V
  unfolding own
  read inherited k h = maybe (own k h) (inherited k) some

  unfoldable pub unset : (K → Option V) → K → Properties K V → Properties K V × Option V
  unfolding read delete
  unset inherited k h = (delete k h, read inherited k h)

  -- `Object.clone` and `new Hash(object)` copy the properties one by one.
  unfoldable pub extend : Properties K V → Properties K V → Properties K V
  unfolding set
  extend destination [] = destination
  extend destination ((k, v) ∷ source) = extend (set k v destination) source

  unfoldable pub clone : Properties K V → Properties K V
  unfolding extend
  clone h = extend [] h

  -- The pairs of `new Hash(object)` are set in turn.
  unfoldable pub update : Properties K V → Properties K V → Properties K V
  unfolding clone set
  update h object = foldl (λ result pair. set pair.0 pair.1 result) h (clone object)

  unfoldable pub merge : Properties K V → Properties K V → Properties K V
  unfolding clone update
  merge h object = update (clone h) object

module _ {ℓ κ} {K : Type ℓ} {V : Type κ} where
  unfoldable pub keys : Properties K V → List K
  keys h = map (λ pair. pair.0) h

  unfoldable pub values : Properties K V → List V
  values h = map (λ pair. pair.1) h

  -- The first key that has the value.
  unfoldable pub index : ⦃e : Eq V⦄ → V → Properties K V → Option K
  index value [] = none
  index value ((k, v) ∷ h) = if v == value then some k else index value h

module _ {ℓ κ} {K : Type ℓ} {V : Type κ} ⦃e : Eq K⦄ ⦃f : Eq V⦄ where
  unfoldable pub get : (K → Option V) → K → Properties K V → Option V
  unfolding read
  get inherited k h =
      if option_beq (read inherited k h) (inherited k) then none else read inherited k h
