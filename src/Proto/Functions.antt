-- ===== src/Proto/Functions.antt =====
-- The methods of functions of docs/skin/prototype.js. A function takes `this` and its arguments; a
-- hole among the arguments is read as `undefined`, the parameter `undef`. Functions that are called
-- with `new` get an argument that says so.
use sd.Common.{
  ℕ, zero, suc, ◌+◌, ◌≡◌, refl, ap, sym, ◌∙◌, fun_ext, Bool, false, Option, none, some, List, [],
  ◌∷◌, ◌++◌, map, append-nil, append_assoc, length, replicate, if◌then◌else◌, maybe, arith,
}

module _ {ℓ} {A : Type ℓ} where
  -- `array[i] = v`, which makes holes before a new last element.
  abbrev pub assign : ℕ → A → List (Option A) → List (Option A)
  assign zero v [] = some v ∷ []
  assign (suc i) v [] = none ∷ assign i v []
  assign zero v (x ∷ xs) = some v ∷ xs
  assign (suc i) v (x ∷ xs) = x ∷ assign i v xs

  -- The loop of `update`, which goes down from the last argument.
  pub update_loop : ℕ → List A → List (Option A) → List (Option A)
  update_loop i [] array = array
  update_loop i (v ∷ args) array = assign i v (update_loop (suc i) args array)

  unfoldable pub update : List A → List A → List (Option A)
  unfolding update_loop
  update array args = update_loop (length array) args (map some array)

  -- `merge` updates a copy.
  unfoldable pub merge : List A → List A → List (Option A)
  unfolding update
  merge array args = update array args

  assign-hole :
      (k : ℕ) (v : A) (ys : List (Option A))
      → assign k v (replicate (suc k) none ++ ys) ≡ replicate k none ++ some v ∷ ys
  assign-hole zero v ys = refl
  assign-hole (suc k) v ys = ap (none ∷◌) (assign-hole k v ys)

  assign-end : (k : ℕ) (v : A) → assign k v [] ≡ replicate k none ++ some v ∷ []
  assign-end zero v = refl
  assign-end (suc k) v = ap (none ∷◌) (assign-end k v)

  -- The holes and values that the loop puts after an array.
  abbrev added : ℕ → List A → List (Option A)
  added k [] = []
  added k (v ∷ args) = replicate k none ++ map some (v ∷ args)

  assign-added :
      (k : ℕ) (v : A) (args : List A) → assign k v (added (suc k) args) ≡ added k (v ∷ args)
  assign-added k v [] = assign-end k v
  assign-added k v (w ∷ args) = assign-hole k v (map some (w ∷ args))

  assign-after :
      (xs : List A) (i : ℕ) (v : A) (ys : List (Option A))
      → assign (length xs + i) v (map some xs ++ ys) ≡ map some xs ++ assign i v ys
  assign-after [] i v ys = let e : 0 + i ≡ i = omega arith in rw e refl
  assign-after (x ∷ xs) i v ys =
      let e : length (x ∷ xs) + i ≡ suc (length xs + i) = omega arith in
      rw e (ap (some x ∷◌) (assign-after xs i v ys))

  update_loop-added :
      (xs args : List A) (k : ℕ)
      → update_loop (length xs + k) args (map some xs) ≡ map some xs ++ added k args
  unfolding update_loop
  update_loop-added xs [] k = sym (append-nil (map some xs))
  update_loop-added xs (v ∷ args) k =
      let e : suc (length xs + k) ≡ length xs + suc k = omega arith in
      ap (λ i. assign (length xs + k) v (update_loop i args (map some xs))) e
      ∙ ap (assign (length xs + k) v) (update_loop-added xs args (suc k))
      ∙ assign-after xs k v (added (suc k) args)
      ∙ ap (map some xs ++◌) (assign-added k v args)

  map-append : (xs ys : List A) → map some xs ++ map some ys ≡ map some (xs ++ ys)
  map-append [] ys = refl
  map-append (x ∷ xs) ys = ap (some x ∷◌) (map-append xs ys)

  added-values : (args : List A) → added 0 args ≡ map some args
  added-values [] = refl
  added-values (v ∷ args) = refl

  -- `update` appends the arguments, and leaves no hole.
  pub update_lem : (array args : List A) → update array args ≡ map some (array ++ args)
  unfolding update
  update_lem array args =
      let e : length array ≡ length array + 0 = omega arith in
      ap (λ i. update_loop i args (map some array)) e
      ∙ update_loop-added array args 0
      ∙ ap (map some array ++◌) (added-values args)
      ∙ map-append array args

-- A function of `this` and the arguments.
abbrev pub Method {ℓ κ μ} : Type ℓ → Type κ → Type μ → Type (ℓ ⊔ κ ⊔ μ)
Method T V R = T → List V → R

-- The arguments of `apply`.
abbrev pub arguments {κ} : {V : Type κ} → V → List (Option V) → List V
arguments undef [] = []
arguments undef (x ∷ xs) = maybe x undef (λ v. v) ∷ arguments undef xs

arguments-some {κ} : {V : Type κ} (undef : V) (vs : List V) → arguments undef (map some vs) ≡ vs
arguments-some undef [] = refl
arguments-some undef (v ∷ vs) = ap (v ∷◌) (arguments-some undef vs)

arguments-merge {κ} :
    {V : Type κ} (undef : V) (args more : List V) → arguments undef (merge args more) ≡ args ++ more
unfolding merge
arguments-merge undef args more =
    ap (arguments undef) (update_lem args more) ∙ arguments-some undef (args ++ more)

-- `methodize`; `cached` is `_methodized`. The method then has no `this`.
unfoldable pub methodize {κ μ} :
    {V : Type κ} {R : Type μ} → V → Option (Method V V R) → (List V → R) → Method V V R
unfolding update
methodize undef none method = λ self more. method (arguments undef (update (self ∷ []) more))
methodize undef (some cached) method = cached

module _ {ℓ κ μ} {T : Type ℓ} {V : Type κ} {R : Type μ} (undef : V) (no_this : T) where
  -- What `bind` makes, for a context and arguments; `constructed` says that it is called with `new`.
  unfoldable pub bound : Method T V R → T → List V → Bool → Method T V R
  unfolding merge
  bound method context args constructed self more =
      method (if constructed then self else context) (arguments undef (merge args more))

  -- `bind`, with a context that may be `undefined`; a call of the result with `new` is not here.
  unfoldable pub bind : Method T V R → Option T → List V → Method T V R
  unfolding bound
  bind method none [] = method
  bind method none (a ∷ args) = bound method no_this (a ∷ args) false
  bind method (some context) args = bound method context args false

  unfoldable pub bind_as_event_listener : Method T V R → T → List V → V → R
  unfolding update
  bind_as_event_listener method context args event =
      method context (arguments undef (update (event ∷ []) args))

  -- Without arguments `curry` returns the function.
  unfoldable pub curry : Method T V R → List V → Method T V R
  unfolding merge
  curry method [] = method
  curry method (a ∷ args) = λ self more. method self (arguments undef (merge (a ∷ args) more))

  -- `wrapper` gets the bound function before the arguments; here it is kept apart from them.
  unfoldable pub wrap : Method T V R → (T → (List V → R) → List V → R) → Method T V R
  unfolding bind
  wrap method wrapper self more = wrapper self (bind method (some self) [] no_this) more

  curry_lem :
      (method : Method T V R) (args : List V) (self : T) (more : List V)
      → curry method args self more ≡ method self (args ++ more)
  unfolding curry
  curry_lem method [] self more = refl
  curry_lem method (a ∷ args) self more = ap (method self) (arguments-merge undef (a ∷ args) more)

  -- Currying twice is currying once with the arguments of both, in order.
  pub curry-curry :
      (method : Method T V R) (first second : List V)
      → curry (curry method first) second ≡ curry method (first ++ second)
  curry-curry method first second = fun_ext λ self. fun_ext λ more.
      curry_lem (curry method first) second self more
      ∙ curry_lem method first self (second ++ more)
      ∙ ap (method self) (sym (append_assoc first second more))
      ∙ sym (curry_lem method (first ++ second) self more)

  bind_lem :
      (method : Method T V R) (context : T) (args : List V) (self : T) (more : List V)
      → bound method context args false self more ≡ method context (args ++ more)
  unfolding bound
  bind_lem method context args self more = ap (method context) (arguments-merge undef args more)

  twice :
      (method : Method T V R) (context : T) (first second : List V) (other self : T) (more : List V)
      → bind method (some context) first other (second ++ more)
        ≡ bind method (some context) (first ++ second) self more
  unfolding bind
  twice method context first second other self more =
      bind_lem method context first other (second ++ more)
      ∙ ap (method context) (sym (append_assoc first second more))
      ∙ sym (bind_lem method context (first ++ second) self more)

  -- A function that is bound keeps its context: binding it again adds arguments only.
  pub bind-bind :
      (method : Method T V R) (context : T) (other : Option T) (first second : List V)
      → bind (bind method (some context) first) other second
        ≡ bind method (some context) (first ++ second)
  unfolding bind
  bind-bind method context none first [] = ap (bind method (some context)) (sym (append-nil first))
  bind-bind method context none first (a ∷ second) = fun_ext λ self. fun_ext λ more.
      bind_lem (bind method (some context) first) no_this (a ∷ second) self more
      ∙ twice method context first (a ∷ second) no_this self more
  bind-bind method context (some other) first second = fun_ext λ self. fun_ext λ more.
      bind_lem (bind method (some context) first) other second self more
      ∙ twice method context first second other self more

  -- A wrapper that calls on what it wraps changes nothing, and one that does not gets `this` and the
  -- arguments of the call.
  pub wrap-calls :
      (method : Method T V R) → wrap method (λ self proceed more. proceed more) ≡ method
  unfolding wrap bind bound
  wrap-calls method =
      fun_ext λ self. fun_ext λ more. ap (method self) (arguments-merge undef [] more)
