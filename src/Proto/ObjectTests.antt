-- ===== src/Proto/ObjectTests.antt =====
-- The theorems on functions, on stored data and on classes, on concrete ones.
use sd.Common.{refl, none, maybe, text_eq, ℕ, ◌≡◌, some, List, [], ◌∷◌}
use sd.Proto.Text.{Text, codes}
use sd.Proto.Hash.{Properties}
use sd.Proto.Functions.{Method}
use sd.Proto.Classes.{Member, plain, super_method, Klass, is_some, stored, lookup, create}
use sd.Proto.Classes.Lookup.{last_member, all_members, lookup-create}
use sd.Proto.Storage.{Storage}

-- `this` and the arguments.
abbrev all_of : Method ℕ ℕ (List ℕ)
all_of = λ self args. self ∷ args

-- Two elements, of which one has an ID.
abbrev storage : Storage ℕ
storage = record { uids = (4, 1) ∷ []; next = 2; hashes = (1, (codes "a", 5) ∷ []) ∷ [] }

-- A class, and the source of another one that overrides its method.
abbrev base : List (Klass ℕ)
base = record { superclass = none; subclasses = []; prototype = [] } ∷ []

abbrev source : Properties Text (Member ℕ)
source = (codes "size", plain 3) ∷ (codes "show", super_method 5) ∷ []

lookup-create_example :
    lookup 1 (codes "show") (create (some 0) (source ∷ []) base)
    ≡ maybe
        (last_member (codes "show") (all_members (source ∷ [])))
        (maybe (some 0) none (λ p. lookup p (codes "show") base))
        (λ m. some (stored (is_some (some 0)) (codes "show") m))
lookup-create_example = lookup-create (some 0) (source ∷ []) base (codes "show") refl refl
