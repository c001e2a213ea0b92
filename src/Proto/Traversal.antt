-- ===== src/Proto/Traversal.antt =====
-- The walks over the page of docs/skin/prototype.js: `recursivelyCollect` and what stands on it. The
-- nodes that a property such as `nextSibling` gives, one after another, are a list; whether a node
-- matches an expression is an argument.
use mathlib.Core.List.{reverse, reverse-cons, reverse-reverse}
use sd.Common.{
  ℕ, zero, suc, ◌+◌, ◌-◌, ◌≡◌, refl, ap, sym, ◌∙◌, Bool, true, false, not, ◌&&◌, Option, none, some,
  List, [], ◌∷◌, ◌++◌, append-nil, eqb, if◌then◌else◌, maybe, get_elem?, inl, inr, Bool-cases,
  if_false, arith,
}

-- A node, by its identity, and whether it is an element.
pub record Node : Type 0 where
  pub id : ℕ
  pub is_element : Bool

-- The elements among nodes, in their order.
abbrev pub select_nodes : (Node → Bool) → List Node → List Node
select_nodes p [] = []
select_nodes p (n ∷ ns) = if p n then n ∷ select_nodes p ns else select_nodes p ns

-- The loop of `recursivelyCollect`, with so many elements collected; a maximal length of 0 is none.
pub collect_loop : ℕ → ℕ → List Node → List Node
collect_loop maximum count [] = []
collect_loop maximum count (n ∷ ns) =
    let count' = if n.is_element then count + 1 else count in
    let rest = collect_loop maximum count' ns in
    let later = if not (eqb maximum 0) && eqb count' maximum then [] else rest in
    if n.is_element then n ∷ later else later

unfoldable pub recursively_collect : ℕ → List Node → List Node
unfolding collect_loop
recursively_collect maximum nodes = collect_loop maximum 0 nodes

-- `ancestors`, `previousSiblings` and `nextSiblings`, on what their property gives.
abbrev pub all_elements : List Node → List Node
all_elements nodes = recursively_collect 0 nodes

-- `siblings`: on what `previousSibling` and what `nextSibling` gives.
unfoldable pub siblings : List Node → List Node → List Node
unfolding recursively_collect
siblings previous next = reverse (all_elements previous) ++ all_elements next

-- `firstDescendant`, on the first child and its siblings.
abbrev pub first_descendant : List Node → Option Node
first_descendant [] = none
first_descendant (n ∷ ns) = if n.is_element then some n else first_descendant ns

-- `immediateDescendants`.
unfoldable pub immediate_descendants : List Node → List Node
immediate_descendants [] = []
immediate_descendants (n ∷ ns) =
    if n.is_element then n ∷ immediate_descendants ns else immediate_descendants ns

-- The loop of `_recursivelyFind`; without an expression every element matches.
unfoldable pub recursively_find : Option (Node → Bool) → ℕ → List Node → Option Node
recursively_find expression index [] = none
recursively_find expression index (n ∷ ns) =
    let skip = recursively_find expression index ns in
    let count = recursively_find expression (index - 1) ns in
    if not n.is_element
    then skip
    else if not (maybe expression true (λ matches. matches n))
    then skip
    else if eqb index 0
    then some n
    else count

-- `adjacent`.
unfoldable pub adjacent : (Node → Bool) → List Node → List Node → List Node
unfolding siblings
adjacent matches previous next = select_nodes matches (siblings previous next)

-- `descendantOf_DOM`, on what `parentNode` gives.
unfoldable pub descendant_of : ℕ → List Node → Bool
descendant_of ancestor [] = false
descendant_of ancestor (n ∷ ns) = if eqb n.id ancestor then true else descendant_of ancestor ns

collect_loop-all :
    (count : ℕ) (nodes : List Node)
    → collect_loop 0 count nodes ≡ select_nodes (λ n. n.is_element) nodes
unfolding collect_loop
collect_loop-all count [] = refl
collect_loop-all count (n ∷ ns) = elim (Bool-cases n.is_element) [
  | inl t ↦ simp (t, collect_loop-all (count + 1) ns)
  | inr t ↦ simp (t, collect_loop-all count ns)
]

select_nodes-append :
    (p : Node → Bool) (ns ms : List Node)
    → select_nodes p (ns ++ ms) ≡ select_nodes p ns ++ select_nodes p ms
select_nodes-append p [] ms = refl
select_nodes-append p (n ∷ ns) ms = elim (Bool-cases (p n)) [
  | inl t ↦ simp (t, select_nodes-append p ns ms)
  | inr t ↦ simp (t, select_nodes-append p ns ms)
]

select_nodes-reverse :
    (p : Node → Bool) (ns : List Node) → select_nodes p (reverse ns) ≡ reverse (select_nodes p ns)
select_nodes-reverse p [] = refl
select_nodes-reverse p (n ∷ ns) =
    ap (select_nodes p) (reverse-cons n ns)
    ∙ select_nodes-append p (reverse ns) (n ∷ [])
    ∙ ap (λ (ms : List Node). ms ++ select_nodes p (n ∷ [])) (select_nodes-reverse p ns)
    ∙ elim (Bool-cases (p n)) [
      | inl t ↦ simp t (sym (reverse-cons n (select_nodes p ns)))
      | inr t ↦ simp t (append-nil (reverse (select_nodes p ns)))
    ]

-- `siblings` are the elements among the parent's other children, in the order of the page: of the
-- children in front of the element, which `previousSibling` gives from the last one on, and of those
-- after it.
pub siblings_lem :
    (before after : List Node)
    → siblings (reverse before) after ≡ select_nodes (λ n. n.is_element) (before ++ after)
unfolding siblings recursively_collect
siblings_lem before after =
    ap (λ (ns : List Node). reverse ns ++ collect_loop 0 0 after)
      (collect_loop-all 0 (reverse before))
    ∙ ap (λ (ns : List Node). reverse (select_nodes (λ n. n.is_element) (reverse before)) ++ ns)
        (collect_loop-all 0 after)
    ∙ ap (λ (ns : List Node). ns ++ select_nodes (λ n. n.is_element) after)
        (ap reverse (select_nodes-reverse (λ n. n.is_element) before)
          ∙ reverse-reverse (select_nodes (λ n. n.is_element) before))
    ∙ sym (select_nodes-append (λ n. n.is_element) before after)

-- `up`, `previous` and `next` with an expression and an index: the element of that index among those
-- that their property gives and that match the expression; every element does without one.
pub recursively_find_lem :
    (expression : Option (Node → Bool)) (index : ℕ) (nodes : List Node)
    → recursively_find expression index nodes
      ≡ get_elem?
          (select_nodes (λ n. n.is_element && maybe expression true (λ matches. matches n)) nodes)
          index
unfolding recursively_find
recursively_find_lem expression index [] = refl
recursively_find_lem expression index (n ∷ ns) = elim (Bool-cases n.is_element) [
  | inr t ↦ simp t (recursively_find_lem expression index ns)
  | inl t ↦ elim (Bool-cases (maybe expression true (λ matches. matches n))) [
    | inr u ↦ simp (t, u) (recursively_find_lem expression index ns)
    | inl u ↦ simp (t, u) (at_index index (λ j. recursively_find_lem expression j ns))
  ]
]
  where
    rest : List Node
    rest = select_nodes (λ n. n.is_element && maybe expression true (λ matches. matches n)) ns

    at_index :
        (index : ℕ)
        → ((j : ℕ) → recursively_find expression j ns ≡ get_elem? rest j)
        → (if eqb index 0 then some n else recursively_find expression (index - 1) ns)
          ≡ get_elem? (n ∷ rest) index
    at_index zero ih = refl
    at_index (suc i) ih =
        let e : suc i - 1 ≡ i = omega arith in
        let z : eqb (suc i) 0 ≡ false = ground arith in
        if_false _ _ z ∙ ap (λ (j : ℕ). recursively_find expression j ns) e ∙ ih i
