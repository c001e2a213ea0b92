-- ===== src/Store/Table/Rows.antt =====
-- The rows of a table: the hash of a key is in range, and a change of a row.
use native.Mathlib.Nat.{mod-lt}
use sd.Common.{
  ℕ, zero, suc, ◌+◌, ◌-◌, ◌%◌, ◌≤◌, ◌<◌, ◌≡◌, refl, ap, ◌∙◌, true, some, List, [], ◌∷◌, All, eqb,
  leb, if◌then◌else◌, length, get_elem?, replicate, arith, inl, inr, Bool-cases,
}
use sd.Store.Keys.{Key}
use sd.Store.SortedList.{Chain, list_create}
use sd.Store.SortedList.Order.{WellFormed}
use sd.Store.SortedList.Map.{list_create-WellFormed}
use sd.Store.Table.{row, hash_code, char_sum, remainder, set_row}

row-injective : (i j : ℕ) → row i ≡ row j → i ≡ j
row-injective i j q = cc

-- A hash that is not negative is the index of a row.
pub hash_code-lt : (key : Key) (rows i : ℕ) → 0 < rows → hash_code key rows ≡ row i → i < rows
unfolding hash_code
hash_code-lt key rows i h q = go (char_sum key).0 (char_sum key).1 q
  where
    go : (plus minus : ℕ) → remainder plus minus rows ≡ row i → i < rows
    go plus minus q = elim (Bool-cases (leb minus plus)) [
      | inl t ↦
          let e = row-injective _ _ (simp t at q) in let b = mod-lt (plus - minus) h in rw (← e) b
      | inr t ↦ elim (Bool-cases (eqb ((minus - plus) % rows) 0)) [
        | inl u ↦ let e = row-injective 0 i (simp (t, u) at q) in rw (← e) h
        | inr u ↦ let s = simp (t, u) at q in cc
      ]
    ]

minus-ascii : (key : Key) → All (λ c. c < 128) key → (char_sum key).1 ≡ 0
minus-ascii [] a = refl
minus-ascii (c ∷ key) a = ground (arith, minus-ascii key)

-- A key of ASCII characters has a row.
pub hash_code-ascii :
    (key : Key) (rows : ℕ)
    → 0 < rows
    → All (λ c. c < 128) key
    → hash_code key rows ≡ row ((char_sum key).0 % rows)
unfolding hash_code
hash_code-ascii key rows h a =
    let p = (char_sum key).0 in
    let t : leb 0 p ≡ true = ground arith in
    let s : p - 0 ≡ p = omega arith in
    ap (λ m. remainder p m rows) (minus-ascii key a) ∙ simp (t, s)

-- The lists of the rows from `i` on keep the invariant, and hold keys of their row only.
abbrev pub Rows : ℕ → ℕ → List Chain → Type 0
Rows rows i [] = Unit
Rows rows i (l ∷ ls) =
    (WellFormed l × All (λ e. hash_code e.key rows ≡ row i) l.nodes) × Rows rows (i + 1) ls

abbrev pub total : List Chain → ℕ
total [] = 0
total (l ∷ ls) = l.size + total ls

pub get_elem?-Rows :
    (rows s i : ℕ) (ls : List Chain) {l : Chain}
    → Rows rows s ls
    → get_elem? ls i ≡ some l
    → WellFormed l × All (λ e. hash_code e.key rows ≡ row (s + i)) l.nodes
get_elem?-Rows rows s i [] r q = cc
get_elem?-Rows rows s zero (m ∷ ls) {l} r q =
    let e : m ≡ l = cc in let z : s + 0 ≡ s = omega arith in rw (← e, z) r.0
get_elem?-Rows rows s (suc i) (m ∷ ls) r q =
    let z : s + suc i ≡ s + 1 + i = omega arith in rw z (get_elem?-Rows rows (s + 1) i ls r.1 q)

pub set_row-Rows :
    (rows s i : ℕ) (l : Chain) (ls : List Chain)
    → Rows rows s ls
    → WellFormed l
    → All (λ e. hash_code e.key rows ≡ row (s + i)) l.nodes
    → Rows rows s (set_row i l ls)
set_row-Rows rows s i l [] r w a = tt
set_row-Rows rows s zero l (m ∷ ls) r w a = let z : s + 0 ≡ s = omega arith in ((w, rw z at a), r.1)
set_row-Rows rows s (suc i) l (m ∷ ls) r w a =
    let z : s + suc i ≡ s + 1 + i = omega arith in
    (r.0, set_row-Rows rows (s + 1) i l ls r.1 w (rw z at a))

pub get_elem?-set_row :
    (i j : ℕ) (l : Chain) (ls : List Chain)
    → i < length ls
    → get_elem? (set_row i l ls) j ≡ (if eqb i j then some l else get_elem? ls j)
get_elem?-set_row i j l [] h = absurd (omega arith)
get_elem?-set_row zero zero l (m ∷ ls) h = refl
get_elem?-set_row zero (suc j) l (m ∷ ls) h = ground arith
get_elem?-set_row (suc i) zero l (m ∷ ls) h = ground arith
get_elem?-set_row (suc i) (suc j) l (m ∷ ls) h =
    ground (arith, get_elem?-set_row i j l ls (omega arith))

pub length-set_row : (i : ℕ) (l : Chain) (ls : List Chain) → length (set_row i l ls) ≡ length ls
length-set_row i l [] = refl
length-set_row zero l (m ∷ ls) = refl
length-set_row (suc i) l (m ∷ ls) = ap suc (length-set_row i l ls)

pub total-set_row :
    (i : ℕ) (l : Chain) (ls : List Chain) {m : Chain}
    → get_elem? ls i ≡ some m
    → total (set_row i l ls) + m.size ≡ total ls + l.size
total-set_row i l [] q = cc
total-set_row zero l (k ∷ ls) {m} q = let e : k ≡ m = cc in rw (← e) (omega arith)
total-set_row (suc i) l (k ∷ ls) q = omega (arith, total-set_row i l ls q)

pub total-get_elem? :
    (i : ℕ) (ls : List Chain) {m : Chain} → get_elem? ls i ≡ some m → m.size ≤ total ls
total-get_elem? i [] q = cc
total-get_elem? zero (k ∷ ls) {m} q = let e : k ≡ m = cc in rw (← e) (omega arith)
total-get_elem? (suc i) (k ∷ ls) q = omega (arith, total-get_elem? i ls q)

pub get_elem?-lt :
    (i : ℕ) (ls : List Chain) → i < length ls → (l : Chain) × (get_elem? ls i ≡ some l)
get_elem?-lt i [] h = absurd (omega arith)
get_elem?-lt zero (l ∷ ls) h = (l, refl)
get_elem?-lt (suc i) (l ∷ ls) h = get_elem?-lt i ls (omega arith)

pub Rows-create : (rows s n : ℕ) → Rows rows s (replicate n list_create)
Rows-create rows s zero = tt
Rows-create rows s (suc n) = ((list_create-WellFormed, tt), Rows-create rows (s + 1) n)

pub total-create : (n : ℕ) → total (replicate n list_create) ≡ 0
total-create zero = refl
total-create (suc n) = omega (arith, total-create n)
