-- ===== src/Store/Chain/Sorting.antt =====
-- `bubble_sort` sorts, and keeps the elements.
use mathlib.Core.List.{Perm, Permᴰ}
use mathlib.Core.Path.{subst}
use sd.Common.{
  ℕ, zero, suc, ◌-◌, ◌≤◌, ◌≡◌, refl, ap, sym, ◌∙◌, true, false, List, [], ◌∷◌, All, length, inl,
  inr, Bool-cases, arith,
}
use sd.Store.Keys.{Key, Comparison-cases, strcmp, strcmp-equal, strcmp-greater, strcmp_trans}
use sd.Store.Chain.{is_greater, swap_front, pass, keep_first, rounds, bubble_sort}

-- The second key is not before the first.
abbrev pub NotAfter : Key → Key → Type 0
NotAfter a b = is_greater (strcmp a b) ≡ false

abbrev pub Ascending : List Key → Type 0
Ascending [] = Unit
Ascending (x ∷ xs) = All (NotAfter x) xs × Ascending xs

pub NotAfter-trans : (a b c : Key) → NotAfter a b → NotAfter b c → NotAfter a c
NotAfter-trans a b c h k = elim (Comparison-cases (strcmp a b)) [
  | inl t ↦ elim (Comparison-cases (strcmp b c)) [
    | inl u ↦ ap is_greater (strcmp_trans a b c t u)
    | inr (inl u) ↦ ap is_greater (rw (strcmp-equal b c u) at t)
    | inr (inr u) ↦ absurd (let z = sym k ∙ ap is_greater u in cc)
  ]
  | inr (inl t) ↦ rw (← strcmp-equal a b t) at k
  | inr (inr t) ↦ absurd (let z = sym h ∙ ap is_greater t in cc)
]

-- A key that is after another one has that one not after it.
pub greater-NotAfter : (a b : Key) → is_greater (strcmp a b) ≡ true → NotAfter b a
greater-NotAfter a b h = elim (Comparison-cases (strcmp a b)) [
  | inl t ↦ absurd (let z = sym h ∙ ap is_greater t in cc)
  | inr (inl t) ↦ absurd (let z = sym h ∙ ap is_greater t in cc)
  | inr (inr t) ↦ ap is_greater (strcmp-greater a b t)
]

same : (xs : List Key) → Permᴰ xs xs
same [] = Permᴰ.nil
same (x ∷ xs) = Permᴰ.cons refl (same xs)

back : {xs ys : List Key} → Permᴰ xs ys → Permᴰ ys xs
back Permᴰ.nil = Permᴰ.nil
back (Permᴰ.cons e p) = Permᴰ.cons (sym e) (back p)
back (Permᴰ.swap e d) = Permᴰ.swap (sym d) (sym e)
back (Permᴰ.trans p q) = Permᴰ.trans (back q) (back p)

swap_front-perm : (x : Key) (ys : List Key) → Permᴰ (swap_front x ys) (x ∷ ys)
swap_front-perm x [] = same (x ∷ [])
swap_front-perm x (y ∷ ys) = elim (Bool-cases (is_greater (strcmp x y))) [
  | inl t ↦ simp t (Permᴰ.swap refl refl)
  | inr t ↦ simp t (same (x ∷ (y ∷ ys)))
]

pass-perm : (xs : List Key) → Permᴰ (pass xs) xs
unfolding pass
pass-perm [] = Permᴰ.nil
pass-perm (x ∷ xs) = Permᴰ.trans (swap_front-perm x (pass xs)) (Permᴰ.cons refl (pass-perm xs))

keep_first-perm :
    (f : List Key → List Key) (xs : List Key)
    → ((ys : List Key) → Permᴰ (f ys) ys)
    → Permᴰ (keep_first f xs) xs
keep_first-perm f [] h = Permᴰ.nil
keep_first-perm f (x ∷ xs) h = Permᴰ.cons refl (h xs)

rounds-perm : (n : ℕ) (xs : List Key) → Permᴰ (rounds n xs) xs
unfolding rounds
rounds-perm zero xs = same xs
rounds-perm (suc n) xs =
    Permᴰ.trans (keep_first-perm (rounds n) (pass xs) (rounds-perm n)) (pass-perm xs)

All-perm {κ} : (P : Key → Type κ) {xs ys : List Key} → Permᴰ xs ys → All P xs → All P ys
All-perm P Permᴰ.nil a = a
All-perm P (Permᴰ.cons e p) a = (subst P e a.0, All-perm P p a.1)
All-perm P (Permᴰ.swap e d) a = (subst P d a.1.0, (subst P e a.0, a.1.1))
All-perm P (Permᴰ.trans p q) a = All-perm P q (All-perm P p a)

length-perm : {xs ys : List Key} → Permᴰ xs ys → length xs ≡ length ys
length-perm Permᴰ.nil = refl
length-perm (Permᴰ.cons e p) = ap suc (length-perm p)
length-perm (Permᴰ.swap e d) = refl
length-perm (Permᴰ.trans p q) = length-perm p ∙ length-perm q

-- The first element is not after the others.
abbrev FirstLeast : List Key → Type 0
FirstLeast [] = Unit
FirstLeast (x ∷ xs) = All (NotAfter x) xs

NotAfter-all :
    (a b : Key) (xs : List Key) → NotAfter a b → All (NotAfter b) xs → All (NotAfter a) xs
NotAfter-all a b [] h k = tt
NotAfter-all a b (x ∷ xs) h k = (NotAfter-trans a b x h k.0, NotAfter-all a b xs h k.1)

swap_front-FirstLeast : (x : Key) (ys : List Key) → FirstLeast ys → FirstLeast (swap_front x ys)
swap_front-FirstLeast x [] f = tt
swap_front-FirstLeast x (y ∷ ys) f = elim (Bool-cases (is_greater (strcmp x y))) [
  | inl t ↦ simp t (greater-NotAfter x y t, f)
  | inr t ↦ simp t (refl, NotAfter-all x y ys t f)
]

pass-FirstLeast : (xs : List Key) → FirstLeast (pass xs)
unfolding pass
pass-FirstLeast [] = tt
pass-FirstLeast (x ∷ xs) = swap_front-FirstLeast x (pass xs) (pass-FirstLeast xs)

keep_first-Ascending :
    (n : ℕ) (xs : List Key)
    → ((ys : List Key) → length ys ≤ suc n → Ascending (rounds n ys))
    → FirstLeast xs
    → length xs ≤ suc (suc n)
    → Ascending (keep_first (rounds n) xs)
keep_first-Ascending n [] ih f h = tt
keep_first-Ascending n (x ∷ xs) ih f h =
    (All-perm (NotAfter x) (back (rounds-perm n xs)) f, ih xs (omega arith))

rounds-Ascending : (n : ℕ) (xs : List Key) → length xs ≤ suc n → Ascending (rounds n xs)
unfolding rounds
rounds-Ascending zero [] h = tt
rounds-Ascending zero (x ∷ []) h = (tt, tt)
rounds-Ascending zero (x ∷ (y ∷ xs)) h = absurd (omega arith)
rounds-Ascending (suc n) xs h =
    keep_first-Ascending n (pass xs) (rounds-Ascending n) (pass-FirstLeast xs)
      (omega (arith, length-perm (pass-perm xs)))

-- Whatever holds of all keys holds of all keys of the sorted array, and the other way round.
pub All-bubble_sort {κ} : (P : Key → Type κ) (xs : List Key) → All P xs → All P (bubble_sort xs)
unfolding bubble_sort
All-bubble_sort P xs = All-perm P (back (rounds-perm (length xs - 1) xs))

pub All_of_bubble_sort {κ} : (P : Key → Type κ) (xs : List Key) → All P (bubble_sort xs) → All P xs
unfolding bubble_sort
All_of_bubble_sort P xs = All-perm P (rounds-perm (length xs - 1) xs)

-- `bubble_sort` puts the keys in ascending order, and keeps them, each as often as it stood there.
pub bubble_sort-sorts : (xs : List Key) → Ascending (bubble_sort xs) × Perm (bubble_sort xs) xs
unfolding bubble_sort
bubble_sort-sorts xs =
    (rounds-Ascending (length xs - 1) xs (omega arith), ∣ rounds-perm (length xs - 1) xs ∣₁)
