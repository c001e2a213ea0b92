-- ===== src/Proto/Strings/Shape.antt =====
-- `truncate`, `times`, `camelize`, `startsWith`, `endsWith`.
use sd.Common.{
  ℕ, zero, suc, ◌+◌, ◌-◌, ◌*◌, ◌≤◌, ◌<◌, ◌≡◌, refl, Bool, true, false, [], ◌∷◌, inl, inr, arith,
  ltb, leb, eqb, length, take, drop, replicate, length-take, length-append, Bool-cases,
  if◌then◌else◌,
}
use sd.Proto.Text.{Text, join, is_prefix, none_of}
use sd.Proto.Strings.{truncate, times, camel, camelize, last_index_from, starts_with, found_at}

-- With a limit above 0 and a truncation that is not longer than it, a truncated text is within the limit, and
-- a text within the limit is left as it is.
pub length-truncate :
    (limit : ℕ) (truncation s : Text)
    → 0 < limit
    → length truncation ≤ limit
    → (length (truncate limit truncation s) ≤ limit)
      × (length s ≤ limit → truncate limit truncation s ≡ s)
unfolding truncate
length-truncate limit truncation s h k = (
  ground (
    arith,
    length-append (take (limit - length truncation) s) truncation,
    length-take (limit - length truncation) s,
  ),
  λ fits. ground arith,
)

length-join : (s : Text) (n : ℕ) → length (join s (replicate (suc n) [])) ≡ n * length s
length-join s zero = omega arith
length-join s (suc n) =
    omega (arith, length-append s (join s (replicate (suc n) [])), length-join s n)

-- `times` is that many copies of the text.
pub length-times : (count : ℕ) (s : Text) → length (times count s) ≡ count * length s
unfolding times
length-times zero s = omega arith
length-times (suc n) s =
    let e : suc n + 1 ≡ suc (suc n) = omega arith in
    let t : ltb (suc n) 1 ≡ false = ground arith in simp (e, t) (length-join s (suc n))

camel-dashes : (dashes : Bool) (s : Text) → none_of (λ c. eqb c b'-') (camel dashes s) ≡ true
unfolding camel
camel-dashes d [] = refl
camel-dashes d (c ∷ s) = ground (arith, camel-dashes (eqb c b'-') s)

camel-again : (s : Text) → none_of (λ c. eqb c b'-') s ≡ true → camel false s ≡ s
unfolding camel
camel-again [] h = refl
camel-again (c ∷ s) h = ground (arith, camel-again s)

-- `camelize` leaves no dash, and changes nothing when it is applied again.
pub camelize_lem :
    (s : Text)
    → (none_of (λ c. eqb c b'-') (camelize s) ≡ true) × (camelize (camelize s) ≡ camelize s)
unfolding camelize
camelize_lem s = (camel-dashes false s, camel-again (camel false s) (camel-dashes false s))

-- The search goes down from `k`, so it does not find a later place.
last_index_from-below : (p s : Text) (k j : ℕ) → k < j → found_at j (last_index_from p s k) ≡ false
unfolding last_index_from
last_index_from-below p s zero j h = ground arith
last_index_from-below p s (suc k) j h = ground (arith, last_index_from-below p s k j)

last_index_from-prefix :
    (p s : Text) (k : ℕ) → found_at k (last_index_from p s k) ≡ is_prefix p (drop k s)
unfolding last_index_from
last_index_from-prefix p s zero = ground arith
last_index_from-prefix p s (suc k) = elim (Bool-cases (is_prefix p (drop (suc k) s))) [
  | inl t ↦ simp t (ground arith)
  | inr t ↦ simp t (last_index_from-below p s k (suc k) (omega arith))
]

-- `startsWith` at a position within the text says whether the pattern stands there; past the end
-- it is false.
pub starts_with_lem :
    (pattern : Text) (position : ℕ) (s : Text)
    → starts_with pattern position s
      ≡ (if leb position (length s) then is_prefix pattern (drop position s) else false)
unfolding starts_with
starts_with_lem pattern position s = elim (Bool-cases (leb position (length s))) [
  | inl t ↦
      let u : ltb (length s) position ≡ false = ground arith in
      simp (t, u) (last_index_from-prefix pattern s position)
  | inr t ↦
      let u : ltb (length s) position ≡ true = ground arith in
      simp (t, u) (last_index_from-below pattern s (length s) position (ground arith))
]
