-- ===== src/Proto/Ajax/Responders.antt =====
-- `Ajax.Responders` as a list without repeats.
use sd.Common.{
  ◌≡◌, true, false, List, [], ◌∷◌, ◌++◌, Eq, ◌==◌, arith, has, Bool-cases, inl, inr, beq_refl,
}
use sd.Proto.Arrays.{without}
use sd.Proto.Ajax.{register, unregister}

module _ {ℓ} {A : Type ℓ} ⦃e : Eq A⦄ where
  without-last : (r : A) (rs : List A) → has r rs ≡ false → without (r ∷ []) (rs ++ r ∷ []) ≡ rs
  unfolding without
  without-last r [] h = simp (beq_refl r)
  without-last r (x ∷ rs) h = elim (Bool-cases (x == r)) [
    | inl t ↦ absurd (let u = simp t at h in cc)
    | inr t ↦
        let u : (r == x) ≡ false = ground (arith, e.beq_iff x r, e.beq_iff r x) in
        simp (u, without-last r rs (simp t at h))
  ]

  -- Registering a responder twice is registering it once, and unregistering one that was not
  -- registered before takes it off again and leaves the others in their order.
  pub register-unregister :
      (r : A) (rs : List A)
      → has r rs ≡ false
      → (register r (register r rs) ≡ register r rs) × (unregister r (register r rs) ≡ rs)
  unfolding register unregister
  register-unregister r rs h =
      let again : has r (rs ++ r ∷ []) ≡ true = has-last rs in
      (simp (h, again), simp h (without-last r rs h))
    where
      has-last : (xs : List A) → has r (xs ++ r ∷ []) ≡ true
      has-last [] = simp (beq_refl r)
      has-last (x ∷ xs) = ground (arith, has-last xs)
