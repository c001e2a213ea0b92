-- ===== src/Store/Server/Retry.antt =====
-- The calls of the next server: until one succeeds, and ten at most.
use sd.Common.{
  ℕ, zero, suc, ◌≤◌, ◌<◌, ◌≡◌, refl, ap, ◌∙◌, Bool, true, false, some, ◌++◌, arith, inl, inr,
  Bool-cases, replicate, if_true, if_false,
}
use sd.Store.Server.{Forward, Server, calls, max_retries, forward}

pub calls-fail :
    (retries : ℕ) (answers : ℕ → Bool)
    → ((j : ℕ) → j < retries → answers j ≡ false)
    → calls retries answers ≡ retries
unfolding calls
calls-fail zero answers h = refl
calls-fail (suc retries) answers h =
    if_false _ _ (h 0 (omega arith))
    ∙ ap suc (calls-fail retries (λ n. answers (suc n)) (λ j b. h (suc j) (omega arith)))

pub calls-succeed :
    (retries j : ℕ) (answers : ℕ → Bool)
    → j < retries
    → answers j ≡ true
    → (i : ℕ) × (i ≤ j) × (answers i ≡ true) × (calls retries answers ≡ suc i)
unfolding calls
calls-succeed zero j answers b h = absurd (omega arith)
calls-succeed (suc retries) zero answers b h = (0, omega arith, h, if_true _ _ h)
calls-succeed (suc retries) (suc j) answers b h =
    let (i, le, a, e) = calls-succeed retries j (λ n. answers (suc n)) (omega arith) h in
    elim (Bool-cases (answers 0)) [
      | inl t ↦ (0, omega arith, t, if_true _ _ t)
      | inr t ↦ (suc i, omega arith, a, if_false _ _ t ∙ ap suc e)
    ]

-- A put or a delete reaches the next server, if it would answer one of the first ten calls with
-- success: the calls that are made are the same request again, and the last of them, which is none
-- after the one that was given, succeeds.
pub forward_reaches :
    (answers : ℕ → Bool) (j : ℕ) (call : Forward) (s : Server)
    → j < max_retries
    → answers j ≡ true
    → (i : ℕ) × (i ≤ j)
      × (answers i ≡ true)
      × ((forward (some answers) call s).forwarded ≡ s.forwarded ++ replicate (suc i) call)
unfolding forward
forward_reaches answers j call s b h =
    let (i, le, a, e) = calls-succeed max_retries j answers b h in
    (i, le, a, ap (λ n. s.forwarded ++ replicate n call) e)
