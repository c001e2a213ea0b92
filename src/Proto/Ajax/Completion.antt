-- ===== src/Proto/Ajax/Completion.antt =====
-- A request reports its outcome once.
use sd.Common.{
  if_true, if_false, ℕ, ◌+◌, ◌≡◌, refl, ap, sym, ◌∙◌, Bool, true, false, not, ◌&&◌, List, [], ◌∷◌,
  ok, arith, eqb, ltb, if◌then◌else◌, Bool-cases, inl, inr, has, nat_eq,
}
use sd.Proto.Ajax.{Options, Transport, Request, respond_to_ready_state, on_state_change, deliver}
use sd.Proto.Ajax.Steps.{outcomes, JsonHandled, Adds-respond, Adds-respond_complete}

-- One outcome is due if the ready state 4 is among the states.
abbrev pub due : List ℕ → ℕ
due states = if has 4 states then 1 else 0

due-four : (n : ℕ) (ns : List ℕ) → eqb n 4 ≡ true → due (n ∷ ns) ≡ 1
due-four n ns t = rw t refl

due-other : (n : ℕ) (ns : List ℕ) → eqb n 4 ≡ false → due (n ∷ ns) ≡ due ns
due-other n ns t = rw t refl

module _ {ℓ} {E : Type ℓ} (options : Options E) where
  -- What the browser's call for one state does to the request.
  abbrev step : Transport E → ℕ → Request → Request
  step transport n r = if r.listening then (on_state_change options transport n r).0 else r

  step-responds :
      (transport : Transport E) (n : ℕ) (r : Request)
      → r.listening ≡ true
      → (ltb 1 n && not (eqb n 4 && r.complete)) ≡ true
      → step transport n r ≡ (respond_to_ready_state options transport n r).0
  unfolding on_state_change
  step-responds transport n r l t =
      if_true (on_state_change options transport n r).0 r l
      ∙ ap (λ s. s.0) (if_true (respond_to_ready_state options transport n r) (r, ok tt) t)

  step-ignores :
      (transport : Transport E) (n : ℕ) (r : Request)
      → (ltb 1 n && not (eqb n 4 && r.complete)) ≡ false
      → step transport n r ≡ r
  unfolding on_state_change
  step-ignores transport n r t =
      ap (λ s. if r.listening then s.0 else r)
        (if_false (respond_to_ready_state options transport n r) (r, ok tt) t)
      ∙ either r.listening
    where
      either : (b : Bool) → (if b then r else r) ≡ r
      either true = refl
      either false = refl

  -- A complete request reports no outcome.
  step-complete :
      (transport : Transport E) (n : ℕ) (r : Request)
      → r.complete ≡ true
      → ((step transport n r).complete ≡ true)
        × (outcomes (step transport n r).reports ≡ outcomes r.reports)
  step-complete transport n r h = elim (Bool-cases r.listening) [
    | inr l ↦
        let e = if_false (on_state_change options transport n r).0 r l in
        (ap (λ s. s.complete) e ∙ h, ap (λ s. outcomes s.reports) e)
    | inl l ↦ elim (Bool-cases (ltb 1 n && not (eqb n 4 && r.complete))) [
      | inr t ↦
          let e = step-ignores transport n r t in
          (ap (λ s. s.complete) e ∙ h, ap (λ s. outcomes s.reports) e)
      | inl t ↦
          let e = step-responds transport n r l t in
          let a = Adds-respond options transport n r (ground arith) in
          (ap (λ s. s.complete) e ∙ a.0 ∙ h, ap (λ s. outcomes s.reports) e ∙ omega (arith, a.1))
    ]
  ]

  deliver-complete :
      (transport : Transport E) (ns : List ℕ) (r : Request)
      → r.complete ≡ true
      → outcomes (deliver options transport ns r).reports ≡ outcomes r.reports
  unfolding deliver
  deliver-complete transport [] r h = refl
  deliver-complete transport (n ∷ ns) r h =
      let c = step-complete transport n r h in
      deliver-complete transport ns (step transport n r) c.0 ∙ c.1

  -- A request that listens and is not complete reports its outcome once if the browser comes to
  -- the ready state 4, however often and in whatever order it comes to that and other states;
  -- without that state it does not report it. The JSON of the response is good or not there, or
  -- `onException` does not throw; apart from that, the callbacks may throw.
  pub deliver-once :
      (transport : Transport E) (states : List ℕ) (r : Request)
      → JsonHandled options transport
      → r.complete ≡ false
      → r.listening ≡ true
      → outcomes (deliver options transport states r).reports ≡ outcomes r.reports + due states
  unfolding deliver
  deliver-once transport [] r j h l = omega arith
  deliver-once transport (n ∷ ns) r j h l = elim (Bool-cases (eqb n 4)) [
    | inl t ↦
        let e = step-responds transport n r l (ground arith) in
        let a = Adds-respond_complete options transport n r j t in
        deliver-complete transport ns (step transport n r) (ap (λ s. s.complete) e ∙ a.0)
        ∙ ap (λ s. outcomes s.reports) e
        ∙ a.1
        ∙ ap (outcomes r.reports +◌) (sym (due-four n ns t))
    | inr t ↦ elim (Bool-cases (ltb 1 n)) [
      | inl u ↦
          let e = step-responds transport n r l (ground arith) in
          let a = Adds-respond options transport n r t in
          deliver-once transport ns (step transport n r) j (ap (λ s. s.complete) e ∙ a.0 ∙ h)
            (ap (λ s. s.listening) e ∙ a.2 h ∙ l)
          ∙ ap (λ k. k + due ns) (ap (λ s. outcomes s.reports) e ∙ a.1 ∙ omega arith)
          ∙ ap (outcomes r.reports +◌) (sym (due-other n ns t))
      | inr u ↦
          let e = step-ignores transport n r (ground arith) in
          ap (λ s. outcomes (deliver options transport ns s).reports) e
          ∙ deliver-once transport ns r j h l
          ∙ ap (outcomes r.reports +◌) (sym (due-other n ns t))
    ]
  ]
