-- ===== src/Proto/Ajax/Steps.antt =====
-- How many outcomes each step of a request reports.
use sd.Common.{
  ℕ, ◌+◌, ◌≡◌, ◌≢◌, ◌⊎◌, ◌||◌, Outcome, refl, ◌∙◌, Bool, true, false, not, ◌&&◌, none, List, [],
  ◌∷◌, ◌++◌, ok, err, arith, eqb, ltb, if◌then◌else◌, Bool-cases, inl, inr, nat_eq,
}
use sd.Proto.Text.{Text, codes}
use sd.Proto.Numbers.{to_string}
use sd.Proto.Ajax.{
  Callback, missing, returns, throws, Options, Transport, Report, outcome, evaluation, called,
  dispatched, Request, report, Step, after, perform, dispatch_exception, caught, chosen,
  report_outcome, may_eval, eval_response, complete_request, report_state, respond_to_ready_state,
  new_response, use_response, success, get_status,
}

-- How often the outcome has been reported.
abbrev pub outcomes : List Report → ℕ
outcomes [] = 0
outcomes (outcome name ∷ rs) = 1 + outcomes rs
outcomes (evaluation ∷ rs) = outcomes rs
outcomes (called name ∷ rs) = outcomes rs
outcomes (dispatched name ∷ rs) = outcomes rs

outcomes-append :
    (rs : List Report) (x : Report) → outcomes (rs ++ x ∷ []) ≡ outcomes rs + outcomes (x ∷ [])
outcomes-append [] x = omega arith
outcomes-append (outcome n ∷ rs) x = omega (arith, outcomes-append rs x)
outcomes-append (evaluation ∷ rs) x = outcomes-append rs x
outcomes-append (called n ∷ rs) x = outcomes-append rs x
outcomes-append (dispatched n ∷ rs) x = outcomes-append rs x

-- A step that reports `k` outcomes more and leaves the flag of completion; before completion it
-- leaves the request listening as it was.
abbrev pub Adds {ℓ} : {E : Type ℓ} → ℕ → Request → Step E → Type 0
Adds k r s =
    (s.0.complete ≡ r.complete)
    × (outcomes s.0.reports ≡ outcomes r.reports + k)
    × (r.complete ≡ false → s.0.listening ≡ r.listening)

module _ {ℓ} {E : Type ℓ} (options : Options E) where
  Adds-perform : (name : Text) (c : Callback E) (r : Request) → Adds 0 r (perform options name c r)
  Adds-perform name missing r = (refl, omega arith, λ h. refl)
  Adds-perform name returns r = (refl, outcomes-append r.reports _, λ h. refl)
  Adds-perform name (throws e) r = (refl, outcomes-append r.reports _, λ h. refl)

  Adds-dispatch :
      (name : Text) (r : Request) (s : Step E)
      → Adds 0 r s
      → Adds 0 r (after s λ r'. (report (dispatched name) r', ok tt))
  Adds-dispatch name r (r', ok u) a =
      (a.0, omega (arith, outcomes-append r'.reports (dispatched name), a.1), a.2)
  Adds-dispatch name r (r', err e) a = a

  Adds-caught : (k : ℕ) (r : Request) (s : Step E) → Adds k r s → Adds k r (caught options s)
  unfolding caught dispatch_exception
  Adds-caught k r (r', ok u) a = a
  Adds-caught k r (r', err e) a =
      let b =
        Adds-dispatch (codes "onException") r' _
          (Adds-perform (codes "onException") (options.callback (codes "onException")) r') in
      (b.0 ∙ a.0, omega (arith, a.1, b.1), λ h. b.2 (a.0 ∙ h) ∙ a.2 h)

  Adds-chosen :
      (name : Text) (c : Callback E) (k : Request → Step E) (r : Request)
      → Adds 1 r (k r)
      → Adds 1 r (chosen options name c k r)
  Adds-chosen name missing k r a = a
  Adds-chosen name returns k r a = (refl, outcomes-append r.reports _, λ h. refl)
  Adds-chosen name (throws e) k r a = (refl, outcomes-append r.reports _, λ h. refl)

  Adds-report_outcome : (status : ℕ) (r : Request) → Adds 1 r (report_outcome options status r)
  unfolding report_outcome
  Adds-report_outcome status r =
      let on_status = codes "on" ++ to_string 10 status in
      let on_result = if success status then codes "onSuccess" else codes "onFailure" in
      let none_chosen : Request → Step E = λ r'. (report (outcome none) r', ok tt) in
      Adds-chosen on_status (options.callback on_status)
        (chosen options on_result (options.callback on_result) none_chosen) r
        (Adds-chosen on_result (options.callback on_result) none_chosen r
          (refl, outcomes-append r.reports (outcome none), λ h. refl))

  Adds-eval_response :
      (transport : Transport E) (r : Request) → Adds 0 r (eval_response options transport r)
  unfolding eval_response
  Adds-eval_response transport r =
      Adds-caught 0 r (report evaluation r, transport.evaluated)
        (refl, outcomes-append r.reports _, λ h. refl)

  Adds-report_state : (n : ℕ) (r : Request) → Adds 0 r (report_state options n r)
  unfolding report_state
  Adds-report_state n r = Adds-dispatch _ r _ (Adds-perform _ _ r)

  -- What comes after a step that reports `k` outcomes may report none.
  Adds-after :
      (k : ℕ) (r : Request) (s : Step E) (next : Request → Step E)
      → Adds k r s
      → ((r' : Request) → r'.complete ≡ r.complete → Adds 0 r' (next r'))
      → Adds k r (after s next)
  Adds-after k r (r', ok u) next a b =
      let c = b r' a.0 in (c.0 ∙ a.0, omega (arith, a.1, c.1), λ h. c.2 (a.0 ∙ h) ∙ a.2 h)
  Adds-after k r (r', err e) next a b = a

  Adds-complete_request :
      (transport : Transport E) (r : Request)
      → Adds 1 (record r { complete = true }) (complete_request options transport r)
  unfolding complete_request
  Adds-complete_request transport r =
      let done : Request = record r { complete = true } in
      let status = get_status transport.status in
      Adds-after 1 done (caught options (report_outcome options status done)) _
        (Adds-caught 1 done (report_outcome options status done) (Adds-report_outcome status done))
        (λ r' c. elim (Bool-cases (may_eval options options.eval_js transport)) [
          | inl t ↦ simp t (Adds-eval_response transport r')
          | inr t ↦ simp t (refl, omega arith, λ h. refl)
        ])

  -- The end of `respondToReadyState`.
  Adds-rest :
      (k n : ℕ) (r : Request) (s : Step E)
      → Adds k r s
      → (eqb n 4 ≡ true → r.complete ≡ true)
      → Adds k r (
          after s λ r'.
            after
              (caught options (report_state options n r'))
              λ r''. (if eqb n 4 then record r'' { listening = false } else r'', ok tt))
  Adds-rest k n r s a q = Adds-after k r s _ a λ r' c.
      Adds-after 0 r' (caught options (report_state options n r')) _
        (Adds-caught 0 r' (report_state options n r') (Adds-report_state n r'))
        λ r'' d. elim (Bool-cases (eqb n 4)) [
          | inl t ↦
              let u : r''.complete ≡ true = d ∙ c ∙ q t in
              rw t (refl, omega arith, λ h. absurd (cc))
          | inr t ↦ rw t (refl, omega arith, λ h. refl)
        ]

  Adds-use_response :
      (transport : Transport E) (n : ℕ) (r : Request)
      → (eqb n 4 ≡ false → Adds 0 r (use_response options transport n r))
        × (eqb n 4 ≡ true
            → Adds 1 (record r { complete = true }) (use_response options transport n r))
  unfolding use_response
  Adds-use_response transport n r =
      let first = if eqb n 4 then complete_request options transport r else (r, ok tt) in
      (
        λ t. Adds-rest 0 n r first (rw t (refl, omega arith, λ h. refl)) (λ u. absurd (cc)),
        λ t.
            Adds-rest 1 n (record r { complete = true }) first
              (rw t (Adds-complete_request transport r)) (λ u. refl),
      )

  Adds-caught_if :
      (b : Bool) (r : Request) (o : Outcome E (Unit {0}))
      → Adds 0 r (if b then caught options (r, o) else (r, ok tt))
  Adds-caught_if true r o = Adds-caught 0 r (r, o) (refl, omega arith, λ h. refl)
  Adds-caught_if false r o = (refl, omega arith, λ h. refl)

  Adds-new_response :
      (transport : Transport E) (n : ℕ) (r : Request)
      → Adds 0 r (new_response options transport n r)
  unfolding new_response
  Adds-new_response transport n r =
      Adds-after 0 r _ _
        (Adds-caught_if (ltb 2 n && not transport.internet_explorer || eqb n 4) r
          transport.header_json)
        (λ r' c. Adds-caught_if (eqb n 4) r' transport.response_json)

  dispatch_exception-returns :
      (e : E) (r : Request)
      → ((e : E) → options.callback (codes "onException") ≢ throws e)
      → (dispatch_exception options e r).1 ≡ ok tt
  unfolding dispatch_exception
  dispatch_exception-returns e r quiet = performed (options.callback (codes "onException")) quiet
    where
      performed :
          (c : Callback E)
          → ((e : E) → c ≢ throws e)
          → (after
              (perform options (codes "onException") c r)
              λ r'. (report (dispatched (codes "onException")) r', ok tt)).1
            ≡ ok tt
      performed missing q = refl
      performed returns q = refl
      performed (throws e) q = absurd (q e refl)

  -- Making the response throws nothing if one of these holds.
  caught_if-returns :
      (b : Bool) (r : Request) (o : Outcome E (Unit {0}))
      → (o ≡ ok tt) ⊎ ((e : E) → options.callback (codes "onException") ≢ throws e)
      → (if b then caught options (r, o) else (r, ok tt)).1 ≡ ok tt
  unfolding caught
  caught_if-returns false r o h = refl
  caught_if-returns true r (ok u) h = refl
  caught_if-returns true r (err e) (inl q) = absurd (cc)
  caught_if-returns true r (err e) (inr quiet) = dispatch_exception-returns e r quiet

  after-returns :
      (s : Step E) (next : Request → Step E)
      → s.1 ≡ ok tt
      → ((r : Request) → (next r).1 ≡ ok tt)
      → (after s next).1 ≡ ok tt
  after-returns (r, ok u) next q h = h r
  after-returns (r, err e) next q h = absurd (cc)

  -- The JSON of the responses is good, or `onException` does not throw.
  abbrev pub JsonHandled : Transport E → Type ℓ
  JsonHandled transport =
      ((transport.header_json ≡ ok tt) × (transport.response_json ≡ ok tt))
      ⊎ ((e : E) → options.callback (codes "onException") ≢ throws e)

  new_response-returns :
      (transport : Transport E) (n : ℕ) (r : Request)
      → JsonHandled transport
      → (new_response options transport n r).1 ≡ ok tt
  unfolding new_response
  new_response-returns transport n r h =
      after-returns _ _
        (caught_if-returns (ltb 2 n && not transport.internet_explorer || eqb n 4) r
          transport.header_json (header h))
        (λ r'. caught_if-returns (eqb n 4) r' transport.response_json (text h))
    where
      header :
          JsonHandled transport
          → (transport.header_json ≡ ok tt)
            ⊎ ((e : E) → options.callback (codes "onException") ≢ throws e)
      header (inl q) = inl q.0
      header (inr quiet) = inr quiet

      text :
          JsonHandled transport
          → (transport.response_json ≡ ok tt)
            ⊎ ((e : E) → options.callback (codes "onException") ≢ throws e)
      text (inl q) = inl q.1
      text (inr quiet) = inr quiet

  -- A step that returns, before one that reports an outcome.
  Adds-before :
      (r : Request) (s : Step E) (next : Request → Step E)
      → Adds 0 r s
      → s.1 ≡ ok tt
      → ((r' : Request) → Adds 1 (record r' { complete = true }) (next r'))
      → Adds 1 (record r { complete = true }) (after s next)
  Adds-before r (r', ok u) next a q b =
      let c = b r' in (c.0, omega (arith, a.1, c.1), λ h. absurd (cc))
  Adds-before r (r', err e) next a q b = absurd (cc)

  pub Adds-respond :
      (transport : Transport E) (n : ℕ) (r : Request)
      → eqb n 4 ≡ false
      → Adds 0 r (respond_to_ready_state options transport n r)
  unfolding respond_to_ready_state
  Adds-respond transport n r t =
      Adds-after 0 r (new_response options transport n r) _ (Adds-new_response transport n r)
        (λ r' c. (Adds-use_response transport n r').0 t)

  pub Adds-respond_complete :
      (transport : Transport E) (n : ℕ) (r : Request)
      → JsonHandled transport
      → eqb n 4 ≡ true
      → Adds 1 (record r { complete = true }) (respond_to_ready_state options transport n r)
  unfolding respond_to_ready_state
  Adds-respond_complete transport n r j t =
      Adds-before r (new_response options transport n r) _ (Adds-new_response transport n r)
        (new_response-returns transport n r j) (λ r'. (Adds-use_response transport n r').1 t)
