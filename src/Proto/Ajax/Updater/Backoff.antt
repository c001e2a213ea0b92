-- ===== src/Proto/Ajax/Updater/Backoff.antt =====
-- The requests of a periodical updater, and what an updater puts into the page.
use native.Mathlib.Nat.{mul_assoc, pow-succ', pow-zero}
use sd.Common.{
  ℕ, zero, suc, ◌+◌, ◌*◌, ◌^◌, true, false, Option, none, some, List, [], ◌∷◌, eqb, text_eq, ◌≡◌,
  refl, ap, sym, ◌∙◌, arith, beq_refl,
}
use sd.Proto.Text.{Text}
use sd.Proto.Ajax.Updater.{
  Receiver, Receivers, Insertion, update_content, Periodical, Tick, fires, responds, tick, ticks,
  update_complete, on_timer_event,
}

-- A response that has come, and then the timer.
abbrev pub rounds : ℕ → Text → List Tick
rounds zero s = []
rounds (suc n) s = responds s ∷ (fires ∷ rounds n s)

-- A state in which the text `s` came last and a request is under way.
abbrev waiting : Text → ℕ → ℕ → ℕ → Option ℕ → ℕ → ℕ → Periodical
waiting s frequency decay option_decay timer requests finished = record {
  frequency = frequency;
  decay = decay;
  option_decay = option_decay;
  last_text = some s;
  timer = timer;
  listening = true;
  requests = requests;
  finished = finished;
}

round_lem :
    (s : Text) (f d o : ℕ) (t : Option ℕ) (r c : ℕ)
    → eqb o 0 ≡ false
    → tick fires (tick (responds s) (waiting s f d o t r c)) ≡ waiting s f (d * o) o none (r + 1) c
unfolding tick update_complete on_timer_event
round_lem s f d o t r c z = simp (z, beq_refl s)

power_suc : (d o n : ℕ) → d * o * o ^ n ≡ d * o ^ suc n
power_suc d o n = mul_assoc d o (o ^ n) ∙ ap (d *◌) (sym (pow-succ' o n))

power_zero : (d o : ℕ) → d ≡ d * o ^ 0
power_zero d o = let e : o ^ 0 ≡ 1 = pow-zero o in rw e (omega arith)

rounds_lem :
    (n : ℕ) (s : Text) (f d o : ℕ) (t : Option ℕ) (r c : ℕ)
    → eqb o 0 ≡ false
    → ((ticks (rounds n s) (waiting s f d o t r c)).decay ≡ d * o ^ n)
      × ((ticks (rounds n s) (waiting s f d o t r c)).requests ≡ r + n)
unfolding ticks
rounds_lem zero s f d o t r c z = (power_zero d o, omega arith)
rounds_lem (suc n) s f d o t r c z =
    let e = ap (ticks (rounds n s)) (round_lem s f d o t r c z) in
    let ih = rounds_lem n s f (d * o) o none (r + 1) c z in
    (ap (λ p. p.decay) e ∙ ih.0 ∙ power_suc d o n, ap (λ p. p.requests) e ∙ ih.1 ∙ omega arith)

-- After `n` more responses of the text that came last, with a decay `d` above 0 in the options, the
-- decay is `d ^ n` times what it was, and `n` more requests have been sent.
pub ticks-rounds :
    (n : ℕ) (s : Text) (p : Periodical)
    → p.listening ≡ true
    → p.last_text ≡ some s
    → eqb p.option_decay 0 ≡ false
    → ((ticks (rounds n s) p).decay ≡ p.decay * p.option_decay ^ n)
      × ((ticks (rounds n s) p).requests ≡ p.requests + n)
ticks-rounds n s p l t d =
    let e : p ≡ waiting s p.frequency p.decay p.option_decay p.timer p.requests p.finished =
      ap
        (λ b. record {
          frequency = p.frequency;
          decay = p.decay;
          option_decay = p.option_decay;
          last_text = p.last_text;
          timer = p.timer;
          listening = b;
          requests = p.requests;
          finished = p.finished;
        })
        l
      ∙ ap
          (λ o. record {
            frequency = p.frequency;
            decay = p.decay;
            option_decay = p.option_decay;
            last_text = o;
            timer = p.timer;
            listening = true;
            requests = p.requests;
            finished = p.finished;
          })
          t in
    let q = rounds_lem n s p.frequency p.decay p.option_decay p.timer p.requests p.finished d in
    (
      ap (λ x. (ticks (rounds n s) x).decay) e ∙ q.0,
      ap (λ x. (ticks (rounds n s) x).requests) e ∙ q.1,
    )

-- Responses that differ only in what `stripScripts` takes out do the same to the page, unless the
-- option `evalScripts` is set.
pub update_content-scripts :
    {I : Type 0} (strip_scripts : Text → Text) (find : Receiver I → Option I)
    (insertion : Insertion) (container : Receivers I) (status : ℕ) (s t : Text)
    → strip_scripts s ≡ strip_scripts t
    → update_content strip_scripts find false insertion container status s
      ≡ update_content strip_scripts find false insertion container status t
unfolding update_content
update_content-scripts strip_scripts find insertion container status s t q = rw q refl
