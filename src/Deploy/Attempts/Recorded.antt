-- ===== src/Deploy/Attempts/Recorded.antt =====
-- What the attempts of a command step record of it.
use shado_cloud.Common.{
  ltb, ltb→lt, choose, insert, ℕ, zero, suc, ◌+◌, ◌<◌, String, ◌≡◌, refl, ◌∙◌, subst, ◌⊎◌, inl, inr,
  Bool, true, Option, none, some, List, arith,
}
use shado_cloud.Deploy.State.{StepStatus, StepState, StepConfig}
use shado_cloud.Deploy.Attempts.{
  Attempt, Run, run_step, begin_attempt, attempt_succeeded, next_attempt, conclude_attempt,
  attempt_loop,
}
use shado_cloud.Deploy.Attempts.Retries.{
  begin_attempt-Same, run_step_steps, next_attempt_steps, attempts_exhausted_fails,
}

-- A step that is over and did not fail.
abbrev pub IsOver : StepState → Type 0
IsOver st = (st.status ≡ StepStatus.success) ⊎ (st.status ≡ StepStatus.skipped)

-- The completed steps are the old ones and this one, which is over.
abbrev pub Extends : String → List (String × StepState) → Run → Type 0
Extends step old r = (st : StepState) × IsOver st × (r.1.completed_steps ≡ insert step st old)

abbrev pub Ended : String → List (String × StepState) → Run → Type 0
Ended step old r =
    (r.0.cancelled ≡ true) ⊎ (r.1.current_step.status ≡ StepStatus.failed) ⊎ Extends step old r

pub attempt_succeeded-Extends :
    (cfg : StepConfig) (r : Run) → Extends cfg.step r.1.completed_steps (attempt_succeeded cfg r)
unfolding attempt_succeeded
attempt_succeeded-Extends cfg (s, d) =
    (record (d.current_step) { status = StepStatus.success }, inl refl, refl)

conclude_attempt-Ended :
    (n : ℕ) (cfg : StepConfig) (c : Bool) (q : Run × Option String) (go_on : Run → Run)
    → ((r : Run)
        → n < 3
        → r.1.completed_steps ≡ q.0.1.completed_steps
        → Ended cfg.step q.0.1.completed_steps (go_on r))
    → Ended cfg.step q.0.1.completed_steps (conclude_attempt n cfg c q go_on)
unfolding conclude_attempt
conclude_attempt-Ended n cfg c (r, none) go_on h = inr (inr (attempt_succeeded-Extends cfg r))
conclude_attempt-Ended n cfg c (r, some e) go_on h =
    let P : Run → Type 0 = Ended cfg.step r.1.completed_steps in
    let r' = next_attempt cfg n e c r in
    choose P (ltb n 3) _ _
      (λ more.
        choose P r'.0.cancelled _ _ (λ stop. inl stop)
          (λ _. h r' (ltb→lt n 3 more) (next_attempt_steps cfg n e c r)))
      (λ _. inr (inl (attempts_exhausted_fails cfg e r)))

pub attempt_loop-Ended :
    (left n : ℕ) (cfg : StepConfig) (att : ℕ → Attempt) (r : Run)
    → 0 < left
    → left + n ≡ 4
    → Ended cfg.step r.1.completed_steps (attempt_loop left n cfg att r)
unfolding attempt_loop
attempt_loop-Ended zero n cfg att r pos h = absurd (omega arith)
attempt_loop-Ended (suc left) n cfg att r pos h =
    let q = run_step cfg (att n) (begin_attempt cfg n r) in
    let same : q.0.1.completed_steps ≡ r.1.completed_steps =
      run_step_steps cfg (att n) (begin_attempt cfg n r) ∙ (begin_attempt-Same cfg n r).1 in
    subst (λ m. Ended cfg.step m (attempt_loop (suc left) n cfg att r)) same
      (conclude_attempt-Ended n cfg (att n).cancel_in_wait q (attempt_loop left (suc n) cfg att)
        (λ r' more eq.
          subst (λ m. Ended cfg.step m (attempt_loop left (suc n) cfg att r')) eq
            (attempt_loop-Ended left (suc n) cfg att r' (omega arith) (omega arith))))
