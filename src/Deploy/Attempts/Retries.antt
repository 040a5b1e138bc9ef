-- ===== src/Deploy/Attempts/Retries.antt =====
-- The attempts of one command step.
use shado_cloud.Common.{
  ltb, lt→ltb, Bool-cases, Option-cases, ℕ, suc, ◌<◌, String, ◌≡◌, refl, sym, ap, ◌∙◌, ◌↔◌, ◌⊎◌,
  inl, inr, Bool, false, Option, none, some, List, [], ◌∷◌, arith,
}
use shado_cloud.Deploy.State.{StepStatus, Line, StepConfig}
use shado_cloud.Deploy.Store.{cancel_if}
use shado_cloud.Deploy.Attempts.{
  Attempt, step_error, Run, log_line, log_lines, step_lines, run_step, begin_attempt,
  attempt_succeeded, attempts_exhausted, next_attempt, conclude_attempt, attempt_loop,
}

-- What an attempt leaves alone until it is recorded.
abbrev pub Same : Run → Run → Type 0
Same r r' = (r'.0.cancelled ≡ r.0.cancelled) × (r'.1.completed_steps ≡ r.1.completed_steps)

pub log_line-Same : (step : String) (l : Line) (r : Run) → Same r (log_line step l r)
unfolding log_line
log_line-Same step l (s, d) = (refl, refl)

pub log_lines-Same : (step : String) (ls : List Line) (r : Run) → Same r (log_lines step ls r)
unfolding log_lines
log_lines-Same step [] r = (refl, refl)
log_lines-Same step (l ∷ ls) r =
    let (a, b) = log_lines-Same step ls (log_line step l r) in
    let (c, d) = log_line-Same step l r in (a ∙ c, b ∙ d)

pub begin_attempt-Same : (cfg : StepConfig) (n : ℕ) (r : Run) → Same r (begin_attempt cfg n r)
unfolding begin_attempt
begin_attempt-Same cfg n (s, d) = elim (Bool-cases (ltb 1 n)) [
  | inl e ↦ rw e (refl, refl)
  | inr e ↦ rw e (refl, refl)
]

pub run_step_steps :
    (cfg : StepConfig) (att : Attempt) (r : Run)
    → (run_step cfg att r).0.1.completed_steps ≡ r.1.completed_steps
unfolding run_step
run_step_steps cfg att r = (log_lines-Same cfg.step (step_lines cfg att) r).1

pub run_step_result :
    (cfg : StepConfig) (att : Attempt) (r : Run)
    → (run_step cfg att r).1 ≡ step_error att.process_end
unfolding run_step
run_step_result cfg att r = refl

run_step_cancelled :
    (cfg : StepConfig) (att : Attempt) (r : Run)
    → att.cancel_in_run ≡ false
    → (run_step cfg att r).0.0.cancelled ≡ r.0.cancelled
unfolding run_step cancel_if
run_step_cancelled cfg att r h = rw h (log_lines-Same cfg.step (step_lines cfg att) r).0

pub next_attempt_steps :
    (cfg : StepConfig) (n : ℕ) (e : String) (c : Bool) (r : Run)
    → (next_attempt cfg n e c r).1.completed_steps ≡ r.1.completed_steps
unfolding next_attempt
next_attempt_steps cfg n e c (s, d) = refl

next_attempt_cancelled :
    (cfg : StepConfig) (n : ℕ) (e : String) (r : Run)
    → (next_attempt cfg n e false r).0.cancelled ≡ r.0.cancelled
unfolding next_attempt cancel_if
next_attempt_cancelled cfg n e (s, d) = refl

pub attempt_succeeded_ok :
    (cfg : StepConfig) (r : Run)
    → (attempt_succeeded cfg r).1.current_step.status ≡ StepStatus.success
unfolding attempt_succeeded
attempt_succeeded_ok cfg (s, d) = refl

pub attempts_exhausted_fails :
    (cfg : StepConfig) (e : String) (r : Run)
    → (attempts_exhausted cfg e r).1.current_step.status ≡ StepStatus.failed
unfolding attempts_exhausted
attempts_exhausted_fails cfg e (s, d) = refl

-- No cancel request arrives during the attempts.
abbrev pub IsUndisturbed : (ℕ → Attempt) → Type 0
IsUndisturbed att = (n : ℕ) → ((att n).cancel_in_run ≡ false) × ((att n).cancel_in_wait ≡ false)

abbrev pub Succeeds : Attempt → Type 0
Succeeds a = step_error a.process_end ≡ none

some_eq : {A : Type 0} {a b : A} → some a ≡ some b → a ≡ b
some_eq h = cc

pub conclude_ok :
    (n : ℕ) (cfg : StepConfig) (c : Bool) (q : Run × Option String) (go_on : Run → Run)
    → q.1 ≡ none
    → conclude_attempt n cfg c q go_on ≡ attempt_succeeded cfg q.0
unfolding conclude_attempt
conclude_ok n cfg c (r, none) go_on h = refl
conclude_ok n cfg c (r, some e) go_on h = cc

conclude_retry :
    (n : ℕ) (cfg : StepConfig) (c : Bool) (q : Run × Option String) (go_on : Run → Run) (e : String)
    → c ≡ false
    → q.1 ≡ some e
    → n < 3
    → q.0.0.cancelled ≡ false
    → conclude_attempt n cfg c q go_on ≡ go_on (next_attempt cfg n e false q.0)
unfolding conclude_attempt
conclude_retry n cfg c (r, none) go_on e calm h lt quiet = cc
conclude_retry n cfg c (r, some e') go_on e calm h lt quiet =
    rw (calm, lt→ltb n 3 lt, some_eq h, next_attempt_cancelled cfg n e r ∙ quiet)

conclude_last :
    (cfg : StepConfig) (c : Bool) (q : Run × Option String) (go_on : Run → Run) (e : String)
    → q.1 ≡ some e
    → conclude_attempt 3 cfg c q go_on ≡ attempts_exhausted cfg e q.0
unfolding conclude_attempt
conclude_last cfg c (r, none) go_on e h = cc
conclude_last cfg c (r, some e') go_on e h = ap (λ x. attempts_exhausted cfg x r) (some_eq h)

-- One round, by the result of its process.
attempt_loop_ok :
    (left n : ℕ) (cfg : StepConfig) (att : ℕ → Attempt) (r : Run)
    → Succeeds (att n)
    → (attempt_loop (suc left) n cfg att r).1.current_step.status ≡ StepStatus.success
unfolding attempt_loop
attempt_loop_ok left n cfg att r h =
    rw
      (conclude_ok n cfg (att n).cancel_in_wait (run_step cfg (att n) (begin_attempt cfg n r))
        (attempt_loop left (suc n) cfg att)
        (run_step_result cfg (att n) (begin_attempt cfg n r) ∙ h))
      (attempt_succeeded_ok cfg (run_step cfg (att n) (begin_attempt cfg n r)).0)

pub attempt_loop_retry :
    (left n : ℕ) (cfg : StepConfig) (att : ℕ → Attempt) (r : Run) {e : String}
    → IsUndisturbed att
    → r.0.cancelled ≡ false
    → n < 3
    → step_error (att n).process_end ≡ some e
    → (r' : Run) × (r'.0.cancelled ≡ false)
      × (r'.1.completed_steps ≡ r.1.completed_steps)
      × (attempt_loop (suc left) n cfg att r ≡ attempt_loop left (suc n) cfg att r')
unfolding attempt_loop
attempt_loop_retry left n cfg att r {e} u c h f =
    let q = run_step cfg (att n) (begin_attempt cfg n r) in
    let quiet : q.0.0.cancelled ≡ false =
      run_step_cancelled cfg (att n) (begin_attempt cfg n r) (u n).0
      ∙ (begin_attempt-Same cfg n r).0
      ∙ c in
    (
      next_attempt cfg n e false q.0,
      next_attempt_cancelled cfg n e q.0 ∙ quiet,
      next_attempt_steps cfg n e false q.0
          ∙ run_step_steps cfg (att n) (begin_attempt cfg n r)
          ∙ (begin_attempt-Same cfg n r).1,
      conclude_retry n cfg (att n).cancel_in_wait q (attempt_loop left (suc n) cfg att) e (u n).1
          (run_step_result cfg (att n) (begin_attempt cfg n r) ∙ f) h quiet,
    )

pub attempt_loop_exhausted :
    (left : ℕ) (cfg : StepConfig) (att : ℕ → Attempt) (r : Run) {e : String}
    → step_error (att 3).process_end ≡ some e
    → attempt_loop (suc left) 3 cfg att r
      ≡ attempts_exhausted cfg e (run_step cfg (att 3) (begin_attempt cfg 3 r)).0
unfolding attempt_loop
attempt_loop_exhausted left cfg att r {e} f =
    conclude_last cfg (att 3).cancel_in_wait (run_step cfg (att 3) (begin_attempt cfg 3 r))
      (attempt_loop left 4 cfg att) e (run_step_result cfg (att 3) (begin_attempt cfg 3 r) ∙ f)

attempt_loop_last :
    (left : ℕ) (cfg : StepConfig) (att : ℕ → Attempt) (r : Run) {e : String}
    → step_error (att 3).process_end ≡ some e
    → (attempt_loop (suc left) 3 cfg att r).1.current_step.status ≡ StepStatus.failed
attempt_loop_last left cfg att r {e} f =
    rw (attempt_loop_exhausted left cfg att r f)
      (attempts_exhausted_fails cfg e (run_step cfg (att 3) (begin_attempt cfg 3 r)).0)

absurd_status : StepStatus.success ≡ StepStatus.failed → ⊥
absurd_status h = cc

no_success :
    {a b c : Option String} {e f g : String}
    → a ≡ some e
    → b ≡ some f
    → c ≡ some g
    → ¬ ((a ≡ none) ⊎ (b ≡ none) ⊎ (c ≡ none))
no_success p q s h = ground arith

-- With no cancel request, a command step ends successful exactly when one of its first three attempts
-- succeeds, and otherwise it ends failed.
pub attempt_loop_iff :
    (cfg : StepConfig) (att : ℕ → Attempt) (r : Run)
    → IsUndisturbed att
    → r.0.cancelled ≡ false
    → (((attempt_loop 3 1 cfg att r).1.current_step.status ≡ StepStatus.success)
        ↔ (Succeeds (att 1) ⊎ Succeeds (att 2) ⊎ Succeeds (att 3)))
      × (((attempt_loop 3 1 cfg att r).1.current_step.status ≡ StepStatus.success)
          ⊎ ((attempt_loop 3 1 cfg att r).1.current_step.status ≡ StepStatus.failed))
attempt_loop_iff cfg att r u c = elim (Option-cases (step_error (att 1).process_end)) [
  | inl one ↦ let done = attempt_loop_ok 2 1 cfg att r one in ((λ _. inl one, λ _. done), inl done)
  | inr (e, one) ↦
      let (r1, c1, _, eq1) = attempt_loop_retry 2 1 cfg att r u c (omega arith) one in
      let S : Run → Type 0 = λ x. x.1.current_step.status ≡ StepStatus.success in
      elim (Option-cases (step_error (att 2).process_end)) [
        | inl two ↦
            let done : S (attempt_loop 3 1 cfg att r) =
              rw eq1 (attempt_loop_ok 1 2 cfg att r1 two) in
            ((λ _. inr (inl two), λ _. done), inl done)
        | inr (f, two) ↦
            let (r2, c2, _, eq2) = attempt_loop_retry 1 2 cfg att r1 u c1 (omega arith) two in
            elim (Option-cases (step_error (att 3).process_end)) [
              | inl three ↦
                  let done : S (attempt_loop 3 1 cfg att r) =
                    rw (eq1, eq2) (attempt_loop_ok 0 3 cfg att r2 three) in
                  ((λ _. inr (inr three), λ _. done), inl done)
              | inr (g, three) ↦
                  let lost : (attempt_loop 3 1 cfg att r).1.current_step.status
                      ≡ StepStatus.failed =
                    rw (eq1, eq2) (attempt_loop_last 0 cfg att r2 three) in
                  (
                    (
                      λ h. absurd (absurd_status (sym h ∙ lost)),
                      λ h. absurd (no_success one two three h),
                    ),
                    inr lost,
                  )
            ]
      ]
]
