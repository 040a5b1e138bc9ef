-- ===== src/Deploy/Steps/Failed.antt =====
-- A command step that fails ends the run: the deployment is failed, and no step behind it is done.
use shado_cloud.Common.{
  insert, ℕ, String, ◌≡◌, refl, sym, ap, ◌∙◌, subst, ◌≢◌, false, Option, none, some, List, [], ◌∷◌,
  ◌++◌, arith,
}
use shado_cloud.Deploy.State.{StepStatus, DeployStatus, StepState, StepConfig}
use shado_cloud.Deploy.Attempts.{
  Attempt, Script, step_error, Run, run_step, begin_attempt, attempts_exhausted, attempt_loop,
}
use shado_cloud.Deploy.Attempts.Retries.{
  begin_attempt-Same, run_step_steps, attempts_exhausted_fails, IsUndisturbed, attempt_loop_retry,
  attempt_loop_exhausted,
}
use shado_cloud.Deploy.Steps.{
  Outcome, deploy_failed, fail_deployment, enter_step, has_failed, after_command, step_once,
  continue_with, run_steps,
}
use shado_cloud.Deploy.Steps.Saved.{IsClosed, fail_deployment-IsClosed}
use shado_cloud.Deploy.Steps.Cancelled.{IsCommand, step_once_command}
use shado_cloud.Deploy.Steps.Completed.{enter_step_steps}
use shado_cloud.Deploy.Propagate.Recorded.{Steps}

-- A run goes through these steps, from one state to another: no round of theirs ends it.
pub data Passes : List (StepConfig × Script) → Run → Run → Type 0 where
  none_left : {r : Run} → Passes [] r r
  passes :
      {cfg : StepConfig} {sc : Script} {steps : List (StepConfig × Script)} {r r' r1 : Run}
      → step_once cfg sc r ≡ (r', none)
      → Passes steps r' r1
      → Passes ((cfg, sc) ∷ steps) r r1

-- Every attempt fails, the last one with this error.
abbrev pub FailsThrice : (ℕ → Attempt) → String → Type 0
FailsThrice att e =
    (step_error (att 1).process_end ≢ none)
    × (step_error (att 2).process_end ≢ none)
    × (step_error (att 3).process_end ≡ some e)

-- The completed steps are the old ones, and this one, which failed with this error.
abbrev pub FailedAt : String → String → (old new : Steps) → Type 0
FailedAt step e old new =
    (st : StepState) × (new ≡ insert step st old)
    × (st.status ≡ StepStatus.failed)
    × (st.error ≡ some e)

attempts_exhausted-FailedAt :
    (cfg : StepConfig) (e : String) (r : Run)
    → FailedAt cfg.step e r.1.completed_steps (attempts_exhausted cfg e r).1.completed_steps
unfolding attempts_exhausted
attempts_exhausted-FailedAt cfg e (s, d) =
    (record (d.current_step) { status = StepStatus.failed; error = some e }, refl, refl, refl)

has_error : {o : Option String} → o ≢ none → (e : String) × (o ≡ some e)
has_error {o = none} d = absurd (d refl)
has_error {o = some e} d = (e, refl)

-- Three failed attempts leave the step failed, and recorded as such.
attempt_loop-FailedAt :
    (cfg : StepConfig) (att : ℕ → Attempt) (e : String) (r : Run)
    → IsUndisturbed att
    → r.0.cancelled ≡ false
    → FailsThrice att e
    → ((attempt_loop 3 1 cfg att r).1.current_step.status ≡ StepStatus.failed)
      × FailedAt cfg.step e r.1.completed_steps (attempt_loop 3 1 cfg att r).1.completed_steps
attempt_loop-FailedAt cfg att e r u c (one, two, three) =
    let (e1, h1) = has_error one in
    let (e2, h2) = has_error two in
    let (r1, c1, same1, eq1) = attempt_loop_retry 2 1 cfg att r u c (omega arith) h1 in
    let (r2, c2, same2, eq2) = attempt_loop_retry 1 2 cfg att r1 u c1 (omega arith) h2 in
    let q = (run_step cfg (att 3) (begin_attempt cfg 3 r2)).0 in
    let eq : attempt_loop 3 1 cfg att r ≡ attempts_exhausted cfg e q =
      eq1 ∙ eq2 ∙ attempt_loop_exhausted 0 cfg att r2 three in
    let same : q.1.completed_steps ≡ r.1.completed_steps =
      run_step_steps cfg (att 3) (begin_attempt cfg 3 r2)
      ∙ (begin_attempt-Same cfg 3 r2).1
      ∙ same2
      ∙ same1 in
    let G : Steps → Run → Type 0 = λ old x.
      (x.1.current_step.status ≡ StepStatus.failed) × FailedAt cfg.step e old x.1.completed_steps in
    subst (G r.1.completed_steps) (sym eq) (
      subst (λ old. G old (attempts_exhausted cfg e q)) same
        (attempts_exhausted_fails cfg e q, attempts_exhausted-FailedAt cfg e q))

after_command_stops :
    (r : Run)
    → r.1.current_step.status ≡ StepStatus.failed
    → after_command r ≡ (fail_deployment r, some deploy_failed)
unfolding after_command has_failed
after_command_stops r h = rw h refl

fail_deployment_steps : (r : Run) → (fail_deployment r).1.completed_steps ≡ r.1.completed_steps
unfolding fail_deployment
fail_deployment_steps (s, d) = refl

run_steps_passed :
    (before rest : List (StepConfig × Script)) {r r1 : Run}
    → Passes before r r1
    → run_steps (before ++ rest) r ≡ run_steps rest r1
unfolding run_steps
run_steps_passed [] rest none_left = refl
run_steps_passed ((cfg, sc) ∷ before) rest {r} (passes {r' = r'} e p) =
    ap (λ q. continue_with q (run_steps (before ++ rest))) e ∙ run_steps_passed before rest p

run_steps_stops :
    (cfg : StepConfig) (sc : Script) (rest : List (StepConfig × Script)) (r r' : Run)
    → step_once cfg sc r ≡ (r', some deploy_failed)
    → run_steps ((cfg, sc) ∷ rest) r ≡ (r', deploy_failed)
unfolding run_steps continue_with
run_steps_stops cfg sc rest r r' e = rw e refl

enter_step_cancelled : (cfg : StepConfig) (r : Run) → (enter_step cfg r).0.cancelled ≡ r.0.cancelled
unfolding enter_step
enter_step_cancelled cfg (s, d) = refl

-- What a run is like that a step has failed, when `old` were the completed steps before it.
abbrev pub IsFailed : (step e : String) (old : Steps) → Run × Outcome → Type 0
IsFailed step e old q =
    (q.1 ≡ deploy_failed)
    × IsClosed DeployStatus.failed q.0
    × FailedAt step e old q.0.1.completed_steps

-- Where a run goes through some steps, is not cancelled, and all three attempts of the command step
-- after them fail, with no cancel request meanwhile, the run ends as failed, whatever the steps behind:
-- both entries in Redis hold the failed deployment, whose completed steps are those that it had before
-- and the one that failed, with the error of its last attempt.
pub run_steps-IsFailed :
    (before : List (StepConfig × Script)) (cfg : StepConfig) (sc : Script)
    (rest : List (StepConfig × Script)) (e : String) (r r1 : Run)
    → Passes before r r1
    → IsCommand cfg
    → r1.0.cancelled ≡ false
    → IsUndisturbed sc.attempts
    → FailsThrice sc.attempts e
    → IsFailed cfg.step e r1.1.completed_steps (run_steps (before ++ (cfg, sc) ∷ rest) r)
run_steps-IsFailed before cfg sc rest e r r1 p command calm u f =
    let r2 = attempt_loop 3 1 cfg sc.attempts (enter_step cfg r1) in
    let (status, recorded) =
      attempt_loop-FailedAt cfg sc.attempts e (enter_step cfg r1) u
        (enter_step_cancelled cfg r1 ∙ calm) f in
    let ends : step_once cfg sc r1 ≡ (fail_deployment r2, some deploy_failed) =
      step_once_command cfg sc r1 command calm ∙ after_command_stops r2 status in
    let eq : run_steps (before ++ (cfg, sc) ∷ rest) r ≡ (fail_deployment r2, deploy_failed) =
      run_steps_passed before ((cfg, sc) ∷ rest) p
      ∙ run_steps_stops cfg sc rest r1 (fail_deployment r2) ends in
    let new =
      subst (λ m. FailedAt cfg.step e (enter_step cfg r1).1.completed_steps m)
        (sym (fail_deployment_steps r2)) recorded in
    let kept =
      subst (λ old. FailedAt cfg.step e old (fail_deployment r2).1.completed_steps)
        (enter_step_steps cfg r1) new in
    subst (IsFailed cfg.step e r1.1.completed_steps) (sym eq)
      (refl, fail_deployment-IsClosed r2, kept)
