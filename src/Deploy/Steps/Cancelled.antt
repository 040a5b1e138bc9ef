-- ===== src/Deploy/Steps/Cancelled.antt =====
-- A cancel request that arrives while a command runs: `cancelDeployment` marks the copy in Redis as
-- failed, and the run then saves its own copy over it.
use shado_cloud.Deploy.Attempts.Retries.{run_step_result, attempt_succeeded_ok, conclude_ok}
use shado_cloud.Deploy.Steps.Saved.{IsClosed, succeed_deployment-IsClosed}
use shado_cloud.Deploy.Steps.Completed.{succeed_deployment_keeps, step_once_cancelled}
use shado_cloud.Deploy.State.{StepStatus, DeployStatus, Line, DeploymentState, StepConfig, Service}
use shado_cloud.Deploy.Store.{is_running, cancel_if}
use shado_cloud.Deploy.Attempts.{
  closed, Attempt, Script, step_error, Run, log_line, log_lines, step_lines, run_step,
  begin_attempt, attempt_succeeded, attempt_loop,
}
use shado_cloud.Deploy.Steps.{
  Outcome, halted, deploy_succeeded, enter_step, is_true, has_failed, after_command, step_once,
  continue_with, run_steps,
}
use shado_cloud.Common.{
  and-eq-true, choose, ℕ, String, ◌≡◌, refl, sym, ap, ◌∙◌, subst, Bool, true, false, not, ◌&&◌,
  Option, none, some, List, [], ◌∷◌, arith,
}

-- A step that runs its command.
pub record IsCommand (cfg : StepConfig) : Type 0 where
  pub not_skipped : cfg.skip ≡ false
  pub no_build : is_true cfg.build_image ≡ false
  pub no_propagation : cfg.propagate_to_replicas ≡ false
  pub no_restart : cfg.triggers_restart ≡ false

pub step_once_command :
    (cfg : StepConfig) (sc : Script) (r : Run)
    → IsCommand cfg
    → r.0.cancelled ≡ false
    → step_once cfg sc r ≡ after_command (attempt_loop 3 1 cfg sc.attempts (enter_step cfg r))
unfolding step_once
step_once_command cfg sc r k c =
    let last = after_command (attempt_loop 3 1 cfg sc.attempts (enter_step cfg r)) in
    let P : Run × Option Outcome → Type 0 = λ q. q ≡ last in
    choose P r.0.cancelled _ _ (λ t. clash t c)
      (λ _.
        choose P cfg.skip _ _ (λ t. clash t k.not_skipped)
          (λ _.
            choose P (is_true cfg.build_image && not cfg.propagate_to_replicas) _ _
              (λ t. clash (and-eq-true _ _ t).0 k.no_build)
              (λ _.
                choose P cfg.propagate_to_replicas _ _ (λ t. clash t k.no_propagation)
                  (λ _.
                    choose P cfg.triggers_restart _ _ (λ t. clash t k.no_restart) (λ _. refl)))))
  where
    clash : {X : Type 0} {b : Bool} → b ≡ true → b ≡ false → X
    clash t f = absurd (cc)

-- The deployment of the run is still running, and is what Redis holds.
abbrev IsLive : Run → Type 0
IsLive r = (r.0.current ≡ some r.1) × (r.1.status ≡ DeployStatus.running)

log_lines_live :
    (step : String) (ls : List Line) (r : Run)
    → ((log_lines step ls r).0.current ≡ r.0.current)
      × ((log_lines step ls r).1.status ≡ r.1.status)
unfolding log_lines log_line
log_lines_live step [] r = (refl, refl)
log_lines_live step (l ∷ ls) (s, d) = log_lines_live step ls (log_line step l (s, d))

begin_attempt_live :
    (cfg : StepConfig) (r : Run)
    → (begin_attempt cfg 1 r).0.current ≡ some (begin_attempt cfg 1 r).1
unfolding begin_attempt
begin_attempt_live cfg (s, d) = refl

begin_attempt_status : (cfg : StepConfig) (r : Run) → (begin_attempt cfg 1 r).1.status ≡ r.1.status
unfolding begin_attempt
begin_attempt_status cfg (s, d) = refl

cancel_if_running :
    (s : Service) (d : DeploymentState)
    → s.current ≡ some d
    → d.status ≡ DeployStatus.running
    → (cancel_if true s).cancelled ≡ true
unfolding cancel_if
cancel_if_running s d h k = ground arith

run_step_cancels :
    (cfg : StepConfig) (att : Attempt) (r : Run)
    → att.cancel_in_run ≡ true
    → IsLive r
    → (run_step cfg att r).0.0.cancelled ≡ true
unfolding run_step
run_step_cancels cfg att r h (saved, live) =
    let r' = log_lines cfg.step (step_lines cfg att) r in
    rw h (
      cancel_if_running (record (r'.0) { has_process = true }) r.1
        ((log_lines_live cfg.step (step_lines cfg att) r).0 ∙ saved) live)

run_step_status :
    (cfg : StepConfig) (att : Attempt) (r : Run) → (run_step cfg att r).0.1.status ≡ r.1.status
unfolding run_step
run_step_status cfg att r = (log_lines_live cfg.step (step_lines cfg att) r).1

attempt_succeeded_live :
    (cfg : StepConfig) (r : Run)
    → ((attempt_succeeded cfg r).0.current ≡ some (attempt_succeeded cfg r).1)
      × ((attempt_succeeded cfg r).1.status ≡ r.1.status)
      × ((attempt_succeeded cfg r).0.cancelled ≡ r.0.cancelled)
unfolding attempt_succeeded
attempt_succeeded_live cfg (s, d) = (refl, refl, refl)

-- The process dies by the signal of a cancel request.
abbrev pub IsKilled : Attempt → Type 0
IsKilled att = (att.cancel_in_run ≡ true) × (att.process_end ≡ closed none)

-- The attempt counts as a success, and its save puts the running deployment back.
attempt_loop_killed :
    (cfg : StepConfig) (att : ℕ → Attempt) (r : Run)
    → IsKilled (att 1)
    → r.1.status ≡ DeployStatus.running
    → let q = attempt_loop 3 1 cfg att r in
      IsLive q × (q.0.cancelled ≡ true) × (q.1.current_step.status ≡ StepStatus.success)
unfolding attempt_loop step_error
attempt_loop_killed cfg att r (hit, dies) live =
    let b = begin_attempt cfg 1 r in
    let q = run_step cfg (att 1) b in
    let result : q.1 ≡ none = run_step_result cfg (att 1) b ∙ ap step_error dies in
    let running = run_step_status cfg (att 1) b ∙ begin_attempt_status cfg r ∙ live in
    let (saved, kept, flag) = attempt_succeeded_live cfg q.0 in
    let cancelled =
      run_step_cancels cfg (att 1) b hit
        (begin_attempt_live cfg r, begin_attempt_status cfg r ∙ live) in
    let P : Run → Type 0 =
      λ q. IsLive q × (q.0.cancelled ≡ true) × (q.1.current_step.status ≡ StepStatus.success) in
    subst P (sym (conclude_ok 1 cfg (att 1).cancel_in_wait q (attempt_loop 2 2 cfg att) result))
      ((saved, kept ∙ running), flag ∙ cancelled, attempt_succeeded_ok cfg q.0)

after_command_ok :
    (r : Run) → r.1.current_step.status ≡ StepStatus.success → after_command r ≡ (r, none)
unfolding after_command has_failed
after_command_ok r h = rw h

enter_step_keeps :
    (cfg : StepConfig) (r : Run)
    → ((enter_step cfg r).1.status ≡ r.1.status) × ((enter_step cfg r).0.cancelled ≡ r.0.cancelled)
unfolding enter_step
enter_step_keeps cfg (s, d) = (refl, refl)

-- One round with a killed command goes on, cancelled, with Redis saying that the run is live.
step_once_killed :
    (cfg : StepConfig) (sc : Script) (r : Run)
    → IsCommand cfg
    → r.0.cancelled ≡ false
    → r.1.status ≡ DeployStatus.running
    → IsKilled (sc.attempts 1)
    → (r' : Run) × (step_once cfg sc r ≡ (r', none)) × IsLive r' × (r'.0.cancelled ≡ true)
step_once_killed cfg sc r k c live dies =
    let r1 = enter_step cfg r in
    let q = attempt_loop 3 1 cfg sc.attempts r1 in
    let (alive, flag, fine) =
      attempt_loop_killed cfg sc.attempts r1 dies ((enter_step_keeps cfg r).0 ∙ live) in
    (q, step_once_command cfg sc r k c ∙ after_command_ok q fine, alive, flag)

is_running_live : (r : Run) → IsLive r → is_running r.0 ≡ true
unfolding is_running
is_running_live r (saved, live) = rw (saved, live)

-- In a run that is going on and not cancelled, a cancel request that kills the first attempt of a
-- command step with further steps after it halts the run, and leaves a running deployment in Redis.
pub run_steps_killed :
    (cfg next : StepConfig) (sc sc' : Script) (rest : List (StepConfig × Script)) (r : Run)
    → IsCommand cfg
    → r.0.cancelled ≡ false
    → r.1.status ≡ DeployStatus.running
    → IsKilled (sc.attempts 1)
    → let q = run_steps ((cfg, sc) ∷ (next, sc') ∷ rest) r in
      (q.1 ≡ halted) × (q.0.0.cancelled ≡ true) × (is_running q.0.0 ≡ true)
unfolding run_steps
run_steps_killed cfg next sc sc' rest r k c live dies =
    let (r', eq, alive, flag) = step_once_killed cfg sc r k c live dies in
    let P : Run × Outcome → Type 0 =
      λ q. (q.1 ≡ halted) × (q.0.0.cancelled ≡ true) × (is_running q.0.0 ≡ true) in
    rw eq (
      subst (λ x. P (continue_with x (run_steps rest))) (sym (step_once_cancelled next sc' r' flag))
        (refl, flag, is_running_live r' alive))

-- In a run that is going on and not cancelled, a cancel request that kills the first attempt of the
-- last step, a command, ends the run as a success: it is saved as one, with the service cancelled.
pub run_steps_killed_last :
    (cfg : StepConfig) (sc : Script) (r : Run)
    → IsCommand cfg
    → r.0.cancelled ≡ false
    → r.1.status ≡ DeployStatus.running
    → IsKilled (sc.attempts 1)
    → let q = run_steps ((cfg, sc) ∷ []) r in
      (q.1 ≡ deploy_succeeded) × (q.0.0.cancelled ≡ true) × IsClosed DeployStatus.success q.0
unfolding run_steps
run_steps_killed_last cfg sc r k c live dies =
    let (r', eq, alive, flag) = step_once_killed cfg sc r k c live dies in
    rw eq (refl, (succeed_deployment_keeps r').0 ∙ flag, succeed_deployment-IsClosed r')
