-- ===== src/Deploy/Steps.antt =====
-- admin/deployment.service.ts: `runSteps`, `failDeployment`.
pub mod Saved
pub mod Completed
pub mod Cancelled
pub mod Order
pub mod Failed
use shado_cloud.Common.{
  if◌then◌else◌, Bool, true, false, not, ◌&&◌, Option, none, some, List, [], ◌∷◌,
}
use shado_cloud.Deploy.State.{
  StepStatus, DeployStatus, Line, skipped_note, merged_note, restart_initiated, restart_sent,
  DeploymentState, Event, deployment_complete, StepConfig,
}
use shado_cloud.Deploy.Store.{emit, complete, save_current, save_last, send_email}
use shado_cloud.Deploy.Propagate.{run_propagate_step}
use shado_cloud.Deploy.Attempts.{
  Script, set_step, record_step, Run, log_line, attempt_succeeded, attempt_loop,
}

pub data Outcome : Type 0 where
  -- `return` because of `cancelled`; the service restarts; the two ends that hand off to the queue.
  halted restart_spawned deploy_failed deploy_succeeded : Outcome

unfoldable pub fail_deployment : Run → Run
unfolding save_current save_last emit complete send_email
fail_deployment (s, d) =
    let d' = record d { status = DeployStatus.failed } in
    (
      send_email d'.project DeployStatus.failed
          (complete (emit (deployment_complete d') (save_last d' (save_current d' s)))),
      d',
    )

-- Lines 994 to 1013.
unfoldable pub succeed_deployment : Run → Run
unfolding save_current save_last emit complete send_email
succeed_deployment (s, d) =
    let d' = record d { status = DeployStatus.success } in
    (
      send_email d'.project DeployStatus.success
          (complete (emit (deployment_complete d') (save_last d' (save_current d' s)))),
      d',
    )

-- Lines 885 to 889: the step state is the one object that every step reuses.
unfoldable pub enter_step : StepConfig → Run → Run
enter_step cfg (s, d) = (
  s,
  record d {
    current_step = record (d.current_step) {
      step = cfg.step;
      output = [];
      error = none;
      propagation = none;
    };
  },
)

-- Lines 891 to 913: a step that is skipped, with the note that it leaves.
unfoldable pub skip_step : StepConfig → Line → Bool → Run → Run
unfolding set_step record_step save_current emit
skip_step cfg note announced (s, d) =
    let d1 =
      set_step StepStatus.skipped none
        (record d { current_step = record (d.current_step) { output = note ∷ [] } }) in
    let d' = record_step cfg.step d1 in
    let s1 = save_current d' s in
    let s2 = if announced then emit (Event.step_output cfg.step note) s1 else s1 in
    (emit (Event.step_complete cfg.step StepStatus.skipped none) s2, d')

-- Lines 927 to 945.
unfoldable pub restart_step : StepConfig → Run → Run
unfolding set_step log_line attempt_succeeded save_current emit
restart_step cfg (s, d) =
    let d1 = set_step StepStatus.running none (record d {
      current_step = record (d.current_step) { output = restart_initiated cfg.cmd cfg.args ∷ [] };
    }) in
    let s1 = emit (Event.step_start cfg.step) (save_current d1 s) in
    let s2 = emit (Event.step_output cfg.step (restart_initiated cfg.cmd cfg.args)) s1 in
    attempt_succeeded cfg (log_line cfg.step restart_sent (s2, d1))

-- `stepConfig.buildImage` read as a condition
unfoldable pub is_true : Option Bool → Bool
is_true (some true) = true
is_true _ = false

unfoldable pub has_failed : DeploymentState → Bool
has_failed d = elim d.current_step.status [ StepStatus.failed ↦ true | _ ↦ false ]

-- After a command step: line 988.
unfoldable pub after_command : Run → Run × Option Outcome
after_command r = if has_failed r.1 then (fail_deployment r, some deploy_failed) else (r, none)

unfoldable pub after_propagation : Run × Bool → Run × Option Outcome
after_propagation (r, true) = (fail_deployment r, some deploy_failed)
after_propagation (r, false) = (r, none)

-- The body of the `for` loop; `none` goes on to the next step.
unfoldable pub step_once : StepConfig → Script → Run → Run × Option Outcome
step_once cfg sc r =
    let r1 = enter_step cfg r in
    if r.0.cancelled
    then (r, some halted)
    else if cfg.skip
    then (skip_step cfg skipped_note false r1, none)
    else if is_true cfg.build_image && not cfg.propagate_to_replicas
    then (skip_step cfg merged_note true r1, none)
    else if cfg.propagate_to_replicas
    then after_propagation (run_propagate_step cfg sc r1)
    else if cfg.triggers_restart
    then (restart_step cfg r1, some restart_spawned)
    else after_command (attempt_loop 3 1 cfg sc.attempts r1)

-- A round that ends the run, or goes on with the steps that are left.
unfoldable pub continue_with : Run × Option Outcome → (Run → Run × Outcome) → Run × Outcome
continue_with (r, none) go_on = go_on r
continue_with (r, some o) go_on = (r, o)

unfoldable pub run_steps : List (StepConfig × Script) → Run → Run × Outcome
unfolding continue_with
run_steps [] r = (succeed_deployment r, deploy_succeeded)
run_steps ((cfg, sc) ∷ rest) r = continue_with (step_once cfg sc r) (run_steps rest)
