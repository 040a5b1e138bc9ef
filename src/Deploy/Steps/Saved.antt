-- ===== src/Deploy/Steps/Saved.antt =====
-- What the loop over the steps leaves behind.
use shado_cloud.Common.{
  Bool-cases, choose, ◌≡◌, inl, inr, Bool, true, false, not, ◌&&◌, Option, none, some, List, [],
  ◌∷◌, arith,
}
use shado_cloud.Deploy.State.{StepStatus, DeployStatus, StepConfig}
use shado_cloud.Deploy.Attempts.{Script, Run}
use shado_cloud.Deploy.Steps.{
  Outcome, halted, restart_spawned, deploy_failed, deploy_succeeded, fail_deployment,
  succeed_deployment, restart_step, is_true, has_failed, after_command, after_propagation,
  step_once, continue_with, run_steps,
}

-- Both entries in Redis hold the deployment of the run, which has this status.
abbrev pub IsClosed : DeployStatus → Run → Type 0
IsClosed status r = (r.0.current ≡ some r.1) × (r.0.last ≡ some r.1) × (r.1.status ≡ status)

-- What each outcome means for the entries in Redis; a run that is halted says only that it was
-- cancelled.
abbrev pub IsSaved : Outcome → Run → Type 0
IsSaved deploy_succeeded r = IsClosed DeployStatus.success r
IsSaved deploy_failed r = IsClosed DeployStatus.failed r
IsSaved restart_spawned r =
    (r.0.current ≡ some r.1) × (r.1.current_step.status ≡ StepStatus.success)
IsSaved halted r = r.0.cancelled ≡ true

pub succeed_deployment-IsClosed : (r : Run) → IsClosed DeployStatus.success (succeed_deployment r)
unfolding succeed_deployment
succeed_deployment-IsClosed (s, d) = ground arith

pub fail_deployment-IsClosed : (r : Run) → IsClosed DeployStatus.failed (fail_deployment r)
unfolding fail_deployment
fail_deployment-IsClosed (s, d) = ground arith

restart_step-IsSaved : (cfg : StepConfig) (r : Run) → IsSaved restart_spawned (restart_step cfg r)
unfolding restart_step
restart_step-IsSaved cfg (s, d) = ground arith

-- How one round of the loop ends.
pub data Stepped (cfg : StepConfig) (r : Run) : Run × Option Outcome → Type 0 where
  stopped : r.0.cancelled ≡ true → Stepped cfg r (r, some halted)
  continued : (r' : Run) → Stepped cfg r (r', none)
  failed_at : (r' : Run) → Stepped cfg r (fail_deployment r', some deploy_failed)
  restarted : (r' : Run) → Stepped cfg r (restart_step cfg r', some restart_spawned)

after_command-Stepped : (cfg : StepConfig) (r r' : Run) → Stepped cfg r (after_command r')
unfolding after_command
after_command-Stepped cfg r r' = elim (Bool-cases (has_failed r'.1)) [
  | inl e ↦ rw e (failed_at r')
  | inr e ↦ rw e (continued r')
]

after_propagation-Stepped :
    (cfg : StepConfig) (r : Run) (p : Run × Bool) → Stepped cfg r (after_propagation p)
unfolding after_propagation
after_propagation-Stepped cfg r (r', true) = failed_at r'
after_propagation-Stepped cfg r (r', false) = continued r'

pub step_once-Stepped :
    (cfg : StepConfig) (sc : Script) (r : Run) → Stepped cfg r (step_once cfg sc r)
unfolding step_once
step_once-Stepped cfg sc r =
    let P : Run × Option Outcome → Type 0 = Stepped cfg r in
    choose P r.0.cancelled _ _ (λ e. stopped e)
      (λ _.
        choose P cfg.skip _ _ (λ _. continued _)
          (λ _.
            choose P (is_true cfg.build_image && not cfg.propagate_to_replicas) _ _
              (λ _. continued _)
              (λ _.
                choose P cfg.propagate_to_replicas _ _ (λ _. after_propagation-Stepped cfg r _)
                  (λ _.
                    choose P cfg.triggers_restart _ _ (λ _. restarted _)
                      (λ _. after_command-Stepped cfg r _)))))

continue_with-IsSaved :
    {cfg : StepConfig} {r : Run} {q : Run × Option Outcome}
    → Stepped cfg r q
    → (go_on : Run → Run × Outcome) → ((r' : Run) → IsSaved (go_on r').1 (go_on r').0)
    → IsSaved (continue_with q go_on).1 (continue_with q go_on).0
unfolding continue_with
continue_with-IsSaved (stopped c) go_on h = c
continue_with-IsSaved (continued r') go_on h = h r'
continue_with-IsSaved (failed_at r') go_on h = fail_deployment-IsClosed r'
continue_with-IsSaved {cfg} (restarted r') go_on h = restart_step-IsSaved cfg r'

-- A run that ends as succeeded or as failed leaves its deployment, with that status, as the current
-- and the last entry of Redis; one that hands over to a restart leaves its deployment as the current
-- entry, with the restart step marked successful; one that ends in none of these ways was cancelled,
-- and nothing is said of the entries that it leaves.
pub run_steps-IsSaved :
    (steps : List (StepConfig × Script)) (r : Run)
    → IsSaved (run_steps steps r).1 (run_steps steps r).0
unfolding run_steps
run_steps-IsSaved [] r = succeed_deployment-IsClosed r
run_steps-IsSaved ((cfg, sc) ∷ rest) r =
    continue_with-IsSaved (step_once-Stepped cfg sc r) (run_steps rest) (run_steps-IsSaved rest)
