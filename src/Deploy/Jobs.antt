-- ===== src/Deploy/Jobs.antt =====
-- admin/deployment.service.ts: `onModuleInit`, and the run that a command sets going
-- (`runDeployment` or `runSteps`, which the source calls with `void`) up to its hand-off to the queue.
use shado_cloud.Common.{if◌then◌else◌, ℕ, suc, String, false, none, some, List, [], ◌∷◌}
use shado_cloud.Deploy.State.{
  StepStatus, DeployStatus, DeploymentState, deployment_complete, StepConfig, Project, Service,
}
use shado_cloud.Deploy.Store.{emit, complete, save_current, save_last, send_email, is_running}
use shado_cloud.Deploy.Attempts.{Script, set_step, Run}
use shado_cloud.Deploy.Steps.{Outcome, halted, deploy_failed, deploy_succeeded, run_steps}
use shado_cloud.Deploy.Commands.{
  find_project, get_following_steps, open_stream, new_step, launch, process_queue,
}

-- `onModuleInit` after the process restarted, so with no stream; the defaults are seeded already.
resume_running : DeploymentState → Project → Service → Service
unfolding open_stream new_step launch get_following_steps
resume_running d p s = elim (get_following_steps d.current_step p.steps) [
  | [] ↦ launch false [] d (open_stream s)
  | c ∷ cs ↦
      launch false (c ∷ cs) (record d { current_step = new_step c.step StepStatus.running 0 0 })
        (open_stream s)
]

unfoldable pub on_module_init : Service → Service
unfolding resume_running is_running find_project
on_module_init s = elim s.current [
  | none ↦ s
  | some d ↦
      if is_running s
      then elim (find_project d.project s) [ none ↦ s | some p ↦ resume_running d p s ]
      else s
]

-- The scripts of a run, one for each step.
unfoldable pub with_scripts : (ℕ → Script) → List StepConfig → List (StepConfig × Script)
with_scripts sc [] = []
with_scripts sc (c ∷ cs) = (c, sc 0) ∷ with_scripts (λ n. sc (suc n)) cs

disabled : String
disabled = "Deployments are disabled (feature flag: enable_pipeline_deployment)"

-- Lines 1352 to 1361.
unfoldable pub block_deployment : Run → Run
unfolding set_step save_current save_last emit complete disabled
block_deployment (s, d) =
    let d' =
      set_step StepStatus.failed (some disabled) (record d { status = DeployStatus.failed }) in
    (complete (emit (deployment_complete d') (save_last d' (save_current d' s))), d')

unfoldable pub run_deployment : List (StepConfig × Script) → Run → Run × Outcome
unfolding block_deployment run_steps send_email
run_deployment steps (s, d) =
    if s.pipeline_enabled
    then run_steps steps (send_email d.project DeployStatus.running s, d)
    else (block_deployment (s, d), halted)

hand_off : String → Run × Outcome → Service
unfolding process_queue
hand_off id ((s, d), deploy_failed) = process_queue id s
hand_off id ((s, d), deploy_succeeded) = process_queue id s
hand_off id ((s, d), other) = s

-- The run that a command has set going, to its end and the hand-off to the queue.
unfoldable pub run_job : String → (ℕ → Script) → Service → Service
unfolding hand_off run_deployment run_steps with_scripts
run_job id sc s = elim s.job [
  | none ↦ s
  | some j ↦
      let s' = record s { job = none } in
      let steps = with_scripts sc j.steps in
      hand_off id (
        if j.gated
        then run_deployment steps (s', j.deployment)
        else run_steps steps (s', j.deployment))
]
