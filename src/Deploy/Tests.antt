-- ===== src/Deploy/Tests.antt =====
-- A project of three steps, a service that runs it, and what the theorems say of its runs.
use shado_cloud.Deploy.Store.{is_running, cancel_if}
use shado_cloud.Deploy.Steps.Cancelled.{IsCommand, run_steps_killed, run_steps_killed_last}
use shado_cloud.Deploy.Steps.Failed.{Passes, FailsThrice, IsFailed, run_steps-IsFailed}
use shado_cloud.Deploy.Steps.Order.{RestartsAt, run_steps-RestartsAt}
use shado_cloud.Deploy.Commands.Queue.{Runs, process_queue-Runs}
use shado_cloud.Deploy.Commands.{find_project, get_following_steps, retry_step, process_queue}
use shado_cloud.Deploy.Commands.Resume.{
  configs, following_steps_after_restart, RunsOnly, retry_step_unknown,
}
use shado_cloud.Common.{
  err, ok, ℕ, zero, suc, String, ◌≡◌, refl, ◌↔◌, ◌⊎◌, inl, Bool, true, false, none, some, List, [],
  ◌∷◌,
}
use shado_cloud.Deploy.State.{
  StepStatus, DeployStatus, StepState, DeploymentState, StepConfig, Project, Service,
}
use shado_cloud.Deploy.Attempts.{
  ProcessEnd, closed, Attempt, Script, exit_message, step_error, Run, run_step, begin_attempt,
  attempt_succeeded, attempts_exhausted, next_attempt, attempt_loop,
}
use shado_cloud.Deploy.Attempts.Retries.{IsUndisturbed, Succeeds, attempt_loop_iff}
use shado_cloud.Deploy.Steps.{
  halted, deploy_succeeded, succeed_deployment, enter_step, is_true, has_failed, after_command,
  step_once, run_steps,
}
use shado_cloud.Deploy.Steps.Saved.{IsClosed, IsSaved, run_steps-IsSaved}
use shado_cloud.Deploy.Steps.Completed.{AllDone, run_steps-AllDone}

abbrev command : String → StepConfig
command step = record {
  step = step;
  name = step;
  cmd = "npm";
  args = "run" ∷ step ∷ [];
  triggers_restart = false;
  skip = false;
  require_all_replicas = false;
  propagate_to_replicas = false;
  build_image = none;
}

abbrev restart : StepConfig
restart = record (command "restart") { triggers_restart = true }

abbrev pipeline : List StepConfig
pipeline = command "install" ∷ restart ∷ command "smoke" ∷ []

abbrev shop : Project
shop = record { slug = "shop"; work_dir = "/srv/shop"; enabled = true; steps = pipeline }

abbrev first_step : StepState
first_step = record {
  step = "install";
  status = StepStatus.pending;
  output = [];
  error = none;
  attempt = 1;
  max_attempts = 3;
  propagation = none;
}

abbrev deployment : DeploymentState
deployment = record {
  id = "deploy-1";
  project = "shop";
  status = DeployStatus.running;
  current_step = first_step;
  completed_steps = [];
  triggered_by = "push";
  images = none;
}

abbrev idle : Service
idle = record {
  subject = none;
  has_process = false;
  cancelled = false;
  current = none;
  last = none;
  queue = [];
  projects = shop ∷ [];
  pipeline_enabled = true;
  emails_enabled = true;
  emails = [];
  job = none;
}

abbrev started : Run
started = (record idle { current = some deployment }, deployment)

abbrev ends : ProcessEnd → Bool → Attempt
ends e hit = record {
  actual_cwd = "/srv/shop";
  printed = "log" ∷ [];
  process_end = e;
  cancel_in_run = hit;
  cancel_in_wait = false;
}

abbrev script : (ℕ → Attempt) → Script
script att = record {
  attempts = att;
  in_build = [];
  built = ok [];
  cloned = false;
  in_propagation = [];
  propagated = err "no replica";
}

-- Exit codes 1 and then 0; always 1; and a death by the signal of a cancel request.
abbrev second_try : ℕ → Attempt
second_try (suc zero) = ends (closed (some 1)) false
second_try _ = ends (closed (some 0)) false

abbrev good : Script
good = script second_try

abbrev bad : Script
bad = script (λ _. ends (closed (some 1)) false)

abbrev killed : Script
killed = script (λ _. ends (closed none) true)

second_try-IsUndisturbed : IsUndisturbed second_try
second_try-IsUndisturbed zero = (refl, refl)
second_try-IsUndisturbed (suc zero) = (refl, refl)
second_try-IsUndisturbed (suc (suc n)) = (refl, refl)

attempt_loop_iff_example :
    (((attempt_loop 3 1 (command "install") second_try started).1.current_step.status
        ≡ StepStatus.success)
      ↔ (Succeeds (second_try 1) ⊎ Succeeds (second_try 2) ⊎ Succeeds (second_try 3)))
    × (((attempt_loop 3 1 (command "install") second_try started).1.current_step.status
          ≡ StepStatus.success)
        ⊎ ((attempt_loop 3 1 (command "install") second_try started).1.current_step.status
            ≡ StepStatus.failed))
attempt_loop_iff_example =
    attempt_loop_iff (command "install") second_try started second_try-IsUndisturbed refl

abbrev to_restart : List (StepConfig × Script)
to_restart = (command "install", good) ∷ (restart, good) ∷ (command "smoke", good) ∷ []

run_steps-IsSaved_example :
    IsSaved (run_steps to_restart started).1 (run_steps to_restart started).0
run_steps-IsSaved_example = run_steps-IsSaved to_restart started

abbrev two_commands : List (StepConfig × Script)
two_commands = (command "install", good) ∷ (command "smoke", good) ∷ []

run_steps-AllDone_example : AllDone two_commands (run_steps two_commands started).0
unfolding run_steps attempt_loop step_once is_true after_command has_failed run_step next_attempt
    cancel_if begin_attempt enter_step attempts_exhausted attempt_succeeded succeed_deployment
run_steps-AllDone_example = run_steps-AllDone two_commands started refl refl

command-IsCommand : (step : String) → IsCommand (command step)
unfolding is_true
command-IsCommand step = record {
  not_skipped = refl;
  no_build = refl;
  no_propagation = refl;
  no_restart = refl;
}

run_steps_killed_example :
    let q = run_steps ((command "install", killed) ∷ (command "smoke", good) ∷ []) started in
    (q.1 ≡ halted) × (q.0.0.cancelled ≡ true) × (is_running q.0.0 ≡ true)
run_steps_killed_example =
    run_steps_killed (command "install") (command "smoke") killed good [] started
      (command-IsCommand "install") refl refl (refl, refl)

run_steps_killed_last_example :
    let q = run_steps ((command "install", killed) ∷ []) started in
    (q.1 ≡ deploy_succeeded) × (q.0.0.cancelled ≡ true) × IsClosed DeployStatus.success q.0
run_steps_killed_last_example =
    run_steps_killed_last (command "install") killed started (command-IsCommand "install") refl refl
      (refl, refl)

bad-FailsThrice : FailsThrice bad.attempts "Process exited with code 1"
unfolding step_error exit_message
bad-FailsThrice = (λ h. cc, λ h. cc, refl)

abbrev installed : Run
installed = (step_once (command "install") good started).0

run_steps-IsFailed_example :
    IsFailed "test" "Process exited with code 1" installed.1.completed_steps (
      run_steps
        ((command "install", good) ∷ (command "test", bad) ∷ (command "smoke", good) ∷ [])
        started)
unfolding attempt_loop step_once is_true after_command has_failed run_step next_attempt cancel_if
    begin_attempt enter_step attempts_exhausted attempt_succeeded
run_steps-IsFailed_example =
    run_steps-IsFailed ((command "install", good) ∷ []) (command "test") bad
      ((command "smoke", good) ∷ []) "Process exited with code 1" started installed
      (Passes.passes refl Passes.none_left) (command-IsCommand "test") refl (λ n. (refl, refl))
      bad-FailsThrice

run_steps-RestartsAt_example : RestartsAt to_restart (run_steps to_restart started).0
unfolding run_steps attempt_loop step_once is_true after_command has_failed run_step next_attempt
    cancel_if begin_attempt enter_step attempts_exhausted attempt_succeeded
run_steps-RestartsAt_example = run_steps-RestartsAt to_restart started refl

following_steps_after_restart_example :
    (at : RestartsAt to_restart (run_steps to_restart started).0) × (get_following_steps
        (run_steps to_restart started).0.1.current_step
        (configs to_restart)
      ≡ configs at.after)
unfolding run_steps attempt_loop step_once is_true after_command has_failed run_step next_attempt
    cancel_if begin_attempt enter_step attempts_exhausted attempt_succeeded
following_steps_after_restart_example =
    following_steps_after_restart to_restart started ((refl, (refl, tt)), ((refl, tt), (tt, tt)))
      refl

abbrev failed_state : DeploymentState
failed_state = record deployment {
  status = DeployStatus.failed;
  current_step = record first_step { status = StepStatus.failed };
}

retry_step_unknown_example :
    RunsOnly "publish"
      (command "smoke")
      (retry_step "publish" (record idle { current = some failed_state }))
unfolding find_project
retry_step_unknown_example =
    retry_step_unknown "publish" (record idle { current = some failed_state }) failed_state shop
      (command "install" ∷ restart ∷ []) (command "smoke") refl refl refl refl refl
      (refl, (refl, (refl, tt)))

abbrev queued : Run
queued = (record (started.0) { queue = ("shop", "queue") ∷ [] }, deployment)

process_queue-Runs_example :
    Runs shop (process_queue "deploy-2" (run_steps two_commands queued).0.0)
    × ((process_queue "deploy-2" (run_steps two_commands queued).0.0).queue ≡ [])
unfolding run_steps attempt_loop step_once is_true after_command has_failed run_step next_attempt
    cancel_if begin_attempt enter_step attempts_exhausted attempt_succeeded succeed_deployment
    find_project
process_queue-Runs_example =
    process_queue-Runs "deploy-2" two_commands queued (inl refl) refl refl refl refl refl
