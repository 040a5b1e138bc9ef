-- ===== src/Deploy/Commands/Queue.antt =====
-- What becomes of the queue when a run ends.
use shado_cloud.Common.{
  str_eq, String, ◌≡◌, refl, subst, ◌⊎◌, inl, inr, true, false, some, List, ◌∷◌,
}
use shado_cloud.Deploy.State.{DeployStatus, StepConfig, Project, Job, Service}
use shado_cloud.Deploy.Store.{is_running_state, is_running}
use shado_cloud.Deploy.Attempts.{Script, Run}
use shado_cloud.Deploy.Steps.{Outcome, deploy_failed, deploy_succeeded, run_steps}
use shado_cloud.Deploy.Steps.Saved.{IsClosed, IsSaved, run_steps-IsSaved}
use shado_cloud.Deploy.Commands.{
  find_project, open_stream, launch, start_deployment, process_queue, new_deployment, start_enabled,
}

-- A run that has ended, and is not handed over to a restart nor stopped.
abbrev pub HasEnded : Outcome → Type 0
HasEnded o = (o ≡ deploy_succeeded) ⊎ (o ≡ deploy_failed)

closed_success : (r : Run) → IsClosed DeployStatus.success r → is_running r.0 ≡ false
unfolding is_running is_running_state
closed_success r (saved, _, over) =
    let idle : is_running_state (some r.1) ≡ false = rw over refl in rw saved idle

closed_failed : (r : Run) → IsClosed DeployStatus.failed r → is_running r.0 ≡ false
unfolding is_running is_running_state
closed_failed r (saved, _, over) =
    let idle : is_running_state (some r.1) ≡ false = rw over refl in rw saved idle

-- After a run that has ended, the service is not running.
ended_is_idle :
    (steps : List (StepConfig × Script)) (r : Run)
    → HasEnded (run_steps steps r).1
    → is_running (run_steps steps r).0.0 ≡ false
ended_is_idle steps r (inl e) =
    closed_success (run_steps steps r).0
      (subst (λ o. IsSaved o (run_steps steps r).0) e (run_steps-IsSaved steps r))
ended_is_idle steps r (inr e) =
    closed_failed (run_steps steps r).0
      (subst (λ o. IsSaved o (run_steps steps r).0) e (run_steps-IsSaved steps r))

-- A service that runs all steps of a project.
abbrev pub Runs : Project → Service → Type 0
Runs p s =
    (j : Job) × (s.job ≡ some j)
    × (j.steps ≡ p.steps)
    × (j.deployment.project ≡ p.slug)
    × (is_running s ≡ true)

start_enabled-Runs :
    (id by : String) (p : Project) (s : Service) {c : StepConfig} {cs : List StepConfig}
    → str_eq p.work_dir "" ≡ false
    → p.steps ≡ c ∷ cs
    → Runs p (start_enabled id by p s).0 × ((start_enabled id by p s).0.queue ≡ s.queue)
unfolding start_enabled launch new_deployment open_stream is_running is_running_state
start_enabled-Runs id by p s h k = rw (start_enabled, h, k) ((_, refl, refl, refl, refl), refl)

start_deployment-Runs :
    (id slug by : String) (p : Project) (s : Service) {c : StepConfig} {cs : List StepConfig}
    → is_running s ≡ false
    → find_project slug s ≡ some p
    → p.enabled ≡ true
    → str_eq p.work_dir "" ≡ false
    → p.steps ≡ c ∷ cs
    → Runs p (start_deployment id slug by s).0 × ((start_deployment id slug by s).0.queue ≡ s.queue)
unfolding start_deployment
start_deployment-Runs id slug by p s idle found on h k =
    rw (start_deployment, idle, found, on) (start_enabled-Runs id by p s h k)

-- When a run has ended with success or failure, the first entry of the queue, if its project exists,
-- is enabled, has a working directory and has a step, is taken out and its whole pipeline set going.
pub process_queue-Runs :
    (id : String) (steps : List (StepConfig × Script)) (r : Run)
    → {slug by : String} {rest : List (String × String)} {p : Project} {c : StepConfig}
      {cs : List StepConfig}
    → HasEnded (run_steps steps r).1
    → (run_steps steps r).0.0.queue ≡ (slug, by) ∷ rest
    → find_project slug (run_steps steps r).0.0 ≡ some p
    → p.enabled ≡ true
    → str_eq p.work_dir "" ≡ false
    → p.steps ≡ c ∷ cs
    → Runs p (process_queue id (run_steps steps r).0.0)
      × ((process_queue id (run_steps steps r).0.0).queue ≡ rest)
unfolding process_queue is_running find_project
process_queue-Runs id steps r {slug} {by} {rest} {p} ends queued found on h k =
    let s = (run_steps steps r).0.0 in
    rw (process_queue, queued)
      (start_deployment-Runs id slug by p (record s { queue = rest }) (ended_is_idle steps r ends)
        found on h k)
