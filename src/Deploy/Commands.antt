-- ===== src/Deploy/Commands.antt =====
-- admin/deployment.service.ts: the commands of the service: `startDeployment`, `retryStep`,
-- `startPropagation`, `enqueue`, `processQueue`.
pub mod Resume
pub mod Queue
use shado_cloud.Common.{
  str_eq, if◌then◌else◌, drop, find?, keep, find_index, last_only, ℕ, ◌+◌, String, Bool, true,
  false, not, Option, none, some, List, [], ◌∷◌, ◌++◌,
}
use shado_cloud.Replica.Types.{ImageRef}
use shado_cloud.Deploy.State.{
  StepStatus, DeployStatus, StepState, DeploymentState, StepConfig, Project, Service,
}
use shado_cloud.Deploy.Store.{is_running}
use shado_cloud.Deploy.Attempts.{max_attempts}

-- The state after a command, with the message of the error that it threw.
abbrev pub Reply : Type 0
Reply = Service × Option String

busy : String
busy = "Deployment already in progress"

has_slug : String → Project → Bool
has_slug slug p = str_eq p.slug slug

-- `projectRepo.findOneBy({ slug })`
unfoldable pub find_project : String → Service → Option Project
unfolding has_slug
find_project slug s = find? (has_slug slug) s.projects

has_step : String → StepConfig → Bool
has_step step c = str_eq c.step step

steps_from : Option ℕ → Bool → List StepConfig → List StepConfig
steps_from none done steps = last_only steps
steps_from (some i) done steps = drop (if done then i + 1 else i) steps

is_success : StepStatus → Bool
is_success StepStatus.success = true
is_success _ = false

-- A step that the project lacks has index -1, and `slice(-1)` is the last step.
unfoldable pub get_following_steps : StepState → List StepConfig → List StepConfig
unfolding has_step steps_from is_success
get_following_steps st steps =
    steps_from (find_index (has_step st.step) steps) (is_success st.status) steps

unfoldable pub open_stream : Service → Service
open_stream s = record s {
  subject = some (record { events = []; completed = false });
  cancelled = false;
}

-- A fresh step state; 0 stands for an attempt count that the source leaves out.
unfoldable pub new_step : String → StepStatus → ℕ → ℕ → StepState
new_step step status attempt most = record {
  step = step;
  status = status;
  output = [];
  error = none;
  attempt = attempt;
  max_attempts = most;
  propagation = none;
}

-- The deployment that `startDeployment` and `startPropagation` set up; `id` holds the time.
new_deployment : String → String → StepState → String → Option (List ImageRef) → DeploymentState
new_deployment id slug st triggered_by images = record {
  id = id;
  project = slug;
  status = DeployStatus.running;
  current_step = st;
  completed_steps = [];
  triggered_by = triggered_by;
  images = images;
}

-- `saveState` to the current entry, and the run set going.
unfoldable pub launch : Bool → List StepConfig → DeploymentState → Service → Service
launch gated steps d s = record s {
  current = some d;
  job = some (record { gated = gated; steps = steps; deployment = d });
}

-- Lines 713 to 743; an empty pipeline throws when its first step is read.
start_enabled : String → String → Project → Service → Reply
unfolding open_stream new_step new_deployment launch
start_enabled id triggered_by p s =
    if str_eq p.work_dir "" then (s, some "Working directory not configured") else elim p.steps [
      | [] ↦ (open_stream s, some "Cannot read properties of undefined")
      | first ∷ more ↦
          let st = record (new_step first.step StepStatus.pending 1 3) { error = some "" } in
          let d = new_deployment id p.slug st triggered_by none in
          (launch true (first ∷ more) d (open_stream s), none)
    ]

unfoldable pub start_deployment : String → String → String → Service → Reply
unfolding is_running find_project start_enabled busy
start_deployment id slug triggered_by s =
    if is_running s then (s, some busy) else elim (find_project slug s) [
      | none ↦ (s, some "Project not found")
      | some p ↦
          if p.enabled then start_enabled id triggered_by p s else (s, some "Project is disabled")
    ]

is_failed : DeploymentState → Bool
is_failed d = elim d.status [ DeployStatus.failed ↦ true | _ ↦ false ]

step_is_failed : DeploymentState → Bool
step_is_failed d = elim d.current_step.status [ StepStatus.failed ↦ true | _ ↦ false ]

-- Lines 688 to 701.
resume_failed : String → DeploymentState → Service → Reply
unfolding open_stream new_step launch find_project get_following_steps
resume_failed step d s =
    let st = new_step step StepStatus.pending 0 0 in
    let d' = record d { current_step = st; status = DeployStatus.running } in
    let s' = open_stream (record s { current = some d' }) in
    elim (find_project d.project s') [
      | none ↦ (s', some "Project not found")
      | some p ↦ (launch false (get_following_steps st p.steps) d' s', none)
    ]

unfoldable pub retry_step : String → Service → Reply
unfolding is_running resume_failed is_failed step_is_failed busy
retry_step step s = if is_running s then (s, some busy) else elim s.current [
  | none ↦ (s, some "No failed deployment to retry")
  | some d ↦
      if not (is_failed d)
      then (s, some "No failed deployment to retry")
      else if not (step_is_failed d)
      then (s, some "Step not found or not failed")
      else resume_failed step d s
]

staged_by : Option DeploymentState → List ImageRef
staged_by none = []
staged_by (some d) = elim d.images [ none ↦ [] | some images ↦ images ]

-- `a ?? b`
or_else : Option DeploymentState → Option DeploymentState → Option DeploymentState
or_else none b = b
or_else (some a) b = some a

-- `availableStagedImages`; `staged` says which artifacts are still on disk.
unfoldable pub available_staged_images : (String → Bool) → Service → List ImageRef
unfolding staged_by or_else
available_staged_images staged s =
    keep (λ i. staged i.artifact) (staged_by (or_else s.current s.last))

-- Lines 814 to 858.
propagate_with : String → String → Project → StepConfig → Option (List ImageRef) → Service → Service
unfolding open_stream new_step new_deployment launch
propagate_with id triggered_by p cfg images s =
    let cfg' = record cfg {
      skip = false;
      build_image = elim images [ none ↦ cfg.build_image | some is ↦ some false ];
    } in
    let st = new_step cfg.step StepStatus.pending 1 1 in
    launch true (cfg' ∷ []) (new_deployment id p.slug st triggered_by images) (open_stream s)

propagate_project : (String → Bool) → String → String → Bool → Project → Service → Reply
unfolding propagate_with available_staged_images
propagate_project staged id triggered_by reuse p s =
    elim (find? (λ c. c.propagate_to_replicas) p.steps) [
      | none ↦ (s, some "Project has no propagation step to run")
      | some cfg ↦
          if str_eq p.work_dir ""
          then (s, some "Working directory not configured")
          else if not reuse
          then (propagate_with id triggered_by p cfg none s, none)
          else elim (available_staged_images staged s) [
            | [] ↦ (s, some "No image from a previous run is still staged on this host")
            | i ∷ is ↦ (propagate_with id triggered_by p cfg (some (i ∷ is)) s, none)
          ]
    ]

unfoldable pub start_propagation :
    (String → Bool) → String → String → String → Bool → Service → Reply
unfolding is_running find_project propagate_project busy
start_propagation staged id slug triggered_by reuse s =
    if is_running s then (s, some busy) else elim (find_project slug s) [
      | none ↦ (s, some "Project not found")
      | some p ↦
          if p.enabled
          then propagate_project staged id triggered_by reuse p s
          else (s, some "Project is disabled")
    ]

unfoldable pub enqueue : String → String → Service → Service
enqueue slug triggered_by s = record s { queue = s.queue ++ (slug, triggered_by) ∷ [] }

-- An entry that cannot be started is logged and lost.
unfoldable pub process_queue : String → Service → Service
unfolding start_deployment
process_queue id s = elim s.queue [
  | [] ↦ s
  | (slug, triggered_by) ∷ rest ↦
      (start_deployment id slug triggered_by (record s { queue = rest })).0
]
