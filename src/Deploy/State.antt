-- ===== src/Deploy/State.antt =====
-- The state of the deployment service (admin/deployment.service.ts): step and deployment states, the
-- event stream, the two Redis entries and the queue. A deployment that is running is a value that
-- the run carries, and each Redis entry is a copy of it: `JSON.stringify` on the way in.
-- Timestamps are left out, since no branch of the service reads one.
use shado_cloud.Common.{Text, ℕ, String, Bool, Option, List}
use shado_cloud.Replica.Types.{ImageRef, RunState, PropagationState}

pub data StepStatus : Type 0 where
  pending running success failed skipped : StepStatus

pub data DeployStatus : Type 0 where
  running success failed : DeployStatus

-- One chunk of a step's output.
pub data Line : Type 0 where
  skipped_note merged_note : Line
  restart_initiated : (cmd : String) (args : List String) → Line
  restart_sent : Line
  retry_attempt attempt_failed_at : ℕ → Line
  attempt_error : String → Line
  command_line : (cmd : String) (args : List String) → Line
  pwd_line process_output : String → Line
  resending : ℕ → Line
  resent_image : (service image_id : String) → (size : ℕ) → Line
  blank continuing_note : Line
  from_source_note clone_removed : Line

pub record StepState : Type 0 where
  pub step : String
  pub status : StepStatus
  pub output : List Line
  pub error : Option String
  pub attempt : ℕ
  pub max_attempts : ℕ
  pub propagation : Option PropagationState

pub record DeploymentState : Type 0 where
  pub id : String
  pub project : String
  pub status : DeployStatus
  pub current_step : StepState
  pub completed_steps : List (String × StepState)
  pub triggered_by : String
  pub images : Option (List ImageRef)

pub data Event : Type 0 where
  step_start : String → Event
  step_output : String → Line → Event
  step_complete : String → StepStatus → Option String → Event
  deployment_complete : DeploymentState → Event
  replica_dispatch : String → PropagationState → Event
  replica_update : String → RunState → Event
  replica_output : (step replica_id : String) → Text → Event
  replica_done : String → PropagationState → Event
  replica_image_staged : String → List ImageRef → Event

-- An rxjs `Subject`: after `complete`, `next` does nothing.
pub record Stream : Type 0 where
  pub events : List Event
  pub completed : Bool

pub record StepConfig : Type 0 where
  pub step : String
  pub name : String
  pub cmd : String
  pub args : List String
  pub triggers_restart : Bool
  pub skip : Bool
  pub require_all_replicas : Bool
  pub propagate_to_replicas : Bool
  pub build_image : Option Bool

pub record Project : Type 0 where
  pub slug : String
  pub work_dir : String
  pub enabled : Bool
  pub steps : List StepConfig

-- An email that was sent: the project and the status in its subject.
pub data Email : Type 0 where
  email : String → DeployStatus → Email

-- A run that `void this.runDeployment(...)` or `void this.runSteps(...)` has set going.
pub record Job : Type 0 where
  pub gated : Bool
  pub steps : List StepConfig
  pub deployment : DeploymentState

pub record Service : Type 0 where
  pub subject : Option Stream
  pub has_process : Bool
  pub cancelled : Bool
  -- deployment:current, deployment:last and deployment:queue in Redis
  pub current : Option DeploymentState
  pub last : Option DeploymentState
  pub queue : List (String × String)
  pub projects : List Project
  -- the feature flags enable_pipeline_deployment and allow_deployment_email_sending
  pub pipeline_enabled : Bool
  pub emails_enabled : Bool
  pub emails : List Email
  pub job : Option Job
