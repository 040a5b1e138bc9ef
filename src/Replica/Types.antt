-- ===== src/Replica/Types.antt =====
-- replication/replica-link.constants.ts and the types of admin/replica-propagation.service.ts.
-- Timestamps are left out.
use shado_cloud.Common.{Text, ℕ, String, Bool, Option, List}

pub data LinkRole : Type 0 where
  app updater : LinkRole

pub record ImageRef : Type 0 where
  pub service : String
  pub image_id : String
  pub tar_sha256 : String
  pub size : ℕ
  pub artifact : String
  pub health_port : Option ℕ
  pub health_path : Option String

pub data RunStatus : Type 0 where
  dispatching rejected unreachable running restarting success failed timeout : RunStatus

pub data RunStepStatus : Type 0 where
  pending running success failed : RunStepStatus

pub record RunStep : Type 0 where
  pub step : String
  pub name : String
  pub status : RunStepStatus
  pub error : Option String

pub record RunState : Type 0 where
  pub id : String
  pub device_name : String
  pub ip : String
  pub status : RunStatus
  pub reason : Option String
  pub work_dir : Option String
  pub steps : List RunStep
  pub current_step : Option String
  pub output : Text

pub record PropagationState : Type 0 where
  pub run_id : String
  pub replicas : List RunState

pub record DeployAck : Type 0 where
  pub accepted : Bool
  pub reason : Option String
  pub work_dir : Option String
  pub steps : Option (List (String × String))

pub data Phase : Type 0 where
  step_start step_output step_complete finished : Phase

pub record Progress : Type 0 where
  pub run_id : String
  pub phase : Phase
  pub step : Option String
  pub status : Option RunStepStatus
  pub output : Option Text
  pub error : Option String
  pub ok : Bool
  pub restarting : Bool

pub record LinkInfo : Type 0 where
  pub id : String
  pub ip : String
  pub device_name : String
  pub mirror_dirs : ℕ
  pub connected_at : ℕ
  pub role : LinkRole
