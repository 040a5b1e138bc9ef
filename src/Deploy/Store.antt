-- ===== src/Deploy/Store.antt =====
-- admin/deployment.service.ts: the event stream, the entries in Redis, the emails, and
-- `cancelDeployment`, which works on the copy in Redis.
use mathlib.Core.Option
use shado_cloud.Common.{
  if◌then◌else◌, Result, ok, err, String, Bool, true, false, Option, none, some, [], ◌∷◌, ◌++◌,
}
use shado_cloud.Deploy.State.{
  StepStatus, DeployStatus, DeploymentState, Event, deployment_complete, Stream, email, Service,
}

unfoldable pub emit_to : Event → Option Stream → Option Stream
emit_to e none = none
emit_to e (some b) = if b.completed then some b else some (record b { events = b.events ++ e ∷ [] })

unfoldable pub emit : Event → Service → Service
unfolding emit_to
emit e s = record s { subject = emit_to e s.subject }

close_stream : Stream → Stream
close_stream b = record b { completed = true }

-- `this.deploymentSubject?.complete()`
unfoldable pub complete : Service → Service
unfolding close_stream
complete s = record s { subject = Option.map close_stream s.subject }

-- `saveState(d, REDIS_KEY_CURRENT)` and `saveState(d, REDIS_KEY_LAST)`
unfoldable pub save_current : DeploymentState → Service → Service
save_current d s = record s { current = some d }

unfoldable pub save_last : DeploymentState → Service → Service
save_last d s = record s { last = some d }

-- `sendDeploymentEmail`, where the mail server answers.
unfoldable pub send_email : String → DeployStatus → Service → Service
send_email project status s =
    if s.emails_enabled then record s { emails = s.emails ++ email project status ∷ [] } else s

unfoldable pub is_running_state : Option DeploymentState → Bool
is_running_state none = false
is_running_state (some d) = elim d.status [ DeployStatus.running ↦ true | _ ↦ false ]

-- `isRunning()`
unfoldable pub is_running : Service → Bool
unfolding is_running_state
is_running s = is_running_state s.current

-- What `cancelDeployment` makes of the copy that it reads from Redis.
unfoldable pub cancelled_copy : DeploymentState → DeploymentState
cancelled_copy d = record d {
  status = DeployStatus.failed;
  current_step = record (d.current_step) {
    status = StepStatus.failed;
    error = some "Cancelled by user";
  };
}

unfoldable pub close_cancelled : DeploymentState → Service → Service
unfolding emit complete save_current save_last
close_cancelled d s = complete (emit (deployment_complete d) (save_last d (save_current d s)))

unfoldable pub cancel : Service → Result String Service
unfolding close_cancelled cancelled_copy is_running
cancel s = elim s.current [
  | none ↦ err "No deployment in progress"
  | some d ↦
      if is_running s
      then ok
          (close_cancelled (cancelled_copy d) (record s { cancelled = true; has_process = false }))
      else err "No deployment in progress"
]

-- A cancel request that arrives while the run waits; a refused one changes nothing.
unfoldable pub cancel_if : Bool → Service → Service
unfolding cancel
cancel_if false s = s
cancel_if true s = elim (cancel s) [ ok s' ↦ s' | err e ↦ s ]
