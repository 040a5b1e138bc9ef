-- ===== src/Replica/Run.antt =====
-- admin/replica-propagation.service.ts: the life of one replica in a run of `propagate`: the answer to
-- the order, the progress frames, the reconnection and the timer. A state carries what its replica's
-- watcher holds: whether its wait is over, and which timer is armed. The callbacks, which only
-- report, and the time stamps are left out.
pub mod Ended
pub mod Success
pub mod Waits
pub mod Output
mod Tests
use shado_cloud.Common.{
  str_eq, ltb, if◌then◌else◌, length, drop, Text, codes, ℕ, ◌-◌, String, Bool, true, false, not,
  ◌&&◌, Option, none, some, List, [], ◌∷◌, ◌++◌, map,
}
use shado_cloud.Replica.Types.{
  RunStatus, rejected, unreachable, success, failed, timeout, RunStepStatus, RunStep, RunState,
  DeployAck, Phase, Progress, LinkInfo,
}

-- `TERMINAL_STATUSES.has(status)`
unfoldable pub is_terminal : RunStatus → Bool
is_terminal success = true
is_terminal failed = true
is_terminal rejected = true
is_terminal unreachable = true
is_terminal timeout = true
is_terminal other = false

pub data Timer : Type 0 where
  no_timer run_timer restart_timer : Timer

pub record Watched : Type 0 where
  pub replica : RunState
  pub timer : Timer

abbrev pub max_output_chars : ℕ
max_output_chars = 65536

abbrev pub trimmed_note : Text
trimmed_note = 0x2026 ∷ codes "[earlier output trimmed]" ++ 0x2026 ∷ 10 ∷ []

-- `s.slice(-n)`
unfoldable pub last_units : ℕ → Text → Text
last_units n s = drop (length s - n) s

-- `appendOutput`
unfoldable pub append_output : Text → RunState → RunState
unfolding last_units
append_output chunk r =
    let grown = r.output ++ chunk in
    record r {
      output =
          if ltb max_output_chars (length grown)
          then trimmed_note ++ last_units max_output_chars grown
          else grown;
    }

-- `if (reason) replica.reason = reason`
keep_reason : Option String → Option String → Option String
keep_reason none old = old
keep_reason (some r) old = if str_eq r "" then old else some r

-- `settle`; the wait of a replica that is watched ends with it.
unfoldable pub settle : RunStatus → Option String → Watched → Watched
unfolding is_terminal keep_reason
settle status reason w = if is_terminal w.replica.status then w else record {
  replica = record (w.replica) {
    status = status;
    reason = keep_reason reason w.replica.reason;
    current_step = none;
  };
  timer = no_timer;
}

abbrev pub waiting_note : Text
waiting_note =
    codes "Waiting for the replica to reconnect to confirm the restart" ++ 0x2026 ∷ 10 ∷ []

-- `rearmForRestart`, where the replica has a watcher.
rearm : Timer → Timer
rearm no_timer = no_timer
rearm other = restart_timer

unfoldable pub mark_restarting : Watched → Watched
unfolding is_terminal append_output rearm
mark_restarting w = if is_terminal w.replica.status then w else record {
  replica =
      append_output waiting_note
        (record (w.replica) { status = RunStatus.restarting; current_step = none });
  timer = rearm w.timer;
}

step_id : Option String → String
step_id none = "unknown"
step_id (some id) = id

-- `findOrCreateStep`, with what is then done to the step.
unfoldable pub update_step : String → (RunStep → RunStep) → List RunStep → List RunStep
update_step id f [] =
    f (record { step = id; name = id; status = RunStepStatus.pending; error = none }) ∷ []
update_step id f (s ∷ ss) =
    let rest = update_step id f ss in if str_eq s.step id then f s ∷ ss else s ∷ rest

mark_started : RunStep → RunStep
mark_started s = record s { status = RunStepStatus.running }

-- `progress.status === "failed" ? "failed" : "success"`
reported : Option RunStepStatus → RunStepStatus
reported (some RunStepStatus.failed) = RunStepStatus.failed
reported other = RunStepStatus.success

mark_completed : Option RunStepStatus → Option String → RunStep → RunStep
unfolding reported
mark_completed status error s = record s { status = reported status; error = error }

on_replica : (RunState → RunState) → Watched → Watched
on_replica f w = record w { replica = f w.replica }

step_started : Progress → RunState → RunState
unfolding update_step step_id mark_started
step_started p r = record r {
  steps = update_step (step_id p.step) mark_started r.steps;
  current_step = some (step_id p.step);
}

step_done : Progress → RunState → RunState
unfolding update_step step_id mark_completed
step_done p r = record r {
  steps = update_step (step_id p.step) (mark_completed p.status p.error) r.steps;
}

step_printed : Option Text → RunState → RunState
unfolding append_output
step_printed none r = r
step_printed (some []) r = r
step_printed (some (c ∷ chunk)) r = append_output (c ∷ chunk) r

by_phase : Phase → Progress → Watched → Watched
unfolding settle mark_restarting on_replica step_started step_done step_printed
by_phase Phase.step_start p w = on_replica (step_started p) w
by_phase Phase.step_output p w = on_replica (step_printed p.output) w
by_phase Phase.step_complete p w = on_replica (step_done p) w
by_phase Phase.finished p w =
    if p.restarting
    then mark_restarting w
    else settle (if p.ok then RunStatus.success else RunStatus.failed) p.error w

-- `applyProgress`
unfoldable pub apply_progress : Progress → Watched → Watched
unfolding by_phase
apply_progress p w = by_phase p.phase p w

is_restarting : RunStatus → Bool
is_restarting RunStatus.restarting = true
is_restarting other = false

abbrev pub online_note : Text
online_note = codes "Replica reconnected to the replica-link after restart." ++ 10 ∷ []

-- The subscription to `replicaOnline$`.
unfoldable pub reconnected : (device_name ip : String) → Watched → Watched
unfolding is_restarting append_output settle on_replica
reconnected device_name ip w =
    if is_restarting w.replica.status
      && str_eq w.replica.device_name device_name
      && str_eq w.replica.ip ip
    then settle RunStatus.success none (on_replica (append_output online_note) w)
    else w

give_up : RunStatus → String → Watched → Watched
unfolding append_output settle on_replica
give_up status note w =
    settle status (some note) (on_replica (append_output (codes note ++ b'.' ∷ 10 ∷ [])) w)

by_timer : Timer → (quiet_note absent_note : String) → Watched → Watched
unfolding give_up
by_timer no_timer quiet_note absent_note w = w
by_timer run_timer quiet_note absent_note w = give_up RunStatus.timeout quiet_note w
by_timer restart_timer quiet_note absent_note w = give_up RunStatus.failed absent_note w

-- The timer fires, with the messages of the two limits; a wait that is over has none.
unfoldable pub expired : (quiet_note absent_note : String) → Watched → Watched
unfolding by_timer
expired quiet_note absent_note w = by_timer w.timer quiet_note absent_note w

-- The wait of an active replica: lines 316 to 351.
unfoldable pub watch : RunState → Watched
unfolding is_terminal is_restarting
watch r = record {
  replica = r;
  timer =
      if is_terminal r.status
      then no_timer
      else if is_restarting r.status
      then restart_timer
      else run_timer;
}

pub data Signal : Type 0 where
  -- A frame, with the id of the replica that sent it.
  frame : (sender : String) → Progress → Signal
  online : (device_name ip : String) → Signal
  expiry : (quiet_note absent_note : String) → Signal

-- One signal in the run `run_id`: a frame of another run, or of another replica, is left alone. The
-- frames that came before the answer to the order are replayed after it, by the same rule.
unfoldable pub handle : (run_id : String) → Signal → Watched → Watched
unfolding apply_progress reconnected expired
handle run_id (frame sender p) w =
    if str_eq p.run_id run_id && str_eq w.replica.id sender then apply_progress p w else w
handle run_id (online device_name ip) w = reconnected device_name ip w
handle run_id (expiry quiet_note absent_note) w = expired quiet_note absent_note w

unfoldable pub handle_all : (run_id : String) → List Signal → Watched → Watched
unfolding handle
handle_all run_id [] w = w
handle_all run_id (s ∷ ss) w = handle_all run_id ss (handle run_id s w)

-- Lines 258 to 265.
unanswered : LinkInfo → RunState
unanswered info = record {
  id = info.id;
  device_name = info.device_name;
  ip = info.ip;
  status = RunStatus.dispatching;
  reason = none;
  work_dir = none;
  steps = [];
  current_step = none;
  output = [];
}

or_text : Option String → String → Option String
or_text none t = some t
or_text (some s) t = some s

pending_step : String × String → RunStep
pending_step (step, name) = record {
  step = step;
  name = name;
  status = RunStepStatus.pending;
  error = none;
}

pending_steps : Option (List (String × String)) → List RunStep
pending_steps none = []
pending_steps (some ss) = map pending_step ss

-- Lines 257 to 292: a replica's state after its answer to the order, or the lack of one.
unfoldable pub answered : LinkInfo → Option String → Option DeployAck → RunState
unfolding unanswered or_text pending_steps pending_step
answered info error none = record (unanswered info) {
  status = RunStatus.unreachable;
  reason = or_text error "No response to the deployment order";
}
answered info error (some ack) =
    if not ack.accepted
    then record (unanswered info) {
      status = RunStatus.rejected;
      reason = or_text ack.reason "Refused the deployment order";
    }
    else record (unanswered info) {
      status = RunStatus.running;
      work_dir = ack.work_dir;
      steps = pending_steps ack.steps;
    }
