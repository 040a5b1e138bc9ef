-- ===== src/Replica/Run/Tests.antt =====
-- A replica that runs its steps, restarts and comes back.
use shado_cloud.Replica.Run.Output.{output_bound, length-handle_all}
use shado_cloud.Common.{
  length, codes, ◌≤◌, ◌≡◌, refl, Bool, true, false, none, some, List, [], ◌∷◌, arith,
}
use shado_cloud.Replica.Types.{app, RunStepStatus, DeployAck, Phase, Progress, LinkInfo}
use shado_cloud.Replica.Run.{
  is_terminal, expired, watch, Signal, frame, online, expiry, handle_all, answered,
}
use shado_cloud.Replica.Run.Ended.{handle_all_ended}
use shado_cloud.Replica.Run.Success.{Cause, answered-Cause}
use shado_cloud.Replica.Run.Waits.{expired-after-handle_all}

abbrev pi : LinkInfo
pi = record {
  id = "s1";
  ip = "10.0.0.2";
  device_name = "pi";
  mirror_dirs = 1;
  connected_at = 5;
  role = app;
}

abbrev agrees : DeployAck
agrees = record {
  accepted = true;
  reason = none;
  work_dir = some "/srv";
  steps = some (("build", "Build") ∷ []);
}

abbrev message : Phase → Bool → Bool → Progress
message phase good restarts = record {
  run_id = "r1";
  phase = phase;
  step = some "build";
  status = some RunStepStatus.success;
  output = some (codes "ok");
  error = none;
  ok = good;
  restarting = restarts;
}

abbrev life : List Signal
life =
    frame "s1" (message Phase.step_start false false)
    ∷ frame "s1" (message Phase.step_output false false)
    ∷ frame "s1" (message Phase.step_complete false false)
    ∷ frame "s1" (message Phase.finished true true)
    ∷ online "pi" "10.0.0.2"
    ∷ expiry "Went quiet" "Did not reconnect"
    ∷ []

answered-Cause_example :
    ((a : DeployAck) × (some agrees ≡ some a) × (a.accepted ≡ true))
    × Cause "r1" life (watch (answered pi none (some agrees)))
unfolding handle_all answered watch
answered-Cause_example = answered-Cause "r1" pi none (some agrees) life refl

handle_all_ended_example :
    ((handle_all "r1" life (watch (answered pi none none))).replica.status
      ≡ (watch (answered pi none none)).replica.status)
    × ((handle_all "r1" life (watch (answered pi none none))).replica.reason
        ≡ (watch (answered pi none none)).replica.reason)
unfolding is_terminal answered watch
handle_all_ended_example = handle_all_ended "r1" life (watch (answered pi none none)) refl

expired-after-handle_all_example :
    is_terminal
      (expired "Went quiet" "Did not reconnect" (
        handle_all "r1"
          (frame "s1" (message Phase.step_start false false) ∷ [])
          (watch (answered pi none (some agrees))))).replica.status
    ≡ true
expired-after-handle_all_example =
    expired-after-handle_all "r1" (frame "s1" (message Phase.step_start false false) ∷ [])
      (answered pi none (some agrees)) "Went quiet" "Did not reconnect"

length-handle_all_example :
    length (handle_all "r1" life (watch (answered pi none (some agrees)))).replica.output
    ≤ output_bound
unfolding answered watch
length-handle_all_example =
    length-handle_all "r1" life (watch (answered pi none (some agrees))) (omega arith)
