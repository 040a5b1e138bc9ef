-- ===== src/Deploy/Attempts.antt =====
-- admin/deployment.service.ts: `runStep` and the attempts of a command step in `runSteps`. What the
-- processes and the replicas do, and when a cancel request arrives, comes with each step as its
-- script.
pub mod Retries
pub mod Recorded
use shado_cloud.Auth.Decimal.{print_nat}
use shado_cloud.Common.{
  str_append, ltb, if◌then◌else◌, insert, Result, Text, ℕ, zero, suc, ◌+◌, ◌-◌, String, Bool, true,
  false, Option, none, some, List, [], ◌∷◌, ◌++◌, map,
}
use shado_cloud.Replica.Types.{ImageRef, RunState, PropagationState}
use shado_cloud.Deploy.State.{
  StepStatus, Line, retry_attempt, attempt_error, command_line, pwd_line, process_output,
  DeploymentState, Event, StepConfig, Service,
}
use shado_cloud.Deploy.Store.{emit, save_current, cancel_if}

-- How `runStep` ends: the process closes with a code (`none` is `null`, a death by signal), or
-- cannot be spawned.
pub data ProcessEnd : Type 0 where
  closed : Option ℕ → ProcessEnd
  spawn_error : String → ProcessEnd

pub record Attempt : Type 0 where
  pub actual_cwd : String
  pub printed : List String
  pub process_end : ProcessEnd
  -- A cancel request arrives while the process runs, or in the two seconds before the next attempt.
  pub cancel_in_run : Bool
  pub cancel_in_wait : Bool

-- What happens while a build or a propagation is awaited: a line for the log, the callbacks of
-- `propagate`, or a cancel request. A callback of a replica comes with what the propagation's state,
-- one object that changes, holds by then; `none` if the callback has not handed it over yet.
pub data Meanwhile : Type 0 where
  logged : String → Meanwhile
  dispatched : PropagationState → Meanwhile
  replica_changed : RunState → Option PropagationState → Meanwhile
  -- The replica, and its text; the flag says that the two seconds since the last save are over.
  replica_printed : String → Text → Option PropagationState → Bool → Meanwhile
  cancel_arrives : Meanwhile

pub record Script : Type 0 where
  pub attempts : ℕ → Attempt
  -- `buildReplicaImages`, and `replicaPropagation.propagate`
  pub in_build : List Meanwhile
  pub built : Result String (List ImageRef)
  pub cloned : Bool
  pub in_propagation : List Meanwhile
  pub propagated : Result String PropagationState

digit_text : ℕ → List String → String
digit_text n [] = ""
digit_text zero (d ∷ ds) = d
digit_text (suc n) (d ∷ ds) = digit_text n ds

abbrev digit_texts : List String
digit_texts = "0" ∷ "1" ∷ "2" ∷ "3" ∷ "4" ∷ "5" ∷ "6" ∷ "7" ∷ "8" ∷ "9" ∷ []

with_digits : String → Text → String
unfolding digit_text
with_digits s [] = s
with_digits s (c ∷ cs) = with_digits (str_append s (digit_text (c - 48) digit_texts)) cs

-- `Process exited with code ${code}`
unfoldable pub exit_message : ℕ → String
unfolding with_digits print_nat
exit_message code = with_digits "Process exited with code " (print_nat code)

-- The promise of `runStep`: `code === 0 || code === null` resolves.
unfoldable pub step_error : ProcessEnd → Option String
unfolding exit_message
step_error (closed none) = none
step_error (closed (some zero)) = none
step_error (closed (some (suc n))) = some (exit_message (suc n))
step_error (spawn_error e) = some e

unfoldable pub add_output : Line → DeploymentState → DeploymentState
add_output l d = record d {
  current_step = record (d.current_step) { output = d.current_step.output ++ l ∷ [] };
}

unfoldable pub set_step : StepStatus → Option String → DeploymentState → DeploymentState
set_step status error d = record d {
  current_step = record (d.current_step) { status = status; error = error };
}

-- `deployment.completedSteps[step] = { ...stepState }`
unfoldable pub record_step : String → DeploymentState → DeploymentState
unfolding insert
record_step step d = record d { completed_steps = insert step d.current_step d.completed_steps }

-- The state of a run: the service and the deployment that the run holds.
abbrev pub Run : Type 0
Run = Service × DeploymentState

-- `stepState.output += line` with its `step_output` event.
unfoldable pub log_line : String → Line → Run → Run
unfolding add_output emit
log_line step l (s, d) = (emit (Event.step_output step l) s, add_output l d)

unfoldable pub log_lines : String → List Line → Run → Run
unfolding log_line
log_lines step [] r = r
log_lines step (l ∷ ls) r = log_lines step ls (log_line step l r)

-- The header lines of `runStep`, and what the process prints.
abbrev pub step_lines : StepConfig → Attempt → List Line
step_lines cfg att =
    command_line cfg.cmd cfg.args ∷ pwd_line att.actual_cwd ∷ map process_output att.printed

-- `runStep`: the header lines, then the output of the process, then its end.
unfoldable pub run_step : StepConfig → Attempt → Run → Run × Option String
unfolding log_lines step_error
run_step cfg att r =
    let (s, d) = log_lines cfg.step (step_lines cfg att) r in
    let s' = cancel_if att.cancel_in_run (record s { has_process = true }) in
    ((record s' { has_process = false }, d), step_error att.process_end)

unfoldable pub max_attempts : ℕ
max_attempts = 3

-- Lines 953 to 961: the step is marked running, the retry is announced, and the state is saved.
unfoldable pub begin_attempt : StepConfig → ℕ → Run → Run
unfolding log_line set_step save_current emit
begin_attempt cfg n (s, d) =
    let d' =
      set_step StepStatus.running none
        (record d { current_step = record (d.current_step) { attempt = n; max_attempts = 3 } }) in
    let (s1, d1) = if ltb 1 n then log_line cfg.step (retry_attempt n) (s, d') else (s, d') in
    (emit (Event.step_start cfg.step) (save_current d1 s1), d1)

-- Lines 965 to 969.
unfoldable pub attempt_succeeded : StepConfig → Run → Run
unfolding set_step record_step save_current emit
attempt_succeeded cfg (s, d) =
    let d' = record_step cfg.step (set_step StepStatus.success d.current_step.error d) in
    (emit (Event.step_complete cfg.step StepStatus.success none) (save_current d' s), d')

-- Lines 979 to 982. Nothing is saved here.
unfoldable pub attempts_exhausted : StepConfig → String → Run → Run
unfolding set_step record_step emit
attempts_exhausted cfg e (s, d) =
    let d' = record_step cfg.step (set_step StepStatus.failed (some e) d) in
    (emit (Event.step_complete cfg.step StepStatus.failed (some e)) s, d')

-- Lines 972 to 977: the error is noted, the attempt is counted and two seconds pass.
unfoldable pub next_attempt : StepConfig → ℕ → String → Bool → Run → Run
unfolding set_step log_line
next_attempt cfg n e cancel_in_wait (s, d) =
    let (s1, d1) =
      log_line cfg.step (attempt_error e) (s, set_step d.current_step.status (some e) d) in
    (
      cancel_if cancel_in_wait s1,
      record d1 { current_step = record (d1.current_step) { attempt = n + 1 } },
    )

-- After a failed attempt `n` that is not the last: the `while` tests `cancelled` again.
unfoldable pub retry_unless : Run → (Run → Run) → Run
retry_unless r go_on = let again = go_on r in if r.0.cancelled then r else again

-- Lines 963 to 985, on the result of attempt `n`.
unfoldable pub conclude_attempt : ℕ → StepConfig → Bool → Run × Option String → (Run → Run) → Run
unfolding retry_unless max_attempts
conclude_attempt n cfg cancel_in_wait (r, none) go_on = attempt_succeeded cfg r
conclude_attempt n cfg cancel_in_wait (r, some e) go_on =
    if ltb n max_attempts
    then retry_unless (next_attempt cfg n e cancel_in_wait r) go_on
    else attempts_exhausted cfg e r

-- The `while` of line 952 with `left` attempts to go, the next one being attempt `n`.
unfoldable pub attempt_loop : (left n : ℕ) → StepConfig → (ℕ → Attempt) → Run → Run
unfolding conclude_attempt
attempt_loop zero n cfg att r = r
attempt_loop (suc left) n cfg att r =
    conclude_attempt n cfg (att n).cancel_in_wait (run_step cfg (att n) (begin_attempt cfg n r))
      (attempt_loop left (suc n) cfg att)
