-- ===== src/Replica/Run/Output.antt =====
-- The log that is kept of a replica stays bounded.
use shado_cloud.Common.{
  str_eq, ltb, choose, length, drop, length-append, length-drop, Text, ℕ, ◌-◌, ◌≤◌, String, ◌&&◌,
  Option, none, some, List, [], ◌∷◌, ◌++◌, arith,
}
use shado_cloud.Replica.Types.{RunStatus, RunState, Phase, Progress}
use shado_cloud.Replica.Run.{
  is_terminal, Timer, no_timer, run_timer, restart_timer, Watched, max_output_chars, trimmed_note,
  last_units, append_output, settle, waiting_note, mark_restarting, apply_progress, online_note,
  reconnected, expired, Signal, frame, online, expiry, handle, handle_all, on_replica, step_started,
  step_done, step_printed, by_phase, is_restarting, give_up, by_timer,
}

-- The limit of the source, and the note that a trimmed log starts with.
abbrev pub output_bound : ℕ
output_bound = 65563

abbrev Bounded : Watched → Type 0
Bounded w = length w.replica.output ≤ output_bound

append_output_bound :
    (chunk : Text) (r : RunState) → length (append_output chunk r).output ≤ output_bound
unfolding append_output last_units
append_output_bound chunk r =
    let grown = r.output ++ chunk in
    choose (λ t. length t ≤ output_bound) (ltb max_output_chars (length grown))
      (trimmed_note ++ drop (length grown - max_output_chars) grown) grown
      (λ _. omega (
        arith,
        length-append trimmed_note (drop (length grown - max_output_chars) grown),
        length-drop (length grown - max_output_chars) grown,
      ))
      (λ e. ground (arith, e))

printed-Bounded :
    (o : Option Text) (w : Watched) → Bounded w → Bounded (on_replica (step_printed o) w)
unfolding on_replica step_printed
printed-Bounded none w h = h
printed-Bounded (some []) w h = h
printed-Bounded (some (c ∷ chunk)) w h = append_output_bound (c ∷ chunk) w.replica

settle-Bounded :
    (status : RunStatus) (reason : Option String) (w : Watched)
    → Bounded w
    → Bounded (settle status reason w)
unfolding settle
settle-Bounded status reason w h =
    choose Bounded (is_terminal w.replica.status) _ _ (λ _. h) (λ _. h)

mark_restarting-Bounded : (w : Watched) → Bounded w → Bounded (mark_restarting w)
unfolding mark_restarting
mark_restarting-Bounded w h =
    choose Bounded (is_terminal w.replica.status) _ _ (λ _. h)
      (λ _.
        append_output_bound waiting_note
          (record (w.replica) { status = RunStatus.restarting; current_step = none }))

by_phase-Bounded : (f : Phase) (p : Progress) (w : Watched) → Bounded w → Bounded (by_phase f p w)
unfolding by_phase on_replica step_started step_done
by_phase-Bounded Phase.step_start p w h = h
by_phase-Bounded Phase.step_output p w h = printed-Bounded p.output w h
by_phase-Bounded Phase.step_complete p w h = h
by_phase-Bounded Phase.finished p w h =
    choose Bounded p.restarting _ _ (λ _. mark_restarting-Bounded w h)
      (λ _. settle-Bounded _ p.error w h)

appended-Bounded : (chunk : Text) (w : Watched) → Bounded (on_replica (append_output chunk) w)
unfolding on_replica
appended-Bounded chunk w = append_output_bound chunk w.replica

reconnected-Bounded : (d i : String) (w : Watched) → Bounded w → Bounded (reconnected d i w)
unfolding reconnected
reconnected-Bounded d i w h =
    choose Bounded
      (is_restarting w.replica.status && str_eq w.replica.device_name d && str_eq w.replica.ip i) _
      _ (λ _. settle-Bounded RunStatus.success none _ (appended-Bounded online_note w)) (λ _. h)

by_timer-Bounded : (t : Timer) (q a : String) (w : Watched) → Bounded w → Bounded (by_timer t q a w)
unfolding by_timer give_up
by_timer-Bounded no_timer q a w h = h
by_timer-Bounded run_timer q a w h =
    settle-Bounded RunStatus.timeout (some q) _ (appended-Bounded _ w)
by_timer-Bounded restart_timer q a w h =
    settle-Bounded RunStatus.failed (some a) _ (appended-Bounded _ w)

handle-Bounded :
    (run_id : String) (s : Signal) (w : Watched) → Bounded w → Bounded (handle run_id s w)
unfolding handle apply_progress expired
handle-Bounded run_id (frame sender p) w h =
    choose Bounded (str_eq p.run_id run_id && str_eq w.replica.id sender) _ _
      (λ _. by_phase-Bounded p.phase p w h) (λ _. h)
handle-Bounded run_id (online d i) w h = reconnected-Bounded d i w h
handle-Bounded run_id (expiry q a) w h = by_timer-Bounded w.timer q a w h

-- Whatever arrives, the log kept of a replica that starts with no more than 65563 units, which is
-- 64 * 1024 and the 27 of the note on trimming, has no more than that.
pub length-handle_all :
    (run_id : String) (ss : List Signal) (w : Watched)
    → length w.replica.output ≤ output_bound
    → length (handle_all run_id ss w).replica.output ≤ output_bound
unfolding handle_all
length-handle_all run_id [] w h = h
length-handle_all run_id (s ∷ ss) w h =
    length-handle_all run_id ss (handle run_id s w) (handle-Bounded run_id s w h)
