-- ===== src/Replica/Run/Ended.antt =====
-- How the run of a replica ends: once, with success only when the replica says so or comes back.
use shado_cloud.Common.{
  str_eq, choose, Text, codes, String, ◌≡◌, refl, ap, ◌∙◌, true, ◌&&◌, Option, none, some, List, [],
  ◌∷◌, ◌++◌,
}
use shado_cloud.Replica.Types.{RunStatus, Phase, Progress}
use shado_cloud.Replica.Run.{
  is_terminal, Timer, no_timer, run_timer, restart_timer, Watched, append_output, settle,
  mark_restarting, apply_progress, online_note, reconnected, expired, Signal, frame, online, expiry,
  handle, handle_all, on_replica, step_started, step_done, step_printed, by_phase, is_restarting,
  give_up, by_timer,
}

-- The status and the reason that a run ended with.
abbrev SameEnd : Watched → Watched → Type 0
SameEnd w w' = (w'.replica.status ≡ w.replica.status) × (w'.replica.reason ≡ w.replica.reason)

settle_ended :
    (status : RunStatus) (reason : Option String) (w : Watched)
    → is_terminal w.replica.status ≡ true
    → settle status reason w ≡ w
unfolding settle
settle_ended status reason w h = rw h refl

-- What leaves the status, the reason and the timer alone.
abbrev Untouched : Watched → Watched → Type 0
Untouched w w' =
    (w'.replica.status ≡ w.replica.status)
    × (w'.replica.reason ≡ w.replica.reason)
    × (w'.timer ≡ w.timer)

printed-Untouched : (o : Option Text) (w : Watched) → Untouched w (on_replica (step_printed o) w)
unfolding step_printed on_replica
printed-Untouched none w = (refl, refl, refl)
printed-Untouched (some []) w = (refl, refl, refl)
printed-Untouched (some (c ∷ chunk)) w = (refl, refl, refl)

mark_restarting_ended : (w : Watched) → is_terminal w.replica.status ≡ true → mark_restarting w ≡ w
unfolding mark_restarting
mark_restarting_ended w h = rw h refl

by_phase_ended :
    (f : Phase) (p : Progress) (w : Watched)
    → is_terminal w.replica.status ≡ true
    → Untouched w (by_phase f p w)
unfolding by_phase on_replica step_started step_done
by_phase_ended Phase.step_start p w h = (refl, refl, refl)
by_phase_ended Phase.step_output p w h = printed-Untouched p.output w
by_phase_ended Phase.step_complete p w h = (refl, refl, refl)
by_phase_ended Phase.finished p w h =
    choose (Untouched w) p.restarting _ _ (λ _. rw (mark_restarting_ended w h) (refl, refl, refl))
      (λ _. rw (settle_ended _ p.error w h) (refl, refl, refl))

reconnected_ended :
    (device_name ip : String) (w : Watched)
    → is_terminal w.replica.status ≡ true
    → Untouched w (reconnected device_name ip w)
unfolding reconnected on_replica
reconnected_ended device_name ip w h =
    choose (Untouched w)
      (is_restarting w.replica.status
        && str_eq w.replica.device_name device_name
        && str_eq w.replica.ip ip)
      _ _
      (λ _.
        let w' = on_replica (append_output online_note) w in
        rw (settle_ended RunStatus.success none w' h) (refl, refl, refl))
      (λ _. (refl, refl, refl))

by_timer_ended :
    (t : Timer) (quiet_note absent_note : String) (w : Watched)
    → is_terminal w.replica.status ≡ true
    → Untouched w (by_timer t quiet_note absent_note w)
unfolding by_timer give_up on_replica
by_timer_ended no_timer q a w h = (refl, refl, refl)
by_timer_ended run_timer q a w h =
    rw
      (settle_ended RunStatus.timeout (some q)
        (on_replica (append_output (codes q ++ b'.' ∷ 10 ∷ [])) w) h)
      (refl, refl, refl)
by_timer_ended restart_timer q a w h =
    rw
      (settle_ended RunStatus.failed (some a)
        (on_replica (append_output (codes a ++ b'.' ∷ 10 ∷ [])) w) h)
      (refl, refl, refl)

handle_ended :
    (run_id : String) (s : Signal) (w : Watched)
    → is_terminal w.replica.status ≡ true
    → Untouched w (handle run_id s w)
unfolding handle apply_progress expired
handle_ended run_id (frame sender p) w h =
    choose (Untouched w) (str_eq p.run_id run_id && str_eq w.replica.id sender) _ _
      (λ _. by_phase_ended p.phase p w h) (λ _. (refl, refl, refl))
handle_ended run_id (online device_name ip) w h = reconnected_ended device_name ip w h
handle_ended run_id (expiry q a) w h = by_timer_ended w.timer q a w h

-- Once a replica has reached a terminal status, no frame, reconnection or timer changes its status or
-- its reason.
pub handle_all_ended :
    (run_id : String) (ss : List Signal) (w : Watched)
    → is_terminal w.replica.status ≡ true
    → ((handle_all run_id ss w).replica.status ≡ w.replica.status)
      × ((handle_all run_id ss w).replica.reason ≡ w.replica.reason)
unfolding handle_all
handle_all_ended run_id [] w h = (refl, refl)
handle_all_ended run_id (s ∷ ss) w h =
    let (status, reason, _) = handle_ended run_id s w h in
    let (status', reason') =
      handle_all_ended run_id ss (handle run_id s w) (ap is_terminal status ∙ h) in
    (status' ∙ status, reason' ∙ reason)
