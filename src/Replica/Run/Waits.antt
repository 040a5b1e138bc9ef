-- ===== src/Replica/Run/Waits.antt =====
-- Every wait for a replica ends: while it lasts a timer is armed, and a timer that fires ends it.
use shado_cloud.Common.{
  str_eq, Bool-cases, choose, Text, String, ◌≡◌, refl, subst, inl, inr, Bool, true, false, ◌&&◌,
  ◌||◌, Option, none, some, List, [], ◌∷◌, arith,
}
use shado_cloud.Replica.Types.{RunStatus, RunState, Phase, Progress}
use shado_cloud.Replica.Run.{
  is_terminal, Timer, no_timer, run_timer, restart_timer, Watched, settle, mark_restarting,
  apply_progress, reconnected, expired, watch, Signal, frame, online, expiry, handle, handle_all,
  rearm, on_replica, step_started, step_done, step_printed, by_phase, is_restarting, give_up,
  by_timer,
}

abbrev is_armed : Timer → Bool
is_armed no_timer = false
is_armed other = true

-- The wait is over, or a timer is armed.
abbrev Ends : Watched → Type 0
Ends w = (is_terminal w.replica.status || is_armed w.timer) ≡ true

settle_ends :
    (status : RunStatus) (reason : Option String) (w : Watched)
    → is_terminal status ≡ true
    → is_terminal (settle status reason w).replica.status ≡ true
unfolding settle
settle_ends status reason w h =
    choose (λ (x : Watched). is_terminal x.replica.status ≡ true) (is_terminal w.replica.status) _ _
      (λ e. e) (λ _. h)

over : (w : Watched) → is_terminal w.replica.status ≡ true → Ends w
over w h = ground arith

settle-Ends :
    (status : RunStatus) (reason : Option String) (w : Watched)
    → is_terminal status ≡ true
    → Ends (settle status reason w)
settle-Ends status reason w h = over (settle status reason w) (settle_ends status reason w h)

rearm_armed : (t : Timer) → is_armed (rearm t) ≡ is_armed t
unfolding rearm
rearm_armed no_timer = refl
rearm_armed run_timer = refl
rearm_armed restart_timer = refl

mark_restarting-Ends : (w : Watched) → Ends w → Ends (mark_restarting w)
unfolding mark_restarting
mark_restarting-Ends w h =
    choose Ends (is_terminal w.replica.status) _ _ (λ _. h)
      (λ e. rw (rearm_armed w.timer) (subst (λ b. (b || is_armed w.timer) ≡ true) e h))

printed-Ends : (o : Option Text) (w : Watched) → Ends w → Ends (on_replica (step_printed o) w)
unfolding on_replica step_printed
printed-Ends none w h = h
printed-Ends (some []) w h = h
printed-Ends (some (c ∷ chunk)) w h = h

by_phase-Ends : (f : Phase) (p : Progress) (w : Watched) → Ends w → Ends (by_phase f p w)
unfolding by_phase on_replica step_started step_done
by_phase-Ends Phase.step_start p w h = h
by_phase-Ends Phase.step_output p w h = printed-Ends p.output w h
by_phase-Ends Phase.step_complete p w h = h
by_phase-Ends Phase.finished p w h =
    choose Ends p.restarting _ _ (λ _. mark_restarting-Ends w h)
      (λ _. settle-Ends _ p.error w (
        choose (λ s. is_terminal s ≡ true) p.ok RunStatus.success RunStatus.failed (λ _. refl)
          (λ _. refl)))

reconnected-Ends : (d i : String) (w : Watched) → Ends w → Ends (reconnected d i w)
unfolding reconnected
reconnected-Ends d i w h =
    choose Ends
      (is_restarting w.replica.status && str_eq w.replica.device_name d && str_eq w.replica.ip i) _
      _ (λ _. settle-Ends RunStatus.success none _ refl) (λ _. h)

by_timer_ends :
    (t : Timer) (q a : String) (w : Watched)
    → (is_terminal w.replica.status || is_armed t) ≡ true
    → is_terminal (by_timer t q a w).replica.status ≡ true
unfolding by_timer give_up
by_timer_ends no_timer q a w h = ground arith
by_timer_ends run_timer q a w h = settle_ends RunStatus.timeout (some q) _ refl
by_timer_ends restart_timer q a w h = settle_ends RunStatus.failed (some a) _ refl

handle-Ends : (run_id : String) (s : Signal) (w : Watched) → Ends w → Ends (handle run_id s w)
unfolding handle apply_progress expired
handle-Ends run_id (frame sender p) w h =
    choose Ends (str_eq p.run_id run_id && str_eq w.replica.id sender) _ _
      (λ _. by_phase-Ends p.phase p w h) (λ _. h)
handle-Ends run_id (online d i) w h = reconnected-Ends d i w h
handle-Ends run_id (expiry q a) w h = over (by_timer w.timer q a w) (by_timer_ends w.timer q a w h)

handle_all-Ends :
    (run_id : String) (ss : List Signal) (w : Watched) → Ends w → Ends (handle_all run_id ss w)
unfolding handle_all
handle_all-Ends run_id [] w h = h
handle_all-Ends run_id (s ∷ ss) w h =
    handle_all-Ends run_id ss (handle run_id s w) (handle-Ends run_id s w h)

watch-Ends : (r : RunState) → Ends (watch r)
unfolding watch
watch-Ends r = elim (Bool-cases (is_terminal r.status)) [
  | inl e ↦ over (watch r) e
  | inr e ↦ rw e (
      choose (λ t. is_armed t ≡ true) (is_restarting r.status) restart_timer run_timer (λ _. refl)
        (λ _. refl))
]

-- Whatever arrives while the master waits for a replica, the timer that fires after it leaves the
-- replica in a terminal status.
pub expired-after-handle_all :
    (run_id : String) (ss : List Signal) (r : RunState) (quiet_note absent_note : String)
    → is_terminal (expired quiet_note absent_note (handle_all run_id ss (watch r))).replica.status
      ≡ true
unfolding expired
expired-after-handle_all run_id ss r q a =
    let w = handle_all run_id ss (watch r) in
    by_timer_ends w.timer q a w (handle_all-Ends run_id ss (watch r) (watch-Ends r))
