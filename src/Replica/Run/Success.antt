-- ===== src/Replica/Run/Success.antt =====
-- Where the success of a replica comes from.
use shado_cloud.Replica.Run.Ended.{handle_all_ended}
use shado_cloud.Common.{
  str_eq, eq_iff, if◌then◌else◌, and-eq-true, choose, Text, codes, String, ◌≡◌, refl, sym, ap, ◌∙◌,
  ◌≢◌, ◌⊎◌, inl, inr, Bool, true, false, not, ◌&&◌, Option, none, some, List, [], ◌∷◌, ◌++◌, arith,
}
use shado_cloud.Replica.Types.{RunStatus, RunState, DeployAck, Phase, Progress, LinkInfo}
use shado_cloud.Replica.Run.{
  is_terminal, Timer, no_timer, run_timer, restart_timer, Watched, append_output, settle,
  mark_restarting, apply_progress, reconnected, expired, watch, Signal, frame, online, expiry,
  handle, handle_all, answered, on_replica, step_started, step_done, step_printed, by_phase,
  is_restarting, give_up, by_timer,
}

-- What makes a replica that is not yet successful so.
abbrev Reports : Phase → Progress → Type 0
Reports f p = (f ≡ Phase.finished) × (p.restarting ≡ false) × (p.ok ≡ true)

abbrev pub Justifies : (run_id : String) → Signal → Watched → Type 0
Justifies run_id (frame sender p) w =
    (p.run_id ≡ run_id)
    × (w.replica.id ≡ sender)
    × (p.phase ≡ Phase.finished)
    × (p.restarting ≡ false)
    × (p.ok ≡ true)
Justifies run_id (online device_name ip) w =
    (w.replica.status ≡ RunStatus.restarting)
    × (w.replica.device_name ≡ device_name)
    × (w.replica.ip ≡ ip)
Justifies run_id (expiry quiet_note absent_note) w = ⊥

abbrev Succeeded : Watched → Type 0
Succeeded w = w.replica.status ≡ RunStatus.success

settle_success :
    (status : RunStatus) (reason : Option String) (w : Watched)
    → Succeeded (settle status reason w)
    → Succeeded w ⊎ (status ≡ RunStatus.success)
unfolding settle
settle_success status reason w =
    choose (λ x. Succeeded x → Succeeded w ⊎ (status ≡ RunStatus.success))
      (is_terminal w.replica.status) _ _ (λ _ h. inl h) (λ _ h. inr h)

mark_restarting_success : (w : Watched) → Succeeded (mark_restarting w) → Succeeded w
unfolding mark_restarting
mark_restarting_success w =
    choose (λ x. Succeeded x → Succeeded w) (is_terminal w.replica.status) _ _ (λ _ h. h)
      (λ _ h. cc)

printed_success :
    (o : Option Text) (w : Watched) → Succeeded (on_replica (step_printed o) w) → Succeeded w
unfolding on_replica step_printed
printed_success none w h = h
printed_success (some []) w h = h
printed_success (some (c ∷ chunk)) w h = h

failed_not_success : RunStatus.failed ≢ RunStatus.success
failed_not_success h = cc

timeout_not_success : RunStatus.timeout ≢ RunStatus.success
timeout_not_success h = cc

by_phase_success :
    (f : Phase) (p : Progress) (w : Watched)
    → Succeeded (by_phase f p w)
    → Succeeded w ⊎ Reports f p
unfolding by_phase on_replica step_started step_done
by_phase_success Phase.step_start p w h = inl h
by_phase_success Phase.step_output p w h = inl (printed_success p.output w h)
by_phase_success Phase.step_complete p w h = inl h
by_phase_success Phase.finished p w h =
    let G : Type 0 = Succeeded w ⊎ Reports Phase.finished p in
    choose (λ x. Succeeded x → G) p.restarting _ _ (λ _ k. inl (mark_restarting_success w k))
      (λ e k.
        elim (settle_success (if p.ok then RunStatus.success else RunStatus.failed) p.error w k) [
          | inl before ↦ inl before
          | inr ends ↦
              choose (λ s. s ≡ RunStatus.success → G) p.ok RunStatus.success RunStatus.failed
                (λ good _. inr (refl, e, good)) (λ _ bad. absurd (failed_not_success bad)) ends
        ])
      h

is_restarting_iff : (s : RunStatus) → is_restarting s ≡ true → s ≡ RunStatus.restarting
unfolding is_restarting
is_restarting_iff RunStatus.restarting h = refl
is_restarting_iff RunStatus.dispatching h = cc
is_restarting_iff RunStatus.rejected h = cc
is_restarting_iff RunStatus.unreachable h = cc
is_restarting_iff RunStatus.running h = cc
is_restarting_iff RunStatus.success h = cc
is_restarting_iff RunStatus.failed h = cc
is_restarting_iff RunStatus.timeout h = cc

matches :
    (run_id : String) (w : Watched) (device_name ip : String)
    → (is_restarting w.replica.status
        && str_eq w.replica.device_name device_name
        && str_eq w.replica.ip ip)
      ≡ true
    → Justifies run_id (online device_name ip) w
matches run_id w device_name ip e =
    let (first, same_ip) =
      and-eq-true (is_restarting w.replica.status && str_eq w.replica.device_name device_name)
        (str_eq w.replica.ip ip) e in
    let (waits, same_device) =
      and-eq-true (is_restarting w.replica.status) (str_eq w.replica.device_name device_name)
        first in
    (
      is_restarting_iff w.replica.status waits,
      (eq_iff w.replica.device_name device_name).0 same_device,
      (eq_iff w.replica.ip ip).0 same_ip,
    )

reconnected_success :
    (run_id device_name ip : String) (w : Watched)
    → Succeeded (reconnected device_name ip w)
    → Succeeded w ⊎ Justifies run_id (online device_name ip) w
unfolding reconnected
reconnected_success run_id device_name ip w =
    choose (λ x. Succeeded x → Succeeded w ⊎ Justifies run_id (online device_name ip) w)
      (is_restarting w.replica.status
        && str_eq w.replica.device_name device_name
        && str_eq w.replica.ip ip)
      _ _ (λ e _. inr (matches run_id w device_name ip e)) (λ _ h. inl h)

give_up_success :
    (status : RunStatus) (note : String) (w : Watched)
    → status ≢ RunStatus.success
    → Succeeded (give_up status note w)
    → Succeeded w
unfolding give_up on_replica
give_up_success status note w d h =
    elim (settle_success status (some note)
      (on_replica (append_output (codes note ++ b'.' ∷ 10 ∷ [])) w) h) [
        | inl before ↦ before
        | inr bad ↦ absurd (d bad)
      ]

by_timer_success :
    (t : Timer) (q a : String) (w : Watched) → Succeeded (by_timer t q a w) → Succeeded w
unfolding by_timer
by_timer_success no_timer q a w h = h
by_timer_success run_timer q a w h = give_up_success RunStatus.timeout q w timeout_not_success h
by_timer_success restart_timer q a w h = give_up_success RunStatus.failed a w failed_not_success h

framed_success :
    (run_id sender : String) (p : Progress) (w : Watched)
    → (str_eq p.run_id run_id && str_eq w.replica.id sender) ≡ true
    → Succeeded (apply_progress p w)
    → Succeeded w ⊎ Justifies run_id (frame sender p) w
unfolding apply_progress
framed_success run_id sender p w e h =
    let (same_run, same_id) = and-eq-true (str_eq p.run_id run_id) (str_eq w.replica.id sender) e in
    elim (by_phase_success p.phase p w h) [
      | inl before ↦ inl before
      | inr (done, stays, good) ↦
          let this_run = (eq_iff p.run_id run_id).0 same_run in
          inr (this_run, (eq_iff w.replica.id sender).0 same_id, done, stays, good)
    ]

handle_success :
    (run_id : String) (s : Signal) (w : Watched)
    → Succeeded (handle run_id s w)
    → Succeeded w ⊎ Justifies run_id s w
unfolding handle expired
handle_success run_id (frame sender p) w =
    choose (λ x. Succeeded x → Succeeded w ⊎ Justifies run_id (frame sender p) w)
      (str_eq p.run_id run_id && str_eq w.replica.id sender) _ _
      (λ e h. framed_success run_id sender p w e h) (λ _ h. inl h)
handle_success run_id (online device_name ip) w = reconnected_success run_id device_name ip w
handle_success run_id (expiry q a) w = λ h. inl (by_timer_success w.timer q a w h)

-- The signal that made a replica successful, with what came before and after it.
pub record Cause (run_id : String) (ss : List Signal) (w : Watched) : Type 0 where
  pub before : List Signal
  pub signal : Signal
  pub after : List Signal
  pub split : ss ≡ before ++ signal ∷ after
  pub justified : Justifies run_id signal (handle_all run_id before w)

later-Cause :
    (run_id : String) (s : Signal) (ss : List Signal) (w : Watched)
    → Cause run_id ss (handle run_id s w)
    → Cause run_id (s ∷ ss) w
unfolding handle_all
later-Cause run_id s ss w cause = record {
  before = s ∷ cause.before;
  signal = cause.signal;
  after = cause.after;
  split = ap (λ x. s ∷ x) cause.split;
  justified = cause.justified;
}

first-Cause :
    (run_id : String) (s : Signal) (ss : List Signal) (w : Watched)
    → Justifies run_id s w
    → Cause run_id (s ∷ ss) w
unfolding handle_all
first-Cause run_id s ss w j = record {
  before = [];
  signal = s;
  after = ss;
  split = refl;
  justified = j;
}

already-or-Cause :
    (run_id : String) (ss : List Signal) (w : Watched)
    → Succeeded (handle_all run_id ss w)
    → Succeeded w ⊎ Cause run_id ss w
unfolding handle_all
already-or-Cause run_id [] w h = inl h
already-or-Cause run_id (s ∷ ss) w h = elim (already-or-Cause run_id ss (handle run_id s w) h) [
  | inr cause ↦ inr (later-Cause run_id s ss w cause)
  | inl now ↦ elim (handle_success run_id s w now) [
    | inl before ↦ inl before
    | inr j ↦ inr (first-Cause run_id s ss w j)
  ]
]

-- A replica that becomes successful has sent, in this run, a finished frame that says ok and no
-- restart, or has come back, under its device name and address, while the master waited for its
-- restart.
pub handle_all-Cause :
    (run_id : String) (ss : List Signal) (w : Watched)
    → w.replica.status ≢ RunStatus.success
    → (handle_all run_id ss w).replica.status ≡ RunStatus.success
    → Cause run_id ss w
handle_all-Cause run_id ss w d h = elim (already-or-Cause run_id ss w h) [
  | inl before ↦ absurd (d before)
  | inr cause ↦ cause
]

-- A terminal status other than success stays.
ended_otherwise :
    (run_id : String) (ss : List Signal) (w : Watched)
    → is_terminal w.replica.status ≡ true
    → w.replica.status ≢ RunStatus.success
    → ¬ Succeeded (handle_all run_id ss w)
ended_otherwise run_id ss w h d k = d (sym (handle_all_ended run_id ss w h).0 ∙ k)

running_not_success : RunStatus.running ≢ RunStatus.success
running_not_success h = cc

rejected_not_success : RunStatus.rejected ≢ RunStatus.success
rejected_not_success h = cc

unreachable_not_success : RunStatus.unreachable ≢ RunStatus.success
unreachable_not_success h = cc

-- Whatever signals arrive in a run, also frames of other runs and of other replicas, a replica is
-- successful in the end only if it accepted the order, and only if it then sent a finished frame of
-- this run that says ok and no restart, or came back, under its device name and address, while the
-- master waited for its restart.
pub answered-Cause :
    (run_id : String) (info : LinkInfo) (error : Option String) (ack : Option DeployAck)
    (ss : List Signal)
    → (handle_all run_id ss (watch (answered info error ack))).replica.status ≡ RunStatus.success
    → ((a : DeployAck) × (ack ≡ some a) × (a.accepted ≡ true))
      × Cause run_id ss (watch (answered info error ack))
unfolding answered watch
answered-Cause run_id info error none ss h =
    absurd
      (ended_otherwise run_id ss (watch (answered info error none)) refl unreachable_not_success h)
answered-Cause run_id info error (some a) ss h =
    let P : RunState → Type 0 = λ r.
      Succeeded (handle_all run_id ss (watch r))
      → ((x : DeployAck) × (some a ≡ some x) × (x.accepted ≡ true)) × Cause run_id ss (watch r) in
    choose P (not a.accepted) _ _
      (λ _ k. absurd (ended_otherwise run_id ss _ refl rejected_not_success k))
      (λ e k.
        ((a, refl, accepted a.accepted e), handle_all-Cause run_id ss _ running_not_success k))
      h
  where
    accepted : (b : Bool) → not b ≡ false → b ≡ true
    accepted b e = ground arith
