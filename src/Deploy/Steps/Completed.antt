-- ===== src/Deploy/Steps/Completed.antt =====
-- A run that ends with success has done all of its steps.
use shado_cloud.Deploy.Steps.{
  Outcome, halted, deploy_succeeded, succeed_deployment, enter_step, skip_step, is_true, has_failed,
  after_command, after_propagation, step_once, continue_with, run_steps,
}
use shado_cloud.Deploy.Steps.Saved.{
  Stepped, stopped, continued, failed_at, restarted, step_once-Stepped,
}
use shado_cloud.Common.{
  str_eq, eq_refl, Bool-cases, Option-cases, choose, All, lookup, insert, lookup-insert, String,
  ◌≡◌, refl, sym, ap, ◌∙◌, subst, ◌≢◌, ◌⊎◌, inl, inr, Bool, true, false, not, ◌&&◌, Option, none,
  some, List, [], ◌∷◌, arith,
}
use shado_cloud.Deploy.State.{Line, skipped_note, merged_note, StepState, StepConfig}
use shado_cloud.Deploy.Attempts.{Script, Run}
use shado_cloud.Deploy.Attempts.Recorded.{IsOver, Extends, Ended, attempt_loop-Ended}
use shado_cloud.Deploy.Propagate.Recorded.{Steps, Records, run_propagate_step-Records}

-- A round that goes on was cancelled, or its step is over.
abbrev Goes : String → Steps → Run × Option Outcome → Type 0
Goes step old q = q.1 ≡ none → (q.0.0.cancelled ≡ true) ⊎ Extends step old q.0

pub enter_step_steps :
    (cfg : StepConfig) (r : Run) → (enter_step cfg r).1.completed_steps ≡ r.1.completed_steps
unfolding enter_step
enter_step_steps cfg (s, d) = refl

skip_step-Extends :
    (cfg : StepConfig) (note : Line) (loud : Bool) (r : Run)
    → Extends cfg.step r.1.completed_steps (skip_step cfg note loud r)
unfolding skip_step
skip_step-Extends cfg note loud (s, d) = (_, inr refl, refl)

after_propagation-Goes :
    (step : String) (old : Steps) (q : Run × Bool)
    → Records step old q
    → Goes step old (after_propagation q)
unfolding after_propagation
after_propagation-Goes step old (r, true) h e = cc
after_propagation-Goes step old (r, false) h e = inr (h refl)

after_command-Goes :
    (step : String) (old : Steps) (r : Run) → Ended step old r → Goes step old (after_command r)
unfolding after_command has_failed
after_command-Goes step old r (inl c) =
    choose (Goes step old) (has_failed r.1) _ _ (λ _ h. cc) (λ _ _. inl c)
after_command-Goes step old r (inr (inl f)) = rw f (λ h. cc)
after_command-Goes step old r (inr (inr e)) =
    choose (Goes step old) (has_failed r.1) _ _ (λ _ h. cc) (λ _ _. inr e)

pub step_once-Goes :
    (cfg : StepConfig) (sc : Script) (r : Run)
    → Goes cfg.step r.1.completed_steps (step_once cfg sc r)
unfolding step_once
step_once-Goes cfg sc r =
    let r' = enter_step cfg r in
    let P : Run × Option Outcome → Type 0 = Goes cfg.step r'.1.completed_steps in
    subst (λ m. Goes cfg.step m (step_once cfg sc r)) (enter_step_steps cfg r)
      (choose P r.0.cancelled _ _ (λ _ h. cc)
        (λ _.
          choose P cfg.skip _ _ (λ _ _. inr (skip_step-Extends cfg skipped_note false r'))
            (λ _.
              choose P (is_true cfg.build_image && not cfg.propagate_to_replicas) _ _
                (λ _ _. inr (skip_step-Extends cfg merged_note true r'))
                (λ _.
                  choose P cfg.propagate_to_replicas _ _
                    (λ _.
                      after_propagation-Goes cfg.step _ _ (run_propagate_step-Records cfg sc r'))
                    (λ _.
                      choose P cfg.triggers_restart _ _ (λ _ h. cc)
                        (λ _.
                          after_command-Goes cfg.step _ _
                            (attempt_loop-Ended 3 1 cfg sc.attempts r' (omega arith) refl)))))))

-- The step is recorded as a success or as skipped.
abbrev pub IsDone : Steps → String → Type 0
IsDone m step = (st : StepState) × (lookup step m ≡ some st) × IsOver st

IsDone-insert :
    (m : Steps) (step : String) (st : StepState) (k : String)
    → IsOver st
    → IsDone m k
    → IsDone (insert step st m) k
IsDone-insert m step st k over (old, found, done) = elim (Bool-cases (str_eq step k)) [
  | inl same ↦ (st, rw lookup-insert (rw same), over)
  | inr other ↦ (old, rw lookup-insert (rw other found), done)
]

IsDone-insert_self :
    (m : Steps) (step : String) (st : StepState) → IsOver st → IsDone (insert step st m) step
IsDone-insert_self m step st over = (st, rw lookup-insert (rw (eq_refl step)), over)

pub succeed_deployment_keeps :
    (r : Run)
    → ((succeed_deployment r).0.cancelled ≡ r.0.cancelled)
      × ((succeed_deployment r).1.completed_steps ≡ r.1.completed_steps)
unfolding succeed_deployment
succeed_deployment_keeps (s, d) = elim (Bool-cases s.emails_enabled) [
  | inl e ↦ (ground arith, refl)
  | inr e ↦ (ground arith, refl)
]

-- A round that starts cancelled does nothing.
pub step_once_cancelled :
    (cfg : StepConfig) (sc : Script) (r : Run)
    → r.0.cancelled ≡ true
    → step_once cfg sc r ≡ (r, some halted)
unfolding step_once
step_once_cancelled cfg sc r h =
    choose (λ q. q ≡ (r, some halted)) r.0.cancelled _ _ (λ _. refl)
      (λ f. absurd (true_false (sym h ∙ f)))
  where
    true_false : true ≡ false → ⊥
    true_false e = cc

pub continue_with_stops :
    (q : Run × Option Outcome) (go_on : Run → Run × Outcome) (o : Outcome)
    → q.1 ≡ some o
    → (continue_with q go_on).1 ≡ o
unfolding continue_with
continue_with_stops (r, none) go_on o h = cc
continue_with_stops (r, some o') go_on o h = cc

pub continue_with_goes_on :
    (q : Run × Option Outcome) (go_on : Run → Run × Outcome)
    → q.1 ≡ none
    → continue_with q go_on ≡ go_on q.0
unfolding continue_with
continue_with_goes_on (r, none) go_on h = refl
continue_with_goes_on (r, some o) go_on h = cc

-- A run that ends with success and not cancelled was not cancelled when it started.
succeeds_uncancelled :
    (steps : List (StepConfig × Script)) (r : Run)
    → (run_steps steps r).1 ≡ deploy_succeeded
    → (run_steps steps r).0.0.cancelled ≡ false
    → r.0.cancelled ≡ false
unfolding run_steps
succeeds_uncancelled [] r h c = sym (succeed_deployment_keeps r).0 ∙ c
succeeds_uncancelled ((cfg, sc) ∷ rest) r h c = elim (Bool-cases r.0.cancelled) [
  | inr calm ↦ calm
  | inl stop ↦
      let halts =
        continue_with_stops (step_once cfg sc r) (run_steps rest) halted
          (ap (λ q. q.1) (step_once_cancelled cfg sc r stop)) in
      absurd (halted_succeeded (sym halts ∙ h))
]
  where
    halted_succeeded : halted ≡ deploy_succeeded → ⊥
    halted_succeeded e = cc

-- What a run that succeeded has done, and that it has kept.
abbrev Keeps : Steps → Steps → Type 0
Keeps old new = (k : String) → IsDone old k → IsDone new k

abbrev pub AllDone : List (StepConfig × Script) → Run → Type 0
AllDone steps r = All (λ x. IsDone r.1.completed_steps x.0.step) steps

-- No round ends a run with success.
step_once_ne :
    {cfg : StepConfig} {r : Run} {q : Run × Option Outcome}
    → Stepped cfg r q
    → q.1 ≢ some deploy_succeeded
step_once_ne (stopped c) h = cc
step_once_ne (continued r') h = cc
step_once_ne (failed_at r') h = cc
step_once_ne (restarted r') h = cc

run_steps_completes :
    (steps : List (StepConfig × Script)) (r : Run)
    → (run_steps steps r).1 ≡ deploy_succeeded
    → (run_steps steps r).0.0.cancelled ≡ false
    → AllDone steps (run_steps steps r).0
      × Keeps r.1.completed_steps (run_steps steps r).0.1.completed_steps
unfolding run_steps
run_steps_completes [] r h c =
    (tt, λ k d. subst (λ m. IsDone m k) (sym (succeed_deployment_keeps r).1) d)
run_steps_completes ((cfg, sc) ∷ rest) r h c = elim (Option-cases (step_once cfg sc r).1) [
  | inr (o, e) ↦
      let same = continue_with_stops (step_once cfg sc r) (run_steps rest) o e in
      absurd (step_once_ne (step_once-Stepped cfg sc r) (e ∙ ap some (sym same ∙ h)))
  | inl e ↦
      let q = step_once cfg sc r in
      let eq = continue_with_goes_on q (run_steps rest) e in
      let h' = sym (ap (λ x. x.1) eq) ∙ h in
      let c' = sym (ap (λ x. x.0.0.cancelled) eq) ∙ c in
      let (later, kept) = run_steps_completes rest q.0 h' c' in
      let (st, over, rec) =
        extended (step_once-Goes cfg sc r e) (succeeds_uncancelled rest q.0 h' c') in
      subst (λ x. AllDone ((cfg, sc) ∷ rest) x.0 × Keeps r.1.completed_steps x.0.1.completed_steps)
        (sym eq)
        (
          (
            kept cfg.step (
                subst (λ m. IsDone m cfg.step) (sym rec)
                  (IsDone-insert_self r.1.completed_steps cfg.step st over)),
            later,
          ),
          λ k d. kept k (
              subst (λ m. IsDone m k) (sym rec)
                (IsDone-insert r.1.completed_steps cfg.step st k over d)),
        )
]
  where
    extended : {b : Bool} {E : Type 0} → (b ≡ true) ⊎ E → b ≡ false → E
    extended (inl t) f = cc
    extended (inr e) f = e

-- A run that ends with success, and was not cancelled meanwhile, has every one of its steps recorded
-- as a success or as skipped.
pub run_steps-AllDone :
    (steps : List (StepConfig × Script)) (r : Run)
    → (run_steps steps r).1 ≡ deploy_succeeded
    → (run_steps steps r).0.0.cancelled ≡ false
    → AllDone steps (run_steps steps r).0
run_steps-AllDone steps r h c = (run_steps_completes steps r h c).0
