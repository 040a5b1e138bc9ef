-- ===== src/Deploy/Steps/Order.antt =====
-- A run that hands over to a restart has stopped at the step that triggers it.
use shado_cloud.Deploy.Steps.Completed.{continue_with_stops, continue_with_goes_on}
use shado_cloud.Common.{
  Option-cases, choose, ◌≡◌, refl, sym, ap, ◌∙◌, subst, inl, inr, Bool, true, false, not, ◌&&◌,
  Option, none, some, List, [], ◌∷◌, ◌++◌,
}
use shado_cloud.Deploy.State.{StepStatus, StepConfig}
use shado_cloud.Deploy.Attempts.{Script, Run}
use shado_cloud.Deploy.Steps.{
  Outcome, restart_spawned, enter_step, restart_step, is_true, has_failed, after_command,
  after_propagation, step_once, continue_with, run_steps,
}

-- The run stopped at a restart step, the one it was at, which is marked successful.
pub record RestartsAt (steps : List (StepConfig × Script)) (r : Run) : Type 0 where
  pub before : List (StepConfig × Script)
  pub cfg : StepConfig
  pub script : Script
  pub after : List (StepConfig × Script)
  pub split : steps ≡ before ++ (cfg, script) ∷ after
  pub is_restart : cfg.triggers_restart ≡ true
  pub at_step : r.1.current_step.step ≡ cfg.step
  pub succeeded : r.1.current_step.status ≡ StepStatus.success

restart_step_at :
    (cfg : StepConfig) (r : Run)
    → ((restart_step cfg (enter_step cfg r)).1.current_step.step ≡ cfg.step)
      × ((restart_step cfg (enter_step cfg r)).1.current_step.status ≡ StepStatus.success)
unfolding restart_step enter_step
restart_step_at cfg (s, d) = (refl, refl)

abbrev Restarts : StepConfig → Run × Option Outcome → Type 0
Restarts cfg q =
    q.1 ≡ some restart_spawned
    → (cfg.triggers_restart ≡ true)
      × (q.0.1.current_step.step ≡ cfg.step)
      × (q.0.1.current_step.status ≡ StepStatus.success)

after_propagation-Restarts :
    (cfg : StepConfig) (p : Run × Bool) → Restarts cfg (after_propagation p)
unfolding after_propagation
after_propagation-Restarts cfg (r, true) h = cc
after_propagation-Restarts cfg (r, false) h = cc

after_command-Restarts : (cfg : StepConfig) (r : Run) → Restarts cfg (after_command r)
unfolding after_command
after_command-Restarts cfg r = choose (Restarts cfg) (has_failed r.1) _ _ (λ _ h. cc) (λ _ h. cc)

step_once-Restarts : (cfg : StepConfig) (sc : Script) (r : Run) → Restarts cfg (step_once cfg sc r)
unfolding step_once
step_once-Restarts cfg sc r =
    let P : Run × Option Outcome → Type 0 = Restarts cfg in
    choose P r.0.cancelled _ _ (λ _ h. cc)
      (λ _.
        choose P cfg.skip _ _ (λ _ h. cc)
          (λ _.
            choose P (is_true cfg.build_image && not cfg.propagate_to_replicas) _ _ (λ _ h. cc)
              (λ _.
                choose P cfg.propagate_to_replicas _ _ (λ _. after_propagation-Restarts cfg _)
                  (λ _.
                    choose P cfg.triggers_restart _ _
                      (λ t _. (t, (restart_step_at cfg r).0, (restart_step_at cfg r).1))
                      (λ _. after_command-Restarts cfg _)))))

continue_with_run :
    (q : Run × Option Outcome) (go_on : Run → Run × Outcome) (o : Outcome)
    → q.1 ≡ some o
    → (continue_with q go_on).0 ≡ q.0
unfolding continue_with
continue_with_run (r, none) go_on o h = cc
continue_with_run (r, some o') go_on o h = refl

-- A run that hands over to a restart has stopped at one of its steps that triggers a restart: the
-- state it leaves has that step as its current one, marked successful.
pub run_steps-RestartsAt :
    (steps : List (StepConfig × Script)) (r : Run)
    → (run_steps steps r).1 ≡ restart_spawned
    → RestartsAt steps (run_steps steps r).0
unfolding run_steps
run_steps-RestartsAt [] r h = cc
run_steps-RestartsAt ((cfg, sc) ∷ rest) r h = elim (Option-cases (step_once cfg sc r).1) [
  | inr (o, e) ↦
      let q = step_once cfg sc r in
      let is_o = continue_with_stops q (run_steps rest) o e in
      let e' : q.1 ≡ some restart_spawned = e ∙ ap some (sym is_o ∙ h) in
      let (restarts, here, fine) = step_once-Restarts cfg sc r e' in
      let P : Run → Type 0 = RestartsAt ((cfg, sc) ∷ rest) in
      subst P (sym (continue_with_run q (run_steps rest) o e)) (record {
        before = [];
        cfg = cfg;
        script = sc;
        after = rest;
        split = refl;
        is_restart = restarts;
        at_step = here;
        succeeded = fine;
      })
  | inl e ↦
      let q = step_once cfg sc r in
      let eq = continue_with_goes_on q (run_steps rest) e in
      let later = run_steps-RestartsAt rest q.0 (sym (ap (λ x. x.1) eq) ∙ h) in
      subst (λ x. RestartsAt ((cfg, sc) ∷ rest) x.0) (sym eq)
        (record {
          before = (cfg, sc) ∷ later.before;
          cfg = later.cfg;
          script = later.script;
          after = later.after;
          split = ap (λ xs. (cfg, sc) ∷ xs) later.split;
          is_restart = later.is_restart;
          at_step = later.at_step;
          succeeded = later.succeeded;
        })
]
