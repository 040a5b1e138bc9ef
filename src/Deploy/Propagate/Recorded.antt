-- ===== src/Deploy/Propagate/Recorded.antt =====
-- A propagation step that does not fail is recorded, and records nothing else.
use shado_cloud.Replica.Types.{ImageRef, PropagationState}
use shado_cloud.Replica.Summary.{all_succeeded}
use shado_cloud.Common.{
  choose, Result, err, ok, String, ◌≡◌, refl, ◌∙◌, subst, Bool, false, not, ◌&&◌, Option, none,
  some, List, [], ◌∷◌,
}
use shado_cloud.Deploy.State.{
  Line, process_output, continuing_note, clone_removed, StepState, DeploymentState, StepConfig,
}
use shado_cloud.Deploy.Attempts.{
  Meanwhile, logged, dispatched, replica_changed, replica_printed, cancel_arrives, Script, Run,
  log_line, attempt_succeeded,
}
use shado_cloud.Deploy.Attempts.Retries.{log_line-Same, log_lines-Same}
use shado_cloud.Deploy.Attempts.Recorded.{Extends, attempt_succeeded-Extends}
use shado_cloud.Deploy.Propagate.{
  is_some_false, reuse_lines, take_built, hold_propagation, pass, pass_all, prepare_images,
  note_propagation, conclude_propagation, settle_propagation, dispatch_propagation, remove_clone,
  after_build, begin_propagation, run_propagate_step,
}

abbrev pub Steps : Type 0
Steps = List (String × StepState)

log_line_steps :
    (step : String) (l : Line) (r : Run)
    → (log_line step l r).1.completed_steps ≡ r.1.completed_steps
log_line_steps step l r = (log_line-Same step l r).1

hold_propagation_steps :
    (p : Option PropagationState) (d : DeploymentState)
    → (hold_propagation p d).completed_steps ≡ d.completed_steps
unfolding hold_propagation
hold_propagation_steps none d = refl
hold_propagation_steps (some p) d = refl

pass_steps :
    (cfg : StepConfig) (m : Meanwhile) (r : Run)
    → (pass cfg m r).1.completed_steps ≡ r.1.completed_steps
unfolding pass hold_propagation
pass_steps cfg (logged l) r = log_line_steps cfg.step (process_output l) r
pass_steps cfg (dispatched p) (s, d) = refl
pass_steps cfg (replica_changed replica p) (s, d) = hold_propagation_steps p d
pass_steps cfg (replica_printed id text p saves) (s, d) = hold_propagation_steps p d
pass_steps cfg cancel_arrives (s, d) = refl

pass_all_steps :
    (cfg : StepConfig) (ms : List Meanwhile) (r : Run)
    → (pass_all cfg ms r).1.completed_steps ≡ r.1.completed_steps
unfolding pass_all
pass_all_steps cfg [] r = refl
pass_all_steps cfg (m ∷ ms) r = pass_all_steps cfg ms (pass cfg m r) ∙ pass_steps cfg m r

take_built_steps :
    (cfg : StepConfig) (b : Result String (List ImageRef)) (r : Run)
    → (take_built cfg b r).0.1.completed_steps ≡ r.1.completed_steps
unfolding take_built
take_built_steps cfg (err e) r = refl
take_built_steps cfg (ok images) (s, d) = refl

prepare_images_steps :
    (cfg : StepConfig) (sc : Script) (r : Run)
    → (prepare_images cfg sc r).0.1.completed_steps ≡ r.1.completed_steps
unfolding prepare_images
prepare_images_steps cfg sc r =
    let P : Run × Option String → Type 0 = λ q. q.0.1.completed_steps ≡ r.1.completed_steps in
    choose P (is_some_false cfg.build_image) _ _
      (λ _. (log_lines-Same cfg.step (reuse_lines r.1.images) r).1)
      (λ _.
        take_built_steps cfg sc.built (pass_all cfg sc.in_build r)
        ∙ pass_all_steps cfg sc.in_build r)

-- A step that did not fail is recorded.
abbrev pub Records : String → Steps → Run × Bool → Type 0
Records step old q = q.1 ≡ false → Extends step old q.0

note_propagation_steps :
    (cfg : StepConfig) (p : PropagationState) (r : Run)
    → (note_propagation cfg p r).1.completed_steps ≡ r.1.completed_steps
unfolding note_propagation
note_propagation_steps cfg p (s, d) = refl

-- `attempt_succeeded` on a run with the same completed steps.
succeeded-Extends :
    (cfg : StepConfig) (old : Steps) (r : Run)
    → r.1.completed_steps ≡ old
    → Extends cfg.step old (attempt_succeeded cfg r)
succeeded-Extends cfg old r h =
    subst (λ m. Extends cfg.step m (attempt_succeeded cfg r)) h (attempt_succeeded-Extends cfg r)

conclude_propagation-Records :
    (cfg : StepConfig) (p : PropagationState) (r : Run)
    → Records cfg.step r.1.completed_steps (conclude_propagation cfg p r)
unfolding conclude_propagation
conclude_propagation-Records cfg p r =
    let P : Run × Bool → Type 0 = Records cfg.step r.1.completed_steps in
    let r' = note_propagation cfg p r in
    let same = note_propagation_steps cfg p r in
    choose P (all_succeeded p) _ _ (λ _ _. succeeded-Extends cfg _ r' same)
      (λ _.
        choose P cfg.require_all_replicas _ _ (λ _ h. cc)
          (λ _ _.
            succeeded-Extends cfg _ (log_line cfg.step continuing_note r')
              (log_line_steps cfg.step continuing_note r' ∙ same)))

settle_propagation-Records :
    (cfg : StepConfig) (p : Result String PropagationState) (r : Run)
    → Records cfg.step r.1.completed_steps (settle_propagation cfg p r)
unfolding settle_propagation
settle_propagation-Records cfg (err e) r h = cc
settle_propagation-Records cfg (ok p) r h = conclude_propagation-Records cfg p r h

dispatch_propagation-Records :
    (cfg : StepConfig) (sc : Script) (r : Run)
    → Records cfg.step r.1.completed_steps (dispatch_propagation cfg sc r)
unfolding dispatch_propagation
dispatch_propagation-Records cfg sc r h =
    subst (λ m. Extends cfg.step m (dispatch_propagation cfg sc r).0)
      (pass_all_steps cfg sc.in_propagation r)
      (settle_propagation-Records cfg sc.propagated (pass_all cfg sc.in_propagation r) h)

remove_clone-Records :
    (cfg : StepConfig) (sc : Script) (old : Steps) (q : Run × Bool)
    → Records cfg.step old q
    → Records cfg.step old (remove_clone cfg sc q)
unfolding remove_clone
remove_clone-Records cfg sc old (r, fails) h e =
    let (st, over, eq) = h e in
    let P : Run → Type 0 = Extends cfg.step old in
    choose P (sc.cloned && not (is_some_false cfg.build_image)) _ _
      (λ _. (st, over, log_line_steps cfg.step clone_removed r ∙ eq)) (λ _. (st, over, eq))

after_build-Records :
    (cfg : StepConfig) (sc : Script) (q : Run × Option String)
    → Records cfg.step q.0.1.completed_steps (after_build cfg sc q)
unfolding after_build
after_build-Records cfg sc (r, some e) h = cc
after_build-Records cfg sc (r, none) h =
    remove_clone-Records cfg sc r.1.completed_steps (dispatch_propagation cfg sc r)
      (dispatch_propagation-Records cfg sc r) h

begin_propagation_steps :
    (cfg : StepConfig) (r : Run) → (begin_propagation cfg r).1.completed_steps ≡ r.1.completed_steps
unfolding begin_propagation
begin_propagation_steps cfg (s, d) = refl

pub run_propagate_step-Records :
    (cfg : StepConfig) (sc : Script) (r : Run)
    → Records cfg.step r.1.completed_steps (run_propagate_step cfg sc r)
unfolding run_propagate_step
run_propagate_step-Records cfg sc r h =
    let r' = begin_propagation cfg r in
    subst (λ m. Extends cfg.step m (run_propagate_step cfg sc r).0)
      (prepare_images_steps cfg sc r' ∙ begin_propagation_steps cfg r)
      (after_build-Records cfg sc (prepare_images cfg sc r') h)
