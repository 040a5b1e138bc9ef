-- ===== src/Deploy/Propagate.antt =====
-- admin/deployment.service.ts: `runPropagateStep`.
pub mod Recorded
use shado_cloud.Common.{
  str_eq, if◌then◌else◌, length, any, keep, Result, err, ok, String, Bool, true, false, not, ◌&&◌,
  Option, none, some, List, [], ◌∷◌, ◌++◌, map,
}
use shado_cloud.Replica.Types.{ImageRef, PropagationState}
use shado_cloud.Deploy.State.{
  StepStatus, Line, process_output, resending, resent_image, blank, continuing_note,
  from_source_note, clone_removed, DeploymentState, Event, replica_dispatch, replica_update,
  replica_output, replica_done, replica_image_staged, StepConfig,
}
use shado_cloud.Deploy.Store.{emit, save_current, cancel_if}
use shado_cloud.Replica.Summary.{all_succeeded}
use shado_cloud.Deploy.Attempts.{
  Meanwhile, logged, dispatched, replica_changed, replica_printed, cancel_arrives, Script, set_step,
  record_step, Run, log_line, log_lines, max_attempts, attempt_succeeded,
}

unfoldable pub is_some_false : Option Bool → Bool
is_some_false (some false) = true
is_some_false _ = false

pub service_in : List ImageRef → ImageRef → Bool
service_in images i = any (λ j. str_eq j.service i.service) images

-- Lines 1090 to 1094: what was staged before, less the services built now, then those.
unfoldable pub replace_images : Option (List ImageRef) → List ImageRef → List ImageRef
unfolding service_in
replace_images none built = built
replace_images (some old) built = keep (λ i. not (service_in built i)) old ++ built

-- Lines 1097 to 1109: what is said where nothing is built.
unfoldable pub reuse_lines : Option (List ImageRef) → List Line
reuse_lines (some (i ∷ is)) =
    resending (length (i ∷ is)) ∷ map (λ j. resent_image j.service j.image_id j.size) (i ∷ is)
    ++ blank ∷ []
reuse_lines _ = from_source_note ∷ []

-- Lines 1086 to 1096, on the result of `buildReplicaImages`.
unfoldable pub take_built : StepConfig → Result String (List ImageRef) → Run → Run × Option String
unfolding replace_images save_current emit
take_built cfg (err e) r = (r, some e)
take_built cfg (ok built) (s, d) =
    let images = replace_images d.images built in
    let d' = record d { images = some images } in
    ((emit (replica_image_staged cfg.step images) (save_current d' s), d'), none)

unfoldable pub hold_propagation : Option PropagationState → DeploymentState → DeploymentState
hold_propagation none d = d
hold_propagation (some p) d = record d {
  current_step = record (d.current_step) { propagation = some p };
}

-- Lines 1070 to 1073, and 1137 to 1153.
unfoldable pub pass : StepConfig → Meanwhile → Run → Run
unfolding hold_propagation save_current emit
pass cfg (logged l) r = log_line cfg.step (process_output l) r
pass cfg (dispatched p) (s, d) =
    let d' = hold_propagation (some p) d in
    (save_current d' (emit (replica_dispatch cfg.step p) s), d')
pass cfg (replica_changed replica p) (s, d) =
    let d' = hold_propagation p d in
    (save_current d' (emit (replica_update cfg.step replica) s), d')
pass cfg (replica_printed id text p saves) (s, d) =
    let d' = hold_propagation p d in
    let s' = emit (replica_output cfg.step id text) s in
    (if saves then save_current d' s' else s', d')
pass cfg cancel_arrives (s, d) = (cancel_if true s, d)

unfoldable pub pass_all : StepConfig → List Meanwhile → Run → Run
pass_all cfg [] r = r
pass_all cfg (m ∷ ms) r = pass_all cfg ms (pass cfg m r)

-- Lines 1085 to 1109.
unfoldable pub prepare_images : StepConfig → Script → Run → Run × Option String
unfolding is_some_false reuse_lines
prepare_images cfg sc r =
    if is_some_false cfg.build_image
    then (log_lines cfg.step (reuse_lines r.1.images) r, none)
    else take_built cfg sc.built (pass_all cfg sc.in_build r)

-- Lines 1164 to 1170 and 1182 to 1188: the step fails with an error.
unfoldable pub propagation_failed : StepConfig → String → Run → Run
unfolding set_step record_step save_current emit
propagation_failed cfg e (s, d) =
    let d' = record_step cfg.step (set_step StepStatus.failed (some e) d) in
    (emit (Event.step_complete cfg.step StepStatus.failed (some e)) (save_current d' s), d')

unfoldable pub incomplete : String
incomplete = "Replica propagation incomplete"

-- Line 1157.
unfoldable pub note_propagation : StepConfig → PropagationState → Run → Run
unfolding emit
note_propagation cfg p (s, d) = (
  emit (replica_done cfg.step p) s,
  record d { current_step = record (d.current_step) { propagation = some p } },
)

-- Lines 1157 to 1180.
unfoldable pub conclude_propagation : StepConfig → PropagationState → Run → Run × Bool
unfolding incomplete
conclude_propagation cfg p r =
    let r' = note_propagation cfg p r in
    if all_succeeded p
    then (attempt_succeeded cfg r', false)
    else if cfg.require_all_replicas
    then (propagation_failed cfg incomplete r', true)
    else (attempt_succeeded cfg (log_line cfg.step continuing_note r'), false)

unfoldable pub settle_propagation : StepConfig → Result String PropagationState → Run → Run × Bool
settle_propagation cfg (err e) r = (propagation_failed cfg e r, true)
settle_propagation cfg (ok p) r = conclude_propagation cfg p r

-- The order to the replicas, with what happens until they are done.
unfoldable pub dispatch_propagation : StepConfig → Script → Run → Run × Bool
dispatch_propagation cfg sc r =
    settle_propagation cfg sc.propagated (pass_all cfg sc.in_propagation r)

-- The `finally` block.
unfoldable pub remove_clone : StepConfig → Script → Run × Bool → Run × Bool
unfolding is_some_false
remove_clone cfg sc (r, fails) = (
  if sc.cloned && not (is_some_false cfg.build_image) then log_line cfg.step clone_removed r else r,
  fails,
)

unfoldable pub after_build : StepConfig → Script → Run × Option String → Run × Bool
after_build cfg sc (r, some e) = (propagation_failed cfg e r, true)
after_build cfg sc (r, none) = remove_clone cfg sc (dispatch_propagation cfg sc r)

-- Lines 1063 to 1068.
unfoldable pub begin_propagation : StepConfig → Run → Run
unfolding set_step save_current emit
begin_propagation cfg (s, d) =
    let d' =
      set_step StepStatus.running d.current_step.error
        (record d { current_step = record (d.current_step) { attempt = 1; max_attempts = 1 } }) in
    (emit (Event.step_start cfg.step) (save_current d' s), d')

-- `runPropagateStep`: the result says whether the step failed.
unfoldable pub run_propagate_step : StepConfig → Script → Run → Run × Bool
run_propagate_step cfg sc r = after_build cfg sc (prepare_images cfg sc (begin_propagation cfg r))
