-- ===== src/Deploy/Defaults/Tests.antt =====
-- A pipeline that lacks its first default step.
use shado_cloud.Common.{keep, All, String, ◌≡◌, refl, true, false, none, [], ◌∷◌}
use shado_cloud.Deploy.State.{StepConfig}
use shado_cloud.Deploy.Defaults.{has_step_id, insert_missing}
use shado_cloud.Deploy.Defaults.Insertion.{insert_missing_complete, insert_missing_first}

abbrev named : String → StepConfig
named step = record {
  step = step;
  name = step;
  cmd = "";
  args = [];
  triggers_restart = false;
  skip = false;
  require_all_replicas = false;
  propagate_to_replicas = false;
  build_image = none;
}

in_order :
    insert_missing
      (named "pull" ∷ named "build" ∷ named "restart" ∷ [])
      (named "pull" ∷ named "lint" ∷ named "restart" ∷ [])
    ≡ named "pull" ∷ named "build" ∷ named "lint" ∷ named "restart" ∷ []
unfolding insert_missing
in_order = refl

insert_missing_complete_example :
    All
      (λ d.
        has_step_id d.step (insert_missing (named "pull" ∷ named "build" ∷ []) (named "lint" ∷ []))
        ≡ true)
      (named "pull" ∷ named "build" ∷ [])
    × (keep
          (λ x. has_step_id x.step (named "lint" ∷ []))
          (insert_missing (named "pull" ∷ named "build" ∷ []) (named "lint" ∷ []))
        ≡ named "lint" ∷ [])
insert_missing_complete_example =
    insert_missing_complete (named "pull" ∷ named "build" ∷ []) (named "lint" ∷ [])

insert_missing_first_example :
    insert_missing (named "pull" ∷ named "build" ∷ []) (named "build" ∷ [])
    ≡ named "build" ∷ named "pull" ∷ []
unfolding has_step_id
insert_missing_first_example =
    insert_missing_first (named "pull") (named "build" ∷ []) (named "build" ∷ []) refl (refl, tt)
