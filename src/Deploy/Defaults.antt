-- ===== src/Deploy/Defaults.antt =====
-- admin/deployment.service.ts: the third part of `reconcileDefaultSteps`, which inserts the default
-- steps that a project's pipeline lacks.
pub mod Insertion
mod Tests
use shado_cloud.Common.{
  str_eq, if◌then◌else◌, any, keep, String, Bool, true, false, not, Option, none, some, List, [],
  ◌∷◌, ◌++◌,
}
use shado_cloud.Deploy.State.{StepConfig}

has_id : String → StepConfig → Bool
has_id id c = str_eq c.step id

-- A step with this id is among the steps.
unfoldable pub has_step_id : String → List StepConfig → Bool
unfolding has_id
has_step_id id steps = any (has_id id) steps

-- `defaults.slice(0, defIdx)`
unfoldable pub preceding : String → List StepConfig → List StepConfig
unfolding has_id
preceding id [] = []
preceding id (c ∷ cs) = let rest = preceding id cs in if has_id id c then [] else c ∷ rest

place :
    (before : Bool)
    → Option (List StepConfig)
    → StepConfig
    → StepConfig
    → List StepConfig
    → Option (List StepConfig)
place before (some ys) d x xs = some (x ∷ ys)
place true none d x xs = some (x ∷ d ∷ xs)
place false none d x xs = none

-- The steps with `d` behind the last one whose id is among `earlier`, if there is one.
insert_after : (earlier : List StepConfig) → StepConfig → List StepConfig → Option (List StepConfig)
unfolding place has_step_id
insert_after earlier d [] = none
insert_after earlier d (x ∷ xs) =
    place (has_step_id x.step earlier) (insert_after earlier d xs) d x xs

or_append : Option (List StepConfig) → StepConfig → List StepConfig → List StepConfig
or_append (some ys) d xs = ys
or_append none d xs = xs ++ d ∷ []

-- Lines 495 to 502.
unfoldable pub insert_step :
    (earlier : List StepConfig) → StepConfig → List StepConfig → List StepConfig
unfolding insert_after or_append
insert_step earlier d xs = or_append (insert_after earlier d xs) d xs

insert_each : (missing defaults merged : List StepConfig) → List StepConfig
unfolding preceding insert_step
insert_each [] defaults merged = merged
insert_each (d ∷ ds) defaults merged =
    insert_each ds defaults (insert_step (preceding d.step defaults) d merged)

-- Lines 491 to 504.
unfoldable pub insert_missing : (defaults merged : List StepConfig) → List StepConfig
unfolding insert_each has_step_id
insert_missing defaults merged =
    insert_each (keep (λ d. not (has_step_id d.step merged)) defaults) defaults merged
