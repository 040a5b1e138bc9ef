-- ===== src/Deploy/Commands/Resume.antt =====
-- What is run after a restart, and after a retry.
use shado_cloud.Common.{
  str_eq, eq_refl, length, drop, All, find_index, last_only, suc, ◌+◌, String, ◌≡◌, refl, sym, ap,
  ◌∙◌, subst, true, false, none, some, List, [], ◌∷◌, ◌++◌, arith,
}
use shado_cloud.Deploy.State.{
  StepStatus, DeployStatus, StepState, DeploymentState, StepConfig, Project, Job, Service,
}
use shado_cloud.Deploy.Steps.{restart_spawned, run_steps}
use shado_cloud.Deploy.Steps.Order.{RestartsAt, run_steps-RestartsAt}
use shado_cloud.Deploy.Store.{is_running_state, is_running}
use shado_cloud.Deploy.Attempts.{Script, Run}
use shado_cloud.Deploy.Commands.{
  Reply, find_project, get_following_steps, open_stream, new_step, launch, retry_step, has_step,
  steps_from, is_success, is_failed, step_is_failed, resume_failed,
}

abbrev pub configs : List (StepConfig × Script) → List StepConfig
configs [] = []
configs (x ∷ xs) = x.0 ∷ configs xs

-- No two steps of the pipeline have the same id.
abbrev pub HasDistinctSteps : List StepConfig → Type 0
HasDistinctSteps [] = Unit
HasDistinctSteps (c ∷ cs) = All (λ x. str_eq c.step x.step ≡ false) cs × HasDistinctSteps cs

All-at {ℓ κ} : {A : Type ℓ} (P : A → Type κ) (xs ys : List A) (x : A) → All P (xs ++ x ∷ ys) → P x
All-at P [] ys x (p, h) = p
All-at P (y ∷ xs) ys x (p, h) = All-at P xs ys x h

find_index_at :
    (before after : List StepConfig) (c : StepConfig)
    → HasDistinctSteps (before ++ c ∷ after)
    → find_index (has_step c.step) (before ++ c ∷ after) ≡ some (length before)
unfolding has_step
find_index_at [] after c h = rw (eq_refl c.step) refl
find_index_at (b ∷ before) after c (h, hs) =
    let away = All-at (λ x. str_eq b.step x.step ≡ false) before after c h in
    rw (away, find_index_at before after c hs) refl

drop_at :
    (before after : List StepConfig) (c : StepConfig)
    → drop (length before + 1) (before ++ c ∷ after) ≡ after
drop_at [] after c = refl
drop_at (b ∷ before) after c =
    let e : suc (length before + 1) ≡ suc (length before) + 1 = omega arith in
    subst (λ n. drop n (b ∷ before ++ c ∷ after) ≡ after) e (drop_at before after c)

configs-append :
    (xs ys : List (StepConfig × Script)) → configs (xs ++ ys) ≡ configs xs ++ configs ys
configs-append [] ys = refl
configs-append (x ∷ xs) ys = ap (λ zs. x.0 ∷ zs) (configs-append xs ys)

following_at :
    (before after : List StepConfig) (c : StepConfig) (st : StepState)
    → HasDistinctSteps (before ++ c ∷ after)
    → st.step ≡ c.step
    → st.status ≡ StepStatus.success
    → get_following_steps st (before ++ c ∷ after) ≡ after
unfolding get_following_steps steps_from is_success
following_at before after c st h e k =
    rw (e, find_index_at before after c h, k) (drop_at before after c)

-- When a run has ended at a restart step and the ids of its steps are distinct, the steps that
-- `getFollowingSteps` picks from the state it left are exactly those behind the restart step.
pub following_steps_after_restart :
    (steps : List (StepConfig × Script)) (r : Run)
    → HasDistinctSteps (configs steps)
    → (run_steps steps r).1 ≡ restart_spawned
    → (at : RestartsAt steps (run_steps steps r).0) × (get_following_steps
          (run_steps steps r).0.1.current_step
          (configs steps)
        ≡ configs at.after)
following_steps_after_restart steps r h e =
    let at = run_steps-RestartsAt steps r e in
    let st = (run_steps steps r).0.1.current_step in
    let eq : configs steps ≡ configs at.before ++ at.cfg ∷ configs at.after =
      ap configs at.split ∙ configs-append at.before ((at.cfg, at.script) ∷ at.after) in
    (
      at,
      ap (get_following_steps st) eq
          ∙ following_at (configs at.before) (configs at.after) at.cfg st
              (subst HasDistinctSteps eq h) at.at_step at.succeeded,
    )

find_index_away :
    (step : String) (steps : List StepConfig)
    → All (λ x. str_eq x.step step ≡ false) steps
    → find_index (has_step step) steps ≡ none
unfolding has_step
find_index_away step [] h = refl
find_index_away step (b ∷ steps) (h, hs) = rw (h, find_index_away step steps hs) refl

last_only-append : (steps : List StepConfig) (c : StepConfig) → last_only (steps ++ c ∷ []) ≡ c ∷ []
last_only-append [] c = refl
last_only-append (b ∷ []) c = refl
last_only-append (b ∷ a ∷ steps) c = last_only-append (a ∷ steps) c

-- For a step id that is not in the pipeline, `getFollowingSteps` picks the last step alone.
pub following_steps_unknown :
    (steps : List StepConfig) (c : StepConfig) (st : StepState)
    → All (λ x. str_eq x.step st.step ≡ false) (steps ++ c ∷ [])
    → get_following_steps st (steps ++ c ∷ []) ≡ c ∷ []
unfolding get_following_steps steps_from
following_steps_unknown steps c st h =
    rw (find_index_away st.step (steps ++ c ∷ []) h) (last_only-append steps c)

-- A reply that has set going a run of `c` alone, under the id `step`.
abbrev pub RunsOnly : String → StepConfig → Reply → Type 0
RunsOnly step c q =
    (q.1 ≡ none)
    × ((j : Job) × (q.0.job ≡ some j)
        × (j.steps ≡ c ∷ [])
        × (j.deployment.current_step.step ≡ step))

resume_failed-RunsOnly :
    (step : String) (d : DeploymentState) (s : Service) (p : Project) (steps : List StepConfig)
    → (c : StepConfig) → find_project d.project s ≡ some p
    → p.steps ≡ steps ++ c ∷ []
    → All (λ x. str_eq x.step step ≡ false) p.steps
    → RunsOnly step c (resume_failed step d s)
unfolding resume_failed find_project launch new_step open_stream
resume_failed-RunsOnly step d s p steps c e k h =
    let st = new_step step StepStatus.pending 0 0 in
    let h' = subst (All (λ x. str_eq x.step step ≡ false)) k h in
    rw (RunsOnly, resume_failed, e)
      (refl, (_, refl, ap (get_following_steps st) k ∙ following_steps_unknown steps c st h', refl))

retry_step_resumes :
    (step : String) (s : Service) (d : DeploymentState)
    → s.current ≡ some d
    → d.status ≡ DeployStatus.failed
    → d.current_step.status ≡ StepStatus.failed
    → retry_step step s ≡ resume_failed step d s
unfolding retry_step is_running is_running_state is_failed step_is_failed
retry_step_resumes step s d e k l =
    let running : is_running_state (some d) ≡ false = rw k refl in
    let over : is_failed d ≡ true = rw k refl in
    let here : step_is_failed d ≡ true = rw l refl in rw (e, running, over, here) refl

-- When the current deployment and its step have failed, a retry of a step id that the project lacks
-- is accepted: it sets going a run of the project's last step alone, under the id that was asked for.
pub retry_step_unknown :
    (step : String) (s : Service) (d : DeploymentState) (p : Project) (steps : List StepConfig)
    → (c : StepConfig) → s.current ≡ some d
    → d.status ≡ DeployStatus.failed
    → d.current_step.status ≡ StepStatus.failed
    → find_project d.project s ≡ some p
    → p.steps ≡ steps ++ c ∷ []
    → All (λ x. str_eq x.step step ≡ false) p.steps
    → RunsOnly step c (retry_step step s)
retry_step_unknown step s d p steps c e k l f g h =
    subst (RunsOnly step c) (sym (retry_step_resumes step s d e k l))
      (resume_failed-RunsOnly step d s p steps c f g h)
