-- ===== src/Replica/Summary.antt =====
-- admin/replica-propagation.service.ts: `allSucceeded` and `summarize`.
use shado_cloud.Common.{length, all, keep, ℕ, Bool, true, false, [], ◌∷◌}
use shado_cloud.Replica.Types.{RunStatus, RunState, PropagationState}

pub has_succeeded : RunState → Bool
has_succeeded r = elim r.status [ RunStatus.success ↦ true | _ ↦ false ]

unfoldable pub all_succeeded : PropagationState → Bool
unfolding has_succeeded
all_succeeded p = all has_succeeded p.replicas

-- "No replicas online", or "<ok>/<total> replicas deployed".
pub data Summary : Type 0 where
  no_replicas_online : Summary
  deployed_of : (ok_count total : ℕ) → Summary

unfoldable pub summarize : PropagationState → Summary
unfolding has_succeeded
summarize p = elim p.replicas [
  | [] ↦ no_replicas_online
  | r ∷ rs ↦ deployed_of (length (keep has_succeeded (r ∷ rs))) (length (r ∷ rs))
]
