-- ===== src/Replica/Registry.antt =====
-- replication/replica-link.registry.ts: the replicas that are connected to this node. The map is by the
-- id of the socket, in the order of registration; what a socket answers comes from outside, and the
-- two subjects are the lists of what they have emitted.
mod Tests
use shado_cloud.Common.{
  str_eq, if◌then◌else◌, length, keep, lookup, insert, ℕ, ◌+◌, ◌/◌, String, Bool, true, false,
  Option, none, some, List, [], ◌∷◌, ◌++◌, map,
}
use shado_cloud.Replica.Types.{LinkRole, app, updater, ImageRef, DeployAck, Progress, LinkInfo}

pub record ConnectedReplica : Type 0 where
  pub ip : String
  pub device_name : String
  pub mirror_dirs : ℕ
  pub connected_at : ℕ
  pub role : LinkRole

pub record Registry : Type 0 where
  pub replicas : List (String × ConnectedReplica)
  pub online : List LinkInfo
  pub deploy_progress : List (LinkInfo × Progress)

unfoldable pub to_info : String → ConnectedReplica → LinkInfo
to_info id entry = record {
  id = id;
  ip = entry.ip;
  device_name = entry.device_name;
  mirror_dirs = entry.mirror_dirs;
  connected_at = entry.connected_at;
  role = entry.role;
}

unfoldable pub register : String → ConnectedReplica → Registry → Registry
unfolding insert to_info
register id entry r = record r {
  replicas = insert id entry r.replicas;
  online = r.online ++ to_info id entry ∷ [];
}

-- `Map.delete`
unfoldable pub forget : String → List (String × ConnectedReplica) → List (String × ConnectedReplica)
forget id [] = []
forget id ((key, entry) ∷ more) =
    let rest = forget id more in if str_eq key id then rest else (key, entry) ∷ rest

unfoldable pub unregister : String → Registry → Registry
unfolding forget
unregister id r = record r { replicas = forget id r.replicas }

-- The role that a list is filtered by, with `none` for "any".
unfoldable pub has_role : Option LinkRole → ConnectedReplica → Bool
has_role none entry = true
has_role (some app) entry = elim entry.role [ app ↦ true | updater ↦ false ]
has_role (some updater) entry = elim entry.role [ app ↦ false | updater ↦ true ]

unfoldable pub with_role :
    Option LinkRole → List (String × ConnectedReplica) → List (String × ConnectedReplica)
unfolding has_role
with_role role entries = keep (λ e. has_role role e.1) entries

unfoldable pub list_replicas : Option LinkRole → Registry → List LinkInfo
unfolding with_role to_info
list_replicas role r = map (λ e. to_info e.0 e.1) (with_role role r.replicas)

unfoldable pub connected_ips : Registry → List String
unfolding with_role
connected_ips r = map (λ e. e.1.ip) (with_role (some app) r.replicas)

unfoldable pub connected_count : Registry → ℕ
unfolding with_role
connected_count r = length (with_role (some app) r.replicas)

-- A frame of a socket that is not known is dropped.
unfoldable pub handle_deploy_progress : String → Progress → Registry → Registry
unfolding lookup to_info
handle_deploy_progress id frame r = elim (lookup id r.replicas) [
  | none ↦ r
  | some entry ↦ record r { deploy_progress = r.deploy_progress ++ (to_info id entry, frame) ∷ [] }
]

-- How an emit with a time limit ends.
pub data Emit (R : Type 0) : Type 0 where
  replied : R → Emit R
  no_reply : Emit R
  emit_threw : String → Emit R

pub data DispatchError : Type 0 where
  not_acknowledged_within : ℕ → DispatchError
  emit_failed : String → DispatchError

pub record DispatchResult : Type 0 where
  pub replica : LinkInfo
  pub ack : Option DeployAck
  pub error : Option DispatchError

dispatch_result : ℕ → LinkInfo → Emit DeployAck → DispatchResult
dispatch_result timeout_ms replica (replied ack) = record {
  replica = replica;
  ack = some ack;
  error = none;
}
dispatch_result timeout_ms replica no_reply = record {
  replica = replica;
  ack = none;
  error = some (not_acknowledged_within ((timeout_ms + 500) / 1000));
}
dispatch_result timeout_ms replica (emit_threw message) = record {
  replica = replica;
  ack = none;
  error = some (emit_failed message);
}

-- An order with images is for the updaters, another for the apps.
unfoldable pub target_role : Option (List ImageRef) → LinkRole
target_role (some (image ∷ images)) = updater
target_role _ = app

unfoldable pub dispatch_deploy :
    Option (List ImageRef) → ℕ → (String → Emit DeployAck) → Registry → List DispatchResult
unfolding target_role with_role to_info dispatch_result
dispatch_deploy images timeout_ms answer r =
    map (λ e. dispatch_result timeout_ms (to_info e.0 e.1) (answer e.0))
      (with_role (some (target_role images)) r.replicas)

pub record FileResult (R : Type 0) : Type 0 where
  pub ip : String
  pub device_name : String
  pub mirror_dirs : ℕ
  pub report : Option R

module _ {R : Type 0} where
  file_result : ConnectedReplica → Emit R → FileResult R
  file_result entry (replied reply) = record {
    ip = entry.ip;
    device_name = entry.device_name;
    mirror_dirs = entry.mirror_dirs;
    report = some reply;
  }
  file_result entry _ = record {
    ip = entry.ip;
    device_name = entry.device_name;
    mirror_dirs = entry.mirror_dirs;
    report = none;
  }

  unfoldable pub query_file : (String → Emit R) → Registry → List (FileResult R)
  unfolding with_role file_result
  query_file answer r = map (λ e. file_result e.1 (answer e.0)) (with_role (some app) r.replicas)
