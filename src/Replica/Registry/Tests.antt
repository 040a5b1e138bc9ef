-- ===== src/Replica/Registry/Tests.antt =====
-- An app and an updater on one host.
use shado_cloud.Common.{length, String, ◌≡◌, refl, some, []}
use shado_cloud.Replica.Types.{app, updater, DeployAck}
use shado_cloud.Replica.Registry.{
  ConnectedReplica, Registry, register, unregister, connected_ips, connected_count, Emit, no_reply,
  dispatch_deploy,
}

abbrev nobody : Registry
nobody = record { replicas = []; online = []; deploy_progress = [] }

abbrev an_app : ConnectedReplica
an_app = record {
  ip = "10.0.0.2";
  device_name = "pi";
  mirror_dirs = 1;
  connected_at = 5;
  role = app;
}

abbrev an_updater : ConnectedReplica
an_updater = record {
  ip = "10.0.0.2";
  device_name = "pi";
  mirror_dirs = 0;
  connected_at = 6;
  role = updater;
}

two : Registry
unfolding register
two = register "u" an_updater (register "a" an_app nobody)

one_app : connected_count two ≡ 1
unfolding two connected_count
one_app = refl

left : connected_ips (unregister "a" two) ≡ []
unfolding two connected_ips unregister
left = refl

silent : String → Emit DeployAck
silent id = no_reply

order_for_apps : length (dispatch_deploy (some []) 15000 silent two) ≡ 1
unfolding two dispatch_deploy silent
order_for_apps = refl
