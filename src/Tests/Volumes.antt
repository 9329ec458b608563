-- ===== src/Tests/Volumes.antt =====
-- A server that has the primary volume of `shop`, without a version label, and no other volume.
use kubebird.Prelude.{◌≡◌, refl, String, List, [], ◌∷◌, none, ◌=?◌, if◌then◌else◌}
use kubebird.Kube.Calls.{Call, Answer, Reply, done, fault, not_found, Event, Env, get_pvc}
use kubebird.Kube.Objects.{Pvc}
use kubebird.Kube.Action.{State, ok, ◌>>=◌, current, ask, call, pure, wrap}
use kubebird.Naming.{label, primary_pvc_name, backup_pvc_name, shadow_pvc_name, backup_volume_spec}
use kubebird.Storage.{reconcile_pvcs, reconcile_pvc, sync_firebird_version_label}
use kubebird.Storage.Claimed.{ClaimedAll, wanted_volumes, reconcile_pvcs-ClaimedAll}
use kubebird.Tests.Server.{server, answer, start}

abbrev unlabelled : String → Pvc
unlabelled name = record {
  name = name;
  labels = [];
  access_modes = "ReadWriteOnce" ∷ [];
  size = "1Gi";
  storage_class = none;
}

abbrev volumes : List Event → (c : Call) → Reply (Answer c)
volumes log (get_pvc name) =
    if name =? "shop-primary" then done (unlabelled name) else fault (not_found name)
volumes log c = answer log c

abbrev volume_server : Env
volume_server = record server { reply = volumes }

abbrev claimed : State
claimed = (reconcile_pvcs volume_server start).1

claimed_run : reconcile_pvcs volume_server start ≡ (ok tt, claimed)
unfolding reconcile_pvcs reconcile_pvc backup_volume_spec wrap current ask call pure ◌>>=◌
    sync_firebird_version_label label primary_pvc_name backup_pvc_name shadow_pvc_name
claimed_run = refl

reconcile_pvcs-ClaimedAll_example :
    (claimed.instance ≡ start.instance)
    × ClaimedAll start.instance (wanted_volumes start.instance) [] claimed.log
reconcile_pvcs-ClaimedAll_example =
    reconcile_pvcs-ClaimedAll volume_server start claimed claimed_run
