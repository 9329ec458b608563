-- ===== src/Naming/Distinct.antt =====
-- The names of an Instance's objects.
use kubebird.Prelude.{String, ◌<>◌, ◌≡◌, ◌≢◌, refl, false, arith, eq_iff, ◌=?◌}
use text.Mathlib.TextLemmas.{append_cancel_left}
use kubebird.Api.{Instance}
use kubebird.Naming.{primary_pvc_name, backup_pvc_name}

pub suffixes_differ : (n s t : String) → (s =? t) ≡ false → n <> s ≢ n <> t
suffixes_differ n s t h e = grind (arith, eq_iff s t, append_cancel_left n s t e)

pub primary_pvc_name-ne-backup_pvc_name : (i : Instance) → primary_pvc_name i ≢ backup_pvc_name i
unfolding primary_pvc_name backup_pvc_name
primary_pvc_name-ne-backup_pvc_name i = suffixes_differ i.name "-primary" "-backup" refl
