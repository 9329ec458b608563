-- ===== src/Watches.antt =====
-- Which Instances a change of a Secret has reconciled (findInstancesForSecret, and the field index of
-- SetupWithManager, in internal/controller/instance_controller.go).
pub mod Requested
use kubebird.Prelude.{String, Option, none, some, List, [], ◌∷◌, map}
use kubebird.Api.{Instance}
use kubebird.Naming.{sysdba_secret_ref_name}
use kubebird.Kube.Calls.{Reply, done, fault}

-- An Instance in its namespace.
pub record Item : Type 0 where
  pub namespace : String
  pub instance : Instance

-- The function that SetupWithManager indexes objects by, of an Instance or another object.
unfoldable pub secret_ref_index : Option Instance → List String
secret_ref_index none = []
secret_ref_index (some i) = sysdba_secret_ref_name i ∷ []

pub record Request : Type 0 where
  pub namespace : String
  pub name : String

abbrev pub request : Item → Request
request x = record { namespace = x.namespace; name = x.instance.name }

abbrev requests : Reply (List Item) → List Request
requests (done items) = map request items
requests (fault f) = []

-- `list` answers r.List for a namespace and a value of the index.
unfoldable pub find_instances_for_secret :
    (String → String → Reply (List Item)) → String → String → List Request
find_instances_for_secret list namespace name = requests (list namespace name)
