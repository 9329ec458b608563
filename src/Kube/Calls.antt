-- ===== src/Kube/Calls.antt =====
-- The calls that the controller makes of code outside the repository: the Kubernetes client, exec in
-- a pod, controllerutil, crypto/rand. What they answer is the environment's choice, which may
-- depend on all calls before, so a statement over every environment covers every cluster and every
-- interleaving with other clients.
use kubebird.Prelude.{ℕ, String, Bool, Option, List}
use kubebird.Naming.{Labels}
use kubebird.Api.{Instance, Condition}
use kubebird.Kube.Objects.{StatefulSet, Pod, Pvc, Secret, ConfigMap, Service, CronJob}

pub data Call : Type 0 where
  -- client.Get
  get_instance get_stateful_set get_pod get_pvc get_secret get_cron_job : String → Call
  -- client.Create
  create_pod : Pod → Call
  create_pvc : Pvc → Call
  create_secret : Secret → Call
  -- client.Update, and Update of the status subresource
  update_instance update_status : Instance → Call
  update_stateful_set : StatefulSet → Call
  -- client.Patch of the labels of the Pod, PVC or Secret of that name
  patch_pod patch_pvc patch_secret : String → Labels → Call
  -- client.Delete
  delete_pod delete_pvc delete_cron_job : String → Call
  -- controllerutil.CreateOrUpdate in its two halves, what it reads before its callback runs and
  -- what it writes afterwards
  read_config_map read_service read_stateful_set read_cron_job : String → Call
  write_config_map : ConfigMap → Call
  write_service : Service → Call
  write_stateful_set : StatefulSet → Call
  write_cron_job : CronJob → Call
  -- controllerutil.SetControllerReference on the object of that name
  set_controller_reference : String → Call
  -- a command in the firebird container of a pod, with its standard input; it fails where the
  -- executor cannot be made
  exec : String → List String → String → Call
  -- so many bytes of crypto/rand in unpadded URL-safe base64
  random_base64 : ℕ → Call

-- Why a call failed: the API server has no such object, the command exited with a code, or else.
pub data Fault : Type 0 where
  not_found : String → Fault
  exit_code : ℕ → String → Fault
  other : String → Fault

-- What a command wrote, and the error of its stream.
pub record Output : Type 0 where
  pub stdout : String
  pub stderr : String
  pub error : Option Fault

-- What a call answers where it succeeds.
abbrev pub Answer : Call → Type 0
Answer (get_instance _) = Instance
Answer (get_stateful_set _) = StatefulSet
Answer (get_pod _) = Pod
Answer (get_pvc _) = Pvc
Answer (get_secret _) = Secret
Answer (update_instance _) = Instance
Answer (update_status _) = Instance
Answer (update_stateful_set _) = StatefulSet
Answer (read_config_map _) = ConfigMap
Answer (read_service _) = Service
Answer (read_stateful_set _) = StatefulSet
Answer (get_cron_job _) = CronJob
Answer (read_cron_job _) = CronJob
Answer (write_stateful_set _) = StatefulSet
Answer (exec _ _ _) = Output
Answer (random_base64 _) = String
Answer _ = Unit

pub data Reply (A : Type 0) : Type 0 where
  done : A → Reply A
  fault : Fault → Reply A

pub data Event : Type 0 where
  event : (c : Call) → Reply (Answer c) → Event

-- The environment: the reply to a call after a history of calls, the latest first, and the pure
-- functions of other packages: crypto/sha256 in hexadecimal; meta.SetStatusCondition on the
-- condition Available, which answers the condition that it leaves and whether it changed anything;
-- ContainsFinalizer, AddFinalizer and RemoveFinalizer of controllerutil.
pub record Env : Type 0 where
  pub reply : List Event → (c : Call) → Reply (Answer c)
  pub sha256_hex : String → String
  pub set_status_condition : Option Condition → Condition → Option Condition × Bool
  pub contains_finalizer : Instance → String → Bool
  pub add_finalizer : Instance → String → Instance
  pub remove_finalizer : Instance → String → Instance
