-- ===== src/Kube/Objects.antt =====
-- The Kubernetes objects that the controller reads and writes, with the fields that it sets or
-- looks at. Names are within the Instance's namespace. `owner` is the controller reference.
use kubebird.Prelude.{ℕ, String, Bool, Option, List}
use kubebird.Naming.{Labels}

pub record VolumeMount : Type 0 where
  pub name : String
  pub mount_path : String
  pub sub_path : String
  pub read_only : Bool

pub data VolumeSource : Type 0 where
  claim config_map : String → VolumeSource

pub record Volume : Type 0 where
  pub name : String
  pub source : VolumeSource

-- A literal value, or the key of a Secret.
pub data EnvSource : Type 0 where
  literal : String → EnvSource
  secret_key : String → String → EnvSource

pub record EnvVar : Type 0 where
  pub name : String
  pub source : EnvSource

pub record Container : Type 0 where
  pub name : String
  pub image : String
  pub allow_privilege_escalation : Bool
  pub seccomp_profile : String
  pub command : List String
  pub ports : List ℕ
  pub variables : List EnvVar
  pub mounts : List VolumeMount

pub record StatefulSet : Type 0 where
  pub name : String
  pub labels : Labels
  pub owner : Option String
  pub created : Bool  -- CreationTimestamp is set
  pub selector : Option Labels
  pub replicas : Option ℕ
  pub service_name : String
  pub template_labels : Labels
  pub template_annotations : Labels
  pub containers : List Container
  pub init_containers : List Container
  pub volumes : List Volume
  pub status_replicas : ℕ
  pub ready_replicas : ℕ

pub data PodPhase : Type 0 where
  pending running succeeded failed unknown : PodPhase

pub record Terminated : Type 0 where
  pub exit_code : ℕ
  pub reason : String
  pub message : String

pub record Pod : Type 0 where
  pub name : String
  pub labels : Labels
  pub owner : Option String
  pub restart_policy : String
  pub containers : List Container
  pub volumes : List Volume
  pub phase : PodPhase
  pub terminated : List (Option Terminated)  -- of each container status
  pub reason : String

pub record Pvc : Type 0 where
  pub name : String
  pub labels : Labels
  pub access_modes : List String
  pub size : String
  pub storage_class : Option String

pub record Secret : Type 0 where
  pub name : String
  pub labels : Labels
  pub entries : List (String × String)

pub record ConfigMap : Type 0 where
  pub name : String
  pub labels : Labels
  pub owner : Option String
  pub entries : List (String × String)

pub record ServicePort : Type 0 where
  pub name : String
  pub protocol : String
  pub port : ℕ
  pub target_port : ℕ

pub record Service : Type 0 where
  pub name : String
  pub labels : Labels
  pub owner : Option String
  pub service_type : String
  pub selector : Labels
  pub ports : List ServicePort

-- A CronJob with the one container of its Job's pod.
pub record CronJob : Type 0 where
  pub name : String
  pub labels : Labels
  pub owner : Option String
  pub schedule : String
  pub concurrency_policy : String
  pub successful_history : ℕ
  pub failed_history : ℕ
  pub job_labels : Labels
  pub pod_labels : Labels
  pub backoff_limit : ℕ
  pub active_deadline_seconds : ℕ
  pub restart_policy : String
  pub affinity_labels : Labels
  pub topology_key : String
  pub volumes : List Volume
  pub containers : List Container
