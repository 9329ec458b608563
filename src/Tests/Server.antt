-- ===== src/Tests/Server.antt =====
-- An Instance and API servers to run the reconciler against, and what it does there.
use kubebird.Prelude.{
  String, ◌<>◌, Bool, true, false, refl, sym, ap, none, some, List, [], ◌∷◌, pos,
}
use kubebird.Api.{Instance, InstanceSpec, StorageVolumeSpec, logical}
use kubebird.Kube.Objects.{StatefulSet, Service, CronJob, Pod, running}
use kubebird.Kube.Calls.{
  Call, Answer, Reply, done, fault, other, not_found, Event, Env, get_instance, get_stateful_set,
  get_secret, delete_pvc, update_instance, update_status, exec, random_base64, get_pod, get_pvc,
  create_pvc, get_cron_job, read_config_map, write_config_map, read_service, write_service,
  read_stateful_set, write_stateful_set, read_cron_job, write_cron_job, delete_cron_job,
  set_controller_reference,
}
use kubebird.Kube.Action.{State}
use kubebird.Kube.Honest.{IsHonest, IsFaithful}

abbrev pub volume : StorageVolumeSpec
volume = record { class = "standard"; size = "1Gi" }

abbrev pub shop : InstanceSpec
shop = record {
  image = "firebirdsql/firebird";
  version = "5.0.1";
  databases =
      record {
        name = "a.fdb";
        alias = none;
        shadow = false;
        page_size = 0;
        charset = "";
        collation = "";
      }
      ∷ record {
        name = "b.fdb";
        alias = some "b";
        shadow = false;
        page_size = 8192;
        charset = "UTF8";
        collation = "";
      }
      ∷ [];
  service = record { service_type = ""; port = 0 };
  storage = record { primary = volume; shadow = some volume };
  sysdba = record { secret_ref = "" };
  backup = record {
    enabled = true;
    destinations = record { local = some (record { storage = volume }) } ∷ [];
    image = "";
    backup_on_delete = none;
    compress = true;
    mode = record { mode_type = logical; incremental = false };
    retention = record { hour = "24h"; day = "7d"; week = ""; month = ""; year = "" };
  };
}

abbrev pub instance_of : Bool → String → Instance
instance_of gone n = record {
  name = n;
  generation = 1;
  deleting = gone;
  finalizers = [];
  spec = shop;
  status = record {
    available = none;
    databases = "a.fdb" ∷ "old.fdb" ∷ [];
    database_count = pos 2;
    phase = "";
    error = "";
    message = "";
    warning = "";
    firebird_version = "";
    upgrade = none;
  };
}

abbrev pub server_set : String → StatefulSet
server_set version = record {
  name = "shop";
  labels = [];
  owner = none;
  created = true;
  selector = none;
  replicas = some 1;
  service_name = "shop";
  template_labels = [];
  template_annotations = [];
  containers =
      record {
        name = "firebird";
        image = "docker.io/firebirdsql/firebird:" <> version;
        allow_privilege_escalation = false;
        seccomp_profile = "";
        command = [];
        ports = [];
        variables = [];
        mounts = [];
      }
      ∷ [];
  init_containers = [];
  volumes = [];
  status_replicas = 1;
  ready_replicas = 1;
}

abbrev pub old_service : Service
old_service = record {
  name = "shop";
  labels = [];
  owner = none;
  service_type = "";
  selector = [];
  ports = [];
}

abbrev pub old_job : CronJob
old_job = record {
  name = "shop-hour";
  labels = [];
  owner = none;
  schedule = "";
  concurrency_policy = "";
  successful_history = 0;
  failed_history = 0;
  job_labels = [];
  pod_labels = [];
  backoff_limit = 0;
  active_deadline_seconds = 0;
  restart_policy = "";
  affinity_labels = [];
  topology_key = "";
  volumes = [];
  containers = [];
}

abbrev pub server_pod : String → Pod
server_pod n = record {
  name = n;
  labels = ("kubebird.github.io/firebird-version", "5.0.1") ∷ [];
  owner = none;
  restart_policy = "";
  containers = [];
  volumes = [];
  phase = running;
  terminated = [];
  reason = "";
}

-- Commands print nothing and end well; the StatefulSet is gone; a volume is deleted at once.
abbrev pub answer : List Event → (c : Call) → Reply (Answer c)
answer log (get_instance n) = done (instance_of true n)
answer log (update_instance i) = done i
answer log (update_status i) = done i
answer log (get_stateful_set n) = fault (not_found n)
answer log (get_secret n) =
    done (record { name = n; labels = []; entries = ("password", "secret") ∷ [] })
answer log (exec pod command stdin) = done (record { stdout = ""; stderr = ""; error = none })
answer log (delete_pvc n) = done tt
answer log (random_base64 n) = done "Zm9v"
answer log (get_pod n) = done (server_pod n)
answer log (get_pvc n) = fault (not_found n)
answer log (create_pvc p) = done tt
answer log (get_cron_job n) = done old_job
answer log (read_config_map n) = done (record { name = n; labels = []; owner = none; entries = [] })
answer log (write_config_map m) = done tt
answer log (read_service n) = done old_service
answer log (write_service v) = done tt
answer log (read_stateful_set n) = done (server_set "5.0.1")
answer log (write_stateful_set sts) = done sts
answer log (read_cron_job n) = done old_job
answer log (write_cron_job job) = done tt
answer log (delete_cron_job n) = done tt
answer log (set_controller_reference n) = done tt
answer log _ = fault (other "unavailable")

abbrev pub server : Env
server = record {
  reply = answer;
  sha256_hex = λ text. text;
  set_status_condition = λ old new. (some new, true);
  contains_finalizer = λ i f. true;
  add_finalizer = λ i f. i;
  remove_finalizer = λ i f. i;
}

abbrev pub value_of : Instance → Reply Instance → Instance
value_of i (done i') = i'
value_of i (fault f) = i

pub server-IsHonest : IsHonest server
server-IsHonest = record {
  status_name = λ log i i' e. ap (λ r. (value_of i r).name) (sym e);
  status_spec = λ log i i' e. ap (λ r. (value_of i r).spec) (sym e);
  status_status = λ log i i' e. ap (λ r. (value_of i r).status) (sym e);
}

pub server-IsFaithful : IsFaithful server
server-IsFaithful = record {
  honest = server-IsHonest;
  update_name = λ log i i' e. ap (λ r. (value_of i r).name) (sym e);
  get_name = λ log n i e. ap (λ r. (value_of i r).name) (sym e);
  add_name = λ i f. refl;
  remove_name = λ i f. refl;
}

abbrev pub start : State
start = record { instance = instance_of true "shop"; log = [] }
