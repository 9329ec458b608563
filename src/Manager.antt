-- ===== src/Manager.antt =====
-- The manager's start (cmd/main.go): its flags, the options that it makes of them, and the steps up
-- to the start, each of which may fail.
pub mod Started
pub mod Namespaces
use kubebird.Prelude.{
  ℕ, String, Bool, true, false, not, Option, none, some, List, [], ◌∷◌, ◌++◌, ◌=?◌, if◌then◌else◌,
}
use kubebird.Kube.Action.{Result, ok, err, failed}
use kubebird.Prelude.Text.{contains, split_on, trim_space}

pub record Flags : Type 0 where
  pub metrics_addr : String
  pub metrics_cert_path : String
  pub metrics_cert_name : String
  pub metrics_cert_key : String
  pub webhook_cert_path : String
  pub webhook_cert_name : String
  pub webhook_cert_key : String
  pub enable_leader_election : Bool
  pub probe_addr : String
  pub secure_metrics : Bool
  pub enable_http2 : Bool

-- The flags where none is given.
abbrev pub default_flags : Flags
default_flags = record {
  metrics_addr = "0";
  metrics_cert_path = "";
  metrics_cert_name = "tls.crt";
  metrics_cert_key = "tls.key";
  webhook_cert_path = "";
  webhook_cert_name = "tls.crt";
  webhook_cert_key = "tls.key";
  enable_leader_election = false;
  probe_addr = ":8081";
  secure_metrics = true;
  enable_http2 = false;
}

-- getWatchNamespace, of what os.LookupEnv answers for WATCH_NAMESPACE.
unfoldable pub get_watch_namespace : Option String → Result String
get_watch_namespace none = err (failed "WATCH_NAMESPACE must be set")
get_watch_namespace (some ns) = ok ns

-- The keys of DefaultNamespaces, each once.
unfoldable pub add_namespaces : List String → List String → List String
add_namespaces keys [] = keys
add_namespaces keys (ns ∷ namespaces) =
    add_namespaces (if contains keys (trim_space ns) then keys else keys ++ trim_space ns ∷ [])
      namespaces

unfoldable pub setup_cache_namespaces : String → List String
unfolding add_namespaces
setup_cache_namespaces namespaces = add_namespaces [] (split_on b',' namespaces)

-- What the program sets of a tls.Config.
pub record TlsConfig : Type 0 where
  pub next_protos : List String

unfoldable pub disable_http2 : TlsConfig → TlsConfig
disable_http2 c = record c { next_protos = "http/1.1" ∷ [] }

unfoldable pub tls_opts : Flags → List (TlsConfig → TlsConfig)
tls_opts flags = if flags.enable_http2 then [] else disable_http2 ∷ []

-- webhook.Options
pub record WebhookOptions : Type 0 where
  pub tls_opts : List (TlsConfig → TlsConfig)
  pub cert_dir : String
  pub cert_name : String
  pub key_name : String

-- metricsserver.Options; `with_authorization` where FilterProvider is set.
pub record MetricsOptions : Type 0 where
  pub bind_address : String
  pub secure_serving : Bool
  pub tls_opts : List (TlsConfig → TlsConfig)
  pub with_authorization : Bool
  pub cert_dir : String
  pub cert_name : String
  pub key_name : String

-- ctrl.Options, with what the webhook server is made of.
pub record ManagerOptions : Type 0 where
  pub metrics : MetricsOptions
  pub webhook_server : WebhookOptions
  pub health_probe_bind_address : String
  pub leader_election : Bool
  pub leader_election_id : String
  pub cache_namespaces : List String

-- A setting that is made only where a certificate's path is given.
abbrev given : String → String → String
given path value = if path =? "" then "" else value

unfoldable pub webhook_server_options : Flags → WebhookOptions
webhook_server_options flags = record {
  tls_opts = tls_opts flags;
  cert_dir = given flags.webhook_cert_path flags.webhook_cert_path;
  cert_name = given flags.webhook_cert_path flags.webhook_cert_name;
  key_name = given flags.webhook_cert_path flags.webhook_cert_key;
}

unfoldable pub metrics_server_options : Flags → MetricsOptions
metrics_server_options flags = record {
  bind_address = flags.metrics_addr;
  secure_serving = flags.secure_metrics;
  tls_opts = tls_opts flags;
  with_authorization = flags.secure_metrics;
  cert_dir = given flags.metrics_cert_path flags.metrics_cert_path;
  cert_name = given flags.metrics_cert_path flags.metrics_cert_name;
  key_name = given flags.metrics_cert_path flags.metrics_cert_key;
}

unfoldable pub manager_options : Flags → String → ManagerOptions
unfolding metrics_server_options webhook_server_options tls_opts
manager_options flags watch_namespace = record {
  metrics = metrics_server_options flags;
  webhook_server = webhook_server_options flags;
  health_probe_bind_address = flags.probe_addr;
  leader_election = flags.enable_leader_election;
  leader_election_id = "9d9b3fbf.github.io";
  cache_namespaces = setup_cache_namespaces watch_namespace;
}

-- The calls of controller-runtime and client-go, each of which may fail; the cluster's configuration
-- is loaded with the first.
pub data Step : Type 0 where
  new_manager : ManagerOptions → Step
  new_client_set setup_with_manager add_healthz_check add_readyz_check start : Step

abbrev pub steps : Flags → String → List Step
steps flags watch_namespace =
    new_manager (manager_options flags watch_namespace)
    ∷ new_client_set
    ∷ setup_with_manager
    ∷ add_healthz_check
    ∷ add_readyz_check
    ∷ start
    ∷ []

-- How main ended: it returned, or exited with a code.
pub data Exit : Type 0 where
  returned : Exit
  exited : ℕ → Exit

-- The steps one after the other, to the first that fails, with the steps taken, the latest first;
-- `failure` answers a step after those before it.
unfoldable pub take_steps :
    (List Step → Step → Option String) → List Step → List Step → Exit × List Step
take_steps failure taken [] = (returned, taken)
take_steps failure taken (step ∷ rest) = elim (failure taken step) [
  | none ↦ take_steps failure (step ∷ taken) rest
  | some e ↦ (exited 1, step ∷ taken)
]

abbrev start_with : (List Step → Step → Option String) → Flags → Result String → Exit × List Step
start_with failure flags (ok ns) = take_steps failure [] (steps flags ns)
start_with failure flags (err e) = (exited 1, [])

-- main, from its flags and the answer of os.LookupEnv on.
unfoldable pub main : (List Step → Step → Option String) → Flags → Option String → Exit × List Step
unfolding take_steps
main failure flags variable = start_with failure flags (get_watch_namespace variable)
