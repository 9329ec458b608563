-- ===== src/Workload/Keeps.antt =====
-- Writing the objects that run the server keeps every stable invariant.
use kubebird.Prelude.{String, refl}
use kubebird.Kube.Objects.{ConfigMap, Service, StatefulSet}
use kubebird.Kube.Calls.{
  Env, read_config_map, write_config_map, read_service, write_service, read_stateful_set,
  write_stateful_set, set_controller_reference,
}
use kubebird.Kube.Action.{State, call}
use kubebird.Kube.Rules.{Keeps, Keeps-bind, Keeps-wrap, Keeps-current, Keeps-asks, keeps_rules}
use kubebird.Kube.Stable.{stable-IsQuiet, IsStable, call-Keeps}
use kubebird.Databases.Keeps.{sysdba_password-Keeps, quiet-IsUndropping}
use kubebird.Workload.{reconcile_config_map, reconcile_service, reconcile_stateful_set}

module _ {env : Env} {J : State → Type 0} (st : IsStable env J) where
  own-Keeps : (name : String) → Keeps env J (call (set_controller_reference name))
  own-Keeps name = call-Keeps st (set_controller_reference name) refl

  read_config_map-Keeps : (name : String) → Keeps env J (call (read_config_map name))
  read_config_map-Keeps name = call-Keeps st (read_config_map name) refl

  write_config_map-Keeps : (x : ConfigMap) → Keeps env J (call (write_config_map x))
  write_config_map-Keeps x = call-Keeps st (write_config_map x) refl

  read_service-Keeps : (name : String) → Keeps env J (call (read_service name))
  read_service-Keeps name = call-Keeps st (read_service name) refl

  write_service-Keeps : (x : Service) → Keeps env J (call (write_service x))
  write_service-Keeps x = call-Keeps st (write_service x) refl

  read_stateful_set-Keeps : (name : String) → Keeps env J (call (read_stateful_set name))
  read_stateful_set-Keeps name = call-Keeps st (read_stateful_set name) refl

  write_stateful_set-Keeps : (x : StatefulSet) → Keeps env J (call (write_stateful_set x))
  write_stateful_set-Keeps x = call-Keeps st (write_stateful_set x) refl

  pub reconcile_config_map-Keeps : Keeps env J reconcile_config_map
  unfolding reconcile_config_map
  reconcile_config_map-Keeps =
      search (keeps_rules, own-Keeps, read_config_map-Keeps, write_config_map-Keeps) depth 9

  pub reconcile_service-Keeps : Keeps env J reconcile_service
  unfolding reconcile_service
  reconcile_service-Keeps =
      search (keeps_rules, own-Keeps, read_service-Keeps, write_service-Keeps) depth 9

  pub reconcile_stateful_set-Keeps : Keeps env J reconcile_stateful_set
  unfolding reconcile_stateful_set
  reconcile_stateful_set-Keeps = Keeps-bind _ _ Keeps-current λ i. Keeps-wrap _ _ (
      Keeps-bind _ _ (read_stateful_set-Keeps i.name) λ sts.
        Keeps-bind _ _ (sysdba_password-Keeps (quiet-IsUndropping (stable-IsQuiet st))) λ password.
          Keeps-bind _ _ (Keeps-asks (λ env. env.sha256_hex))
            λ hash. Keeps-bind _ _ (own-Keeps i.name) λ _. write_stateful_set-Keeps _)
