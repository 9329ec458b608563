-- ===== src/Status/Keeps.antt =====
-- The writers of the status keep every stable invariant.
use kubebird.Prelude.{String, Bool, Option}
use kubebird.Kube.Calls.{Env}
use kubebird.Kube.Action.{Error, State}
use kubebird.Kube.Rules.{Keeps, keeps_rules}
use kubebird.Kube.Stable.{IsStable, modify_status-Keeps, write_status-Keeps, set_condition-Keeps}
use kubebird.Status.{set_phase, set_progress, set_deletion_message, set_error, set_available}

ruleset stable_rules = (keeps_rules, modify_status-Keeps, write_status-Keeps, set_condition-Keeps)

module _ {env : Env} {J : State → Type 0} (st : IsStable env J) where
  pub set_phase-Keeps : (phase : String) → Keeps env J (set_phase phase)
  unfolding set_phase
  set_phase-Keeps phase = search stable_rules

  pub set_progress-Keeps : (message : String) → Keeps env J (set_progress message)
  unfolding set_progress
  set_progress-Keeps message = search (stable_rules) depth 8

  pub set_deletion_message-Keeps : (message : String) → Keeps env J (set_deletion_message message)
  unfolding set_deletion_message
  set_deletion_message-Keeps message = search (stable_rules) depth 8

  pub set_error-Keeps : (e : Option Error) → Keeps env J (set_error e)
  unfolding set_error
  set_error-Keeps e = search (stable_rules) depth 8

  pub set_available-Keeps :
      (status : Bool) (reason message : String) → Keeps env J (set_available status reason message)
  unfolding set_available
  set_available-Keeps status reason message = search (stable_rules) depth 8
