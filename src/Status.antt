-- ===== src/Status.antt =====
-- The writers of an Instance's status (internal/controller/instance_controller.go): each skips the
-- write where nothing changes.
pub mod Keeps
pub mod Settled
use kubebird.Prelude.{
  String, ◌<>◌, Bool, true, false, not, ◌&&◌, Option, none, some, ◌=?◌, if◌then◌else◌,
}
use kubebird.Api.{Instance, InstanceStatus, Condition}
use kubebird.Kube.Action.{
  Action, Error, pure, raise, ◌>>=◌, ◌>>◌, wrap, current, modify_status, set_condition,
  write_status, error_text,
}

abbrev pub phase_provisioning : String
phase_provisioning = "Provisioning"

abbrev pub phase_ready : String
phase_ready = "Ready"

abbrev pub phase_deleting : String
phase_deleting = "Deleting"

abbrev pub phase_upgrading : String
phase_upgrading = "Upgrading"

-- Change the status and write it, unless it is as wanted already.
abbrev pub update_unless : Bool → (InstanceStatus → InstanceStatus) → String → Action (Unit {0})
update_unless same change text =
    if same then pure tt else (modify_status change >> wrap text write_status)

unfoldable pub set_phase : String → Action (Unit {0})
set_phase phase = do
  i ← current
  if i.status.phase =? phase
      then pure tt
      else do modify_status (λ st. record st { phase = phase }); write_status

unfoldable pub set_progress : String → Action (Unit {0})
set_progress message = do
  i ← current
  update_unless (i.status.message =? message && i.status.error =? "")
      (λ st. record st { message = message; error = "" }) "failed to report progress: "

unfoldable pub set_deletion_message : String → Action (Unit {0})
set_deletion_message message = do
  i ← current
  update_unless (i.status.message =? message) (λ st. record st { message = message })
      "failed to report deletion progress: "

abbrev pub message_of : Option Error → String
message_of none = ""
message_of (some e) = error_text e

abbrev condition_message : Option Condition → String
condition_message none = ""
condition_message (some c) = c.message

-- What status.message shows: the error, else the warning, else the condition's message.
unfoldable pub summary : InstanceStatus → String → String
summary st message =
    if not (message =? "")
    then message
    else if not (st.warning =? "")
    then st.warning
    else condition_message st.available

unfoldable pub set_error : Option Error → Action (Unit {0})
unfolding summary
set_error e = do
  i ← current
  let message = message_of e
  let text = summary i.status message
  if i.status.error =? message && i.status.message =? text
      then pure tt
      else do modify_status (λ st. record st { error = message; message = text }); write_status

unfoldable pub set_available : Bool → String → String → Action (Unit {0})
set_available status reason message = do
  i ← current
  changed ← set_condition (record {
    status = status;
    reason = reason;
    message = message;
    observed_generation = i.generation;
  })
  if not changed then pure tt else write_status
