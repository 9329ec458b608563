-- ===== src/Secret.antt =====
-- The SYSDBA Secret (reconcileSysdbaSecret and generateRandomPassword of
-- internal/controller/instance_resources.go).
pub mod Keeps
pub mod Kept
pub mod Password
use kubebird.Prelude.{
  ℕ, zero, suc, String, ◌<>◌, Bool, true, false, not, Option, none, some, List, [], ◌∷◌, ◌=?◌, ◌==◌,
  if◌then◌else◌,
}
use kubebird.Prelude.Text.{quote}
use Prim.Native.Char.{Char, code}
use Prim.Native.String
use kubebird.Api.{Instance}
use kubebird.Naming.{
  labels_for_instance, with_firebird_version_label, sysdba_secret_ref_name, sysdba_username,
}
use kubebird.Kube.Objects.{Secret}
use kubebird.Kube.Calls.{
  Reply, done, fault, not_found, get_secret, create_secret, patch_secret, random_base64,
}
use kubebird.Kube.Action.{
  Action, external, failed, out_of_rounds, wrapped, pure, raise, ◌>>=◌, ◌>>◌, wrap, ask, call,
  current,
}
use kubebird.Storage.{sync_firebird_version_label}

-- password[0] == '-'
unfoldable pub begins_with_dash : String → Bool
begins_with_dash String.[] = false
begins_with_dash (String.◌∷◌ c s) = code c == b'-'

-- The loop of generateRandomPassword, on so many rounds.
unfoldable pub generate_random_password : ℕ → Action String
unfolding begins_with_dash
generate_random_password zero = raise out_of_rounds
generate_random_password (suc rounds) = do
  password ← call (random_base64 24)
  let again = generate_random_password rounds
  if begins_with_dash password then again else pure password

-- The program draws without a bound; 64 draws in a row that all begin with '-' have a probability
-- of 64 to the power of -64, and end here in `out_of_rounds`.
abbrev pub password_rounds : ℕ
password_rounds = 64

new_secret : Instance → String → Secret
new_secret i password = record {
  name = sysdba_secret_ref_name i;
  labels = with_firebird_version_label i (labels_for_instance i.name);
  entries = ("username", sysdba_username) ∷ ("password", password) ∷ [];
}

create_sysdba_secret : Instance → Action (Unit {0})
unfolding new_secret generate_random_password
create_sysdba_secret i = do
  password ← wrap "failed to generate SYSDBA password: " (generate_random_password password_rounds)
  wrap ("failed to create SYSDBA Secret " <> (quote (sysdba_secret_ref_name i) <> ": "))
      (call (create_secret (new_secret i password)))

secret_found : Instance → Reply Secret → Action (Unit {0})
unfolding create_sysdba_secret
secret_found i (done existing) =
    wrap
      ("failed to label SYSDBA Secret "
        <> (quote (sysdba_secret_ref_name i) <> " with the Firebird version: "))
      (sync_firebird_version_label (λ labels. call (patch_secret existing.name labels))
        existing.labels)
secret_found i (fault (not_found m)) =
    if i.spec.sysdba.secret_ref =? ""
    then create_sysdba_secret i
    else raise (
        failed (
          "SYSDBA Secret "
          <> (quote (sysdba_secret_ref_name i)
              <> " specified in spec.authentication.sysdba.secretRef not found")))
secret_found i (fault f) = raise (
    wrapped ("failed to get SYSDBA Secret " <> (quote (sysdba_secret_ref_name i) <> ": "))
      (external f) "")

unfoldable pub reconcile_sysdba_secret : Action (Unit {0})
unfolding secret_found
reconcile_sysdba_secret = do
  i ← current
  r ← ask (get_secret (sysdba_secret_ref_name i))
  secret_found i r
