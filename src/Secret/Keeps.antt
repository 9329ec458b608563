-- ===== src/Secret/Keeps.antt =====
-- Making the SYSDBA Secret keeps every stable invariant.
use kubebird.Prelude.{ℕ, zero, suc, String, refl}
use kubebird.Api.{Instance}
use kubebird.Kube.Objects.{Secret}
use kubebird.Kube.Calls.{
  Env, Reply, done, fault, not_found, get_secret, create_secret, patch_secret, random_base64,
}
use kubebird.Kube.Calls
use kubebird.Kube.Action.{State, call, ask}
use kubebird.Kube.Rules.{Keeps, Keeps-wrap, Keeps-if, Keeps-bind, Keeps-pure, keeps_rules}
use kubebird.Kube.Stable.{IsStable, ask-Keeps, call-Keeps}
use kubebird.Storage.Keeps.{sync_firebird_version_label-Keeps}
use kubebird.Secret.{
  generate_random_password, create_sysdba_secret, secret_found, reconcile_sysdba_secret,
  password_rounds,
}

module _ {env : Env} {J : State → Type 0} (st : IsStable env J) where
  generate_random_password-Keeps : (rounds : ℕ) → Keeps env J (generate_random_password rounds)
  unfolding generate_random_password
  generate_random_password-Keeps zero = search keeps_rules
  generate_random_password-Keeps (suc rounds) =
      Keeps-bind _ _ (call-Keeps st (random_base64 24) refl)
        λ p. Keeps-if _ _ _ (λ _. generate_random_password-Keeps rounds) (λ _. Keeps-pure p)

  create_secret-Keeps : (x : Secret) → Keeps env J (call (create_secret x))
  create_secret-Keeps x = call-Keeps st (create_secret x) refl

  create_sysdba_secret-Keeps : (i : Instance) → Keeps env J (create_sysdba_secret i)
  unfolding create_sysdba_secret
  create_sysdba_secret-Keeps i =
      Keeps-bind _ _ (Keeps-wrap _ _ (generate_random_password-Keeps password_rounds))
        λ p. Keeps-wrap _ _ (create_secret-Keeps _)

  secret_found-Keeps : (i : Instance) (r : Reply Secret) → Keeps env J (secret_found i r)
  unfolding secret_found
  secret_found-Keeps i (done x) =
      Keeps-wrap _ _ (
        sync_firebird_version_label-Keeps _ x.labels
          λ l. call-Keeps st (patch_secret x.name l) refl)
  secret_found-Keeps i (fault (not_found m)) = search (keeps_rules, create_sysdba_secret-Keeps)
  secret_found-Keeps i (fault (Calls.exit_code c m)) = search keeps_rules
  secret_found-Keeps i (fault (Calls.other m)) = search keeps_rules

  get_secret-Keeps : (name : String) → Keeps env J (ask (get_secret name))
  get_secret-Keeps name = ask-Keeps st (get_secret name) refl

  pub reconcile_sysdba_secret-Keeps : Keeps env J reconcile_sysdba_secret
  unfolding reconcile_sysdba_secret
  reconcile_sysdba_secret-Keeps = search (keeps_rules, get_secret-Keeps, secret_found-Keeps)
