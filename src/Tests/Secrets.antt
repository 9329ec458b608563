-- ===== src/Tests/Secrets.antt =====
-- A server without the SYSDBA Secret of `shop`.
use kubebird.Prelude.{◌≡◌, refl, List, []}
use kubebird.Kube.Calls.{
  Call, Answer, Reply, done, fault, not_found, Event, Env, get_secret, create_secret,
}
use kubebird.Kube.Action.{State, ok, ◌>>=◌, current, ask, call, pure, wrap}
use kubebird.Naming.{sysdba_secret_ref_name}
use kubebird.Secret.{reconcile_sysdba_secret, generate_random_password}
use kubebird.Secret.Kept.{Kept, reconcile_sysdba_secret-Kept}
use kubebird.Tests.Server.{server, answer, start}

abbrev without_secret : List Event → (c : Call) → Reply (Answer c)
without_secret log (get_secret name) = fault (not_found name)
without_secret log (create_secret x) = done tt
without_secret log c = answer log c

abbrev secretless_server : Env
secretless_server = record server { reply = without_secret }

abbrev made : State
made = (reconcile_sysdba_secret secretless_server start).1

made_run : reconcile_sysdba_secret secretless_server start ≡ (ok tt, made)
unfolding reconcile_sysdba_secret sysdba_secret_ref_name wrap current ask call pure ◌>>=◌
    generate_random_password
made_run = refl

reconcile_sysdba_secret-Kept_example :
    (made.instance ≡ start.instance) × Kept start.instance [] made.log
reconcile_sysdba_secret-Kept_example =
    reconcile_sysdba_secret-Kept secretless_server start made made_run
