-- ===== src/Tests/Upgrading.antt =====
-- An API server that keeps the status, on which Instance `shop` runs Firebird 4.
use kubebird.Prelude.{false, ◌≡◌, refl, sym, ap, ◌∙◌, subst, none, List, [], ◌∷◌, inl, inr}
use kubebird.Api.{Instance, InstanceStatus}
use kubebird.Kube.Calls.{
  Call, Answer, Reply, done, fault, Event, event, Env, get_instance, get_stateful_set, get_pod,
  update_instance, update_status,
}
use kubebird.Kube.Honest.{IsHonest, IsFaithful}
use kubebird.Reconcile.Lasting.{WasStored, Persists}
use kubebird.Tests.Server.{server, answer, instance_of, server_set, value_of, server_pod}
use kubebird.Kube.Objects.{succeeded}

-- The Instance with the status that was written last.
abbrev latest : List Event → Instance
latest [] = instance_of false "shop"
latest (event (update_status i) (done i') ∷ log) = record (instance_of false "shop") {
  status = i.status;
}
latest (event _ r ∷ log) = latest log

abbrev keeping : List Event → (c : Call) → Reply (Answer c)
keeping log (get_instance n) = done (record (latest log) { name = n })
keeping log (update_instance i) = done (record (latest log) { name = i.name })
keeping log (get_stateful_set n) = done (server_set "4.0.2")
keeping log (get_pod n) = done (record (server_pod n) { phase = succeeded })
keeping log c = answer log c

abbrev pub upgrading_server : Env
upgrading_server = record server { reply = keeping }

pub upgrading_server-IsHonest : IsHonest upgrading_server
upgrading_server-IsHonest = record {
  status_name = λ log i i' e. ap (λ r. (value_of i r).name) (sym e);
  status_spec = λ log i i' e. ap (λ r. (value_of i r).spec) (sym e);
  status_status = λ log i i' e. ap (λ r. (value_of i r).status) (sym e);
}

pub upgrading_server-IsFaithful : IsFaithful upgrading_server
upgrading_server-IsFaithful = record {
  honest = upgrading_server-IsHonest;
  update_name = λ log i i' e. ap (λ r. (value_of i r).name) (sym e);
  get_name = λ log n i e. ap (λ r. (value_of i r).name) (sym e);
  add_name = λ i f. refl;
  remove_name = λ i f. refl;
}

latest-live : (log : List Event) → (latest log).deleting ≡ false
latest-live [] = refl
latest-live (event (update_status i) (done i') ∷ log) = refl
latest-live (event _ r ∷ log) = latest-live log

latest-WasStored : (log : List Event) → WasStored none (latest log).status.upgrade log
latest-WasStored [] = refl
latest-WasStored (event (update_status i) (done i') ∷ log) = inl refl
latest-WasStored (event (update_status i) (fault f) ∷ log) = inr (latest-WasStored log)
latest-WasStored (event _ r ∷ log) = latest-WasStored log

stored :
    (log : List Event) (i : Instance)
    → (latest log).status ≡ i.status
    → WasStored none i.status.upgrade log
stored log i e =
    subst (λ (st : InstanceStatus). WasStored none st.upgrade log) e (latest-WasStored log)

pub upgrading_server-Persists : Persists upgrading_server "shop" none
upgrading_server-Persists = record {
  read_live = λ log i e. ap (λ r. (value_of i r).deleting) (sym e) ∙ latest-live log;
  read_stored = λ log i e. stored log i (ap (λ r. (value_of i r).status) e);
  update_stored = λ log i i' e. stored log i' (ap (λ r. (value_of i' r).status) e);
  add_status = λ i f. refl;
}
