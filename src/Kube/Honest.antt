-- ===== src/Kube/Honest.antt =====
-- What the controller relies on of the API server and of controllerutil: an answer to a write is
-- the object that was written, up to what the server alone sets, an answer to a read is an object of
-- the name asked for, and AddFinalizer and RemoveFinalizer keep the name.
use kubebird.Prelude.{String, ◌≡◌, List}
use kubebird.Api.{Instance}
use kubebird.Kube.Calls.{Env, Event, done, update_status, update_instance, get_instance}

-- A status write is answered with the name, the spec and the status that were written.
pub record IsHonest (env : Env) : Type 0 where
  pub status_name :
      (log : List Event) (i i' : Instance)
      → env.reply log (update_status i) ≡ done i'
      → i'.name ≡ i.name
  pub status_spec :
      (log : List Event) (i i' : Instance)
      → env.reply log (update_status i) ≡ done i'
      → i'.spec ≡ i.spec
  pub status_status :
      (log : List Event) (i i' : Instance)
      → env.reply log (update_status i) ≡ done i'
      → i'.status ≡ i.status

-- Besides, a write of the Instance is answered with its name, a read with the name asked for, and the
-- finalizer functions keep the name.
pub record IsFaithful (env : Env) : Type 0 where
  pub honest : IsHonest env
  pub update_name :
      (log : List Event) (i i' : Instance)
      → env.reply log (update_instance i) ≡ done i'
      → i'.name ≡ i.name
  pub get_name :
      (log : List Event) (n : String) (i : Instance)
      → env.reply log (get_instance n) ≡ done i
      → i.name ≡ n
  pub add_name : (i : Instance) (f : String) → (env.add_finalizer i f).name ≡ i.name
  pub remove_name : (i : Instance) (f : String) → (env.remove_finalizer i f).name ≡ i.name
