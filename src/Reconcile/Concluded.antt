-- ===== src/Reconcile/Concluded.antt =====
-- What a reconcile makes of the error of reconcileInstance.
use kubebird.Prelude.{String, ◌≡◌, refl, Option, none, some}
use kubebird.Kube.Calls.{Env}
use kubebird.Kube.Action.{Error, Result, ok, err, State, pure, ◌>>◌, accept}
use kubebird.Kube.Rules.{Does, Does-bind, Does-pure, Does-raise, Does-run}
use kubebird.Kube.Honest.{IsHonest}
use kubebird.Status.{set_progress, set_error, message_of}
use kubebird.Status.Settled.{set_progress-Does, set_error-Does}
use kubebird.Reconcile.{Outcome, settled, requeue_after_wait, error_of, wait_of, conclude}

-- A wait is requeued and stands in status.message, with no error; else nothing has failed.
abbrev pub Concluded : Option Error → Option String → Outcome → State → Type 0
Concluded e (some message) outcome t =
    (outcome ≡ requeue_after_wait)
    × (t.instance.status.message ≡ message)
    × (t.instance.status.error ≡ "")
Concluded e none outcome t = (outcome ≡ settled) × (e ≡ none) × (t.instance.status.error ≡ "")

module _ {env : Env} (honest : IsHonest env) where
  accepted-Does :
      (r : Result (Unit {0}))
      → Does env
          (λ s. s.instance.status.error ≡ message_of (error_of r))
          (accept r)
          (λ _ t. (error_of r ≡ none) × (t.instance.status.error ≡ ""))
          (λ t. Unit)
  accepted-Does (ok x) = Does-pure x λ s j. (refl, j)
  accepted-Does (err e) = Does-raise e λ s j. tt

  by_wait-Does :
      (r : Result (Unit {0})) (w : Option String)
      → Does env
          (λ s. Unit)
          (elim w [
            | some message ↦ (do set_progress message; pure requeue_after_wait)
            | none ↦ (do set_error (error_of r); accept r; pure settled)
          ])
          (Concluded (error_of r) w)
          (λ t. Unit)
  by_wait-Does r (some message) =
      Does-bind _ _ (set_progress-Does honest message)
        λ _. Does-pure requeue_after_wait λ s j. (refl, j.0, j.1)
  by_wait-Does r none =
      Does-bind _ _ (set_error-Does honest (error_of r))
        λ _. Does-bind _ _ (accepted-Does r) λ _. Does-pure settled λ s j. (refl, j.0, j.1)

-- Where Reconcile returns without an error from the result `r` of reconcileInstance, and the API
-- server answers a status write with the object written: if `r` holds a wait, the request is
-- requeued, status.message is the wait's message and status.error is empty; otherwise `r` is no
-- error, the request is not requeued, and status.error is empty.
pub conclude-Concluded :
    {env : Env}
    → IsHonest env
    → (r : Result (Unit {0})) (outcome : Outcome) (s t : State) → conclude r env s ≡ (ok outcome, t)
    → Concluded (error_of r) (wait_of (error_of r)) outcome t
unfolding conclude
conclude-Concluded honest r outcome s t run =
    Does-run (by_wait-Does honest r (wait_of (error_of r))) s t outcome tt run
