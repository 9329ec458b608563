-- ===== src/Upgrade/Guard.antt =====
-- What guards the release of the old storage in a major upgrade: the evidence of a backup, and the
-- stage that stands for it in status.upgrade.
use kubebird.Prelude.{
  String, Bool, true, false, ◌≡◌, sym, ap, ◌∙◌, Option, none, some, List, [], ◌∷◌, inr,
}
use kubebird.Api.{InstanceStatus, UpgradeStatus, releasing}
use kubebird.Kube.Calls.{Call, Answer, Reply, Event, event, Env, delete_pvc, update_status}
use kubebird.Kube.Action.{State, ask}
use kubebird.Kube.Rules.{Keeps}
use kubebird.Kube.Stable.{IsStable, IsDetached, is_plain}
use kubebird.Kube.Honest.{IsHonest}
use kubebird.Storage.{release_primary_and_shadow_storage}
use kubebird.Storage.Keeps.{release-Keeps}
use kubebird.Backup.Evidence.{HasBackup}

-- The call may follow the history: a volume is deleted only on evidence of a backup.
abbrev pub MayRelease : String → Call → List Event → Type 0
MayRelease n (delete_pvc m) log = HasBackup n log
MayRelease n _ log = Unit

abbrev pub IsGuarded : String → List Event → Type 0
IsGuarded n [] = Unit
IsGuarded n (event c r ∷ log) = MayRelease n c log × IsGuarded n log

plain-MayRelease :
    (n : String) (c : Call) (log : List Event) → is_plain c ≡ true → MayRelease n c log
plain-MayRelease n (delete_pvc m) log h = cc
plain-MayRelease n _ log h = tt

-- The upgrade, if any, is at the stage that releases the storage.
abbrev pub is_releasing : Option UpgradeStatus → Bool
is_releasing none = false
is_releasing (some u) = elim u.stage [ releasing ↦ true | _ ↦ false ]

-- The stage that releases the storage was written, or sent to be written, only on evidence.
abbrev pub IsEarned : String → List Event → Type 0
IsEarned n [] = Unit
IsEarned n (event (update_status i) r ∷ log) =
    (is_releasing i.status.upgrade ≡ true → HasBackup n log) × IsEarned n log
IsEarned n (event _ r ∷ log) = IsEarned n log

pub plain-IsEarned :
    (n : String) (c : Call) (r : Reply (Answer c)) (log : List Event)
    → is_plain c ≡ true
    → IsEarned n log
    → IsEarned n (event c r ∷ log)
plain-IsEarned n (update_status i) r log h e = cc
plain-IsEarned n _ r log h e = e

-- The invariants below hold with and without a history that is earned.
module _ {env : Env} (honest : IsHonest env) (n : String) (tracked : Bool) where
  abbrev pub Named : State → Type 0
  Named s = (s.instance.name ≡ n) × IsGuarded n s.log × (tracked ≡ true → IsEarned n s.log)

  -- The stage in memory is earned.
  abbrev pub Trusted : State → Type 0
  Trusted s = Named s × (is_releasing s.instance.status.upgrade ≡ true → HasBackup n s.log)

  pub Trusted-stable : IsStable env Trusted
  Trusted-stable = record {
    plain = λ s c r h j. (
      (j.0.0, (plain-MayRelease n c s.log h, j.0.1), λ t. plain-IsEarned n c r s.log h (j.0.2 t)),
      λ e. inr (j.1 e),
    );
    restatus = λ s change h j. (j.0, λ e. j.1 (sym (ap is_releasing (h s.instance.status)) ∙ e));
    refused = λ s f j. ((j.0.0, (tt, j.0.1), λ t. (j.1, j.0.2 t)), λ e. inr (j.1 e));
    written = λ s i e j. (
      (honest.status_name s.log s.instance i e ∙ j.0.0, (tt, j.0.1), λ t. (j.1, j.0.2 t)),
      λ r. inr (
          j.1 (
            sym (
              ap (λ (st : InstanceStatus). is_releasing st.upgrade)
                (honest.status_status s.log s.instance i e))
            ∙ r)),
    );
  }

  abbrev pub Backed : State → Type 0
  Backed s = Named s × HasBackup n s.log

  pub Backed-detached : IsDetached env Backed
  Backed-detached = record {
    stable = record {
      plain = λ s c r h j. (
        (j.0.0, (plain-MayRelease n c s.log h, j.0.1), λ t. plain-IsEarned n c r s.log h (j.0.2 t)),
        inr j.1,
      );
      restatus = λ s change h j. j;
      refused = λ s f j. ((j.0.0, (tt, j.0.1), λ t. ((λ e. j.1), j.0.2 t)), inr j.1);
      written = λ s i e j. (
        (honest.status_name s.log s.instance i e ∙ j.0.0, (tt, j.0.1), λ t. ((λ e. j.1), j.0.2 t)),
        inr j.1,
      );
    };
    any_status = λ s change j. j;
  }

  pub Backed-Trusted : (s : State) → Backed s → Trusted s
  Backed-Trusted s j = (j.0, λ e. j.1)

  deleted : (name : String) → Keeps env Backed (ask (delete_pvc name))
  unfolding ask
  deleted name = record { at = λ s j. ((j.0.0, (j.1, j.0.1), j.0.2), inr j.1) }

  pub Backed-release : Keeps env Backed release_primary_and_shadow_storage
  Backed-release = release-Keeps Backed-detached.stable deleted
