-- ===== src/Upgrade/Freed.antt =====
-- The release of the volumes, against a cluster that does its part.
use kubebird.Prelude.{
  String, ◌<>◌, true, false, ◌≡◌, refl, sym, ap, ◌∙◌, subst, Option, List, [], ◌∷◌, is_none,
  if◌then◌else◌, inl, inr, Bool-cases,
}
use kubebird.Api.{Instance, InstanceSpec, UpgradeStatus}
use kubebird.Naming.{primary_pvc_name, shadow_pvc_name}
use kubebird.Kube.Calls.{Event, Env}
use kubebird.Kube.Rules.{Does-bind, Does-when, Does-pure, Does-weaken}
use kubebird.Storage.{release_primary_and_shadow_storage}
use kubebird.Upgrade.{release_storage_for_upgrade}
use kubebird.Upgrade.Histories.{Deleted, AllDeleted, Lasts, Any, Any-lasts, Deleted-lasts}
use kubebird.Upgrade.Cooperates.{
  Cooperates, clash, At, Goes, read_known, set_deletion_message-Goes, delete_volume-Goes,
  await_released-Goes,
}

module _ {env : Env} {n : String} (c : Cooperates env n) (spec : InstanceSpec) where
  -- The volumes of the Instance that an upgrade releases are deleted.
  abbrev Released : List Event → Type 0
  Released log =
      Deleted (n <> "-primary") log
      × (is_none spec.storage.shadow ≡ false → Deleted (n <> "-shadow") log)

  Released-lasts : Lasts Released
  Released-lasts = record {
    after = λ d r log p h. (
      (Deleted-lasts (n <> "-primary")).after d r log p h.0,
      λ q. (Deleted-lasts (n <> "-shadow")).after d r log p (h.1 q),
    );
  }

  primary_name : (i : Instance) → i.name ≡ n → primary_pvc_name i ≡ n <> "-primary"
  unfolding primary_pvc_name
  primary_name i e = rw e refl

  shadow_name : (i : Instance) → i.name ≡ n → shadow_pvc_name i ≡ n <> "-shadow"
  unfolding shadow_pvc_name
  shadow_name i e = rw e refl

  shadowed :
      (i : Instance) → i.spec ≡ spec → is_none i.spec.storage.shadow ≡ is_none spec.storage.shadow
  shadowed i e = ap (λ (x : InstanceSpec). is_none x.storage.shadow) e

  release-Goes :
      (u : Option UpgradeStatus)
      → Goes c spec Any u release_primary_and_shadow_storage (λ _. At c spec Released u)
  unfolding release_primary_and_shadow_storage
  release-Goes u = Does-bind _ _ (set_deletion_message-Goes c spec Any-lasts u _) λ _.
      read_known c spec Any-lasts u _ λ i e name same.
        Does-bind _ _ (delete_volume-Goes c spec Any-lasts u (primary_pvc_name i)) λ _.
          Does-weaken
            (λ s j. (j.0, j.1, j.2, subst (λ m. Deleted m s.log) (primary_name i name) j.3.1))
            (λ a s j. j)
            (read_known c spec (Deleted-lasts (n <> "-primary")) u _ λ i' e' name' same'.
              Does-when (is_none i'.spec.storage.shadow) _ _
                (λ h. Does-pure tt λ s j.
                  (j.0, j.1, j.2, (j.3, λ q. absurd (clash (sym q ∙ sym (shadowed i' same') ∙ h)))))
                λ h.
                  Does-weaken (λ s j. j)
                    (λ a s j. (
                      j.0,
                      j.1,
                      j.2,
                      (j.3.0, λ q. subst (λ m. Deleted m s.log) (shadow_name i' name') j.3.1),
                    ))
                    (delete_volume-Goes c spec (Deleted-lasts (n <> "-primary")) u
                      (shadow_pvc_name i')))

  all_volumes :
      (i : Instance) (log : List Event)
      → i.name ≡ n
      → i.spec ≡ spec
      → Released log
      → AllDeleted
          (primary_pvc_name i
            ∷ (if is_none i.spec.storage.shadow then [] else shadow_pvc_name i ∷ []))
          log
  all_volumes i log name same h = elim (Bool-cases (is_none i.spec.storage.shadow)) [
    | inl e ↦ (primary, rw e tt)
    | inr e ↦ (
      primary,
      rw e (
          (
            subst (λ m. Deleted m log) (sym (shadow_name i name)) (h.1 (sym (shadowed i same) ∙ e)),
            tt,
          )),
    )
  ]
    where
      primary : Deleted (primary_pvc_name i) log
      primary = subst (λ m. Deleted m log) (sym (primary_name i name)) h.0

  pub release_storage-Goes :
      (u : Option UpgradeStatus)
      → Goes c spec Any u release_storage_for_upgrade (λ gone s. (gone ≡ true) × At c spec Any u s)
  unfolding release_storage_for_upgrade
  release_storage-Goes u = Does-bind _ _ (release-Goes u) λ _.
      read_known c spec Released-lasts u _ λ i e name same.
        Does-weaken (λ s j. j) (λ gone s j. (j.0, (j.1.0, j.1.1, j.1.2, tt)))
          (await_released-Goes c spec Released-lasts u
            (primary_pvc_name i
              ∷ (if is_none i.spec.storage.shadow then [] else shadow_pvc_name i ∷ []))
            λ log h. all_volumes i log name same h)
