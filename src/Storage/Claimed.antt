-- ===== src/Storage/Claimed.antt =====
-- What a reconcile of the volumes that gets through has called.
use kubebird.Prelude.{
  if◌then◌else◌, String, Bool, true, false, ◌||◌, ◌=?◌, ◌≡◌, refl, sym, subst, Option, none, some,
  List, [], ◌∷◌, ◌++◌,
}
use kubebird.Api.{Instance, StorageVolumeSpec}
use kubebird.Naming.{
  Labels, with_firebird_version_label, labels_for_instance, label, set_label,
  firebird_version_label_key, primary_pvc_name, shadow_pvc_name, backup_pvc_name,
  backup_volume_spec,
}
use kubebird.Kube.Objects.{Pvc}
use kubebird.Kube.Calls.{
  Env, Reply, done, fault, not_found, Event, event, get_pvc, create_pvc, patch_pvc,
}
use kubebird.Kube.Calls
use kubebird.Kube.Action.{State, ok}
use kubebird.Kube.Rules.{
  Does, Does-bind, Does-pure, Does-raise, Does-weaken, Does-when, Does-wrap, Does-run,
}
use kubebird.Kube.Traced.{Since, Anything, ask_then, called, read, Does-some, Does-given}
use kubebird.Storage.{
  sync_firebird_version_label, new_pvc, pvc_got, reconcile_pvc, reconcile_backup_pvc,
  reconcile_shadow_pvc, reconcile_pvcs,
}

-- The volumes that the spec of an Instance asks for.
abbrev optional : String → Option StorageVolumeSpec → List (String × StorageVolumeSpec)
optional name none = []
optional name (some vol) = (name, vol) ∷ []

abbrev pub wanted_volumes : Instance → List (String × StorageVolumeSpec)
wanted_volumes i =
    (primary_pvc_name i, i.spec.storage.primary)
    ∷ (optional (backup_pvc_name i) (backup_volume_spec i)
        ++ optional (shadow_pvc_name i) i.spec.storage.shadow)

-- No version is known, or the labels name the known one.
abbrev pub is_labelled : Instance → Labels → Bool
is_labelled i labels =
    i.status.firebird_version =? ""
    || label firebird_version_label_key labels =? i.status.firebird_version

-- The calls that bring the PVC of a volume in line, from the history `l` to `l'`: it is there with
-- the label, or gets the label, or is created if there is none.
pub data Claimed (i : Instance) (v : String × StorageVolumeSpec) (l l' : List Event) : Type 0 where
  present :
      (p : Pvc)
      → is_labelled i p.labels ≡ true
      → l' ≡ event (get_pvc v.0) (done p) ∷ l
      → Claimed i v l l'
  labelled :
      (p : Pvc)
      → is_labelled i p.labels ≡ false
      → l'
        ≡ event
            (patch_pvc v.0
              (set_label firebird_version_label_key i.status.firebird_version p.labels))
            (done tt)
          ∷ event (get_pvc v.0) (done p)
          ∷ l
      → Claimed i v l l'
  created :
      (m : String)
      → l'
        ≡ event
            (create_pvc (record {
              name = v.0;
              labels = with_firebird_version_label i (labels_for_instance i.name);
              access_modes = "ReadWriteOnce" ∷ [];
              size = v.1.size;
              storage_class = if v.1.class =? "" then none else some v.1.class;
            }))
            (done tt)
          ∷ event (get_pvc v.0) (fault (not_found m))
          ∷ l
      → Claimed i v l l'

-- Each of the volumes is claimed, one after the other.
pub data ClaimedAll (i : Instance)
    : List (String × StorageVolumeSpec) → List Event → List Event → Type 0 where
  finish : (l : List Event) → ClaimedAll i [] l l
  claim :
      {v : String × StorageVolumeSpec} {vs : List (String × StorageVolumeSpec)}
      {l l' l'' : List Event}
      → Claimed i v l l'
      → ClaimedAll i vs l' l''
      → ClaimedAll i (v ∷ vs) l l''

append-ClaimedAll :
    {i : Instance} {vs ws : List (String × StorageVolumeSpec)} {l l' l'' : List Event}
    → ClaimedAll i vs l l'
    → ClaimedAll i ws l' l''
    → ClaimedAll i (vs ++ ws) l l''
append-ClaimedAll (finish l) d = d
append-ClaimedAll (claim h c) d = claim h (append-ClaimedAll c d)

abbrev After : Instance → List (String × StorageVolumeSpec) → List Event → State → Type 0
After i vs l s = (l' : List Event) × (ClaimedAll i vs l l' × Since i l' s)

one :
    (i : Instance) (l : List Event) {name : String} {vol : StorageVolumeSpec} {l' : List Event}
    (s : State)
    → Claimed i (name, vol) l l'
    → Since i l' s
    → After i ((name, vol) ∷ []) l s
one i l {l'} s h j = (l', (claim h (finish l'), j))

module _ {env : Env} (i : Instance) (l : List Event) where
  pvc_got-Does :
      (name : String) (vol : StorageVolumeSpec) (r : Reply Pvc)
      → Does env
          (Since i (event (get_pvc name) r ∷ l))
          (pvc_got name vol r)
          (λ _. After i ((name, vol) ∷ []) l)
          Anything
  unfolding pvc_got new_pvc sync_firebird_version_label
  pvc_got-Does name vol (done p) = Does-wrap _ _ (
      read _ (
        Does-when (is_labelled i p.labels) _ _
          (λ h. Does-pure tt λ s j. one i l s (present p h refl) j)
          λ h.
            Does-weaken (λ s j. j) (λ a s j. one i l s (labelled p h refl) j)
              (called (patch_pvc name _))))
  pvc_got-Does name vol (fault (not_found m)) = read _ (
      Does-wrap _ _ (
        Does-weaken (λ s j. j) (λ a s j. one i l s (created m refl) j)
          (called (create_pvc (new_pvc i name vol)))))
  pvc_got-Does name vol (fault (Calls.exit_code c m)) = Does-raise _ λ s j. tt
  pvc_got-Does name vol (fault (Calls.other m)) = Does-raise _ λ s j. tt

  reconcile_pvc-Does :
      (name : String) (vol : StorageVolumeSpec)
      → Does env (Since i l) (reconcile_pvc name vol) (λ _. After i ((name, vol) ∷ []) l) Anything
  unfolding reconcile_pvc
  reconcile_pvc-Does name vol = ask_then (get_pvc name) _ λ r. pvc_got-Does name vol r

  reconcile_backup_pvc-Does :
      (v : Option StorageVolumeSpec)
      → Does env
          (Since i l)
          (reconcile_backup_pvc i v)
          (λ _. After i (optional (backup_pvc_name i) v) l)
          Anything
  unfolding reconcile_backup_pvc
  reconcile_backup_pvc-Does none = Does-pure tt λ s j. (l, (finish l, j))
  reconcile_backup_pvc-Does (some vol) = Does-wrap _ _ (reconcile_pvc-Does _ vol)

  reconcile_shadow_pvc-Does :
      (v : Option StorageVolumeSpec)
      → Does env
          (Since i l)
          (reconcile_shadow_pvc i v)
          (λ _. After i (optional (shadow_pvc_name i) v) l)
          Anything
  unfolding reconcile_shadow_pvc
  reconcile_shadow_pvc-Does none = Does-pure tt λ s j. (l, (finish l, j))
  reconcile_shadow_pvc-Does (some vol) = Does-wrap _ _ (reconcile_pvc-Does _ vol)

reconcile_pvcs-Does :
    {env : Env} (i : Instance) (l : List Event)
    → Does env (Since i l) reconcile_pvcs (λ _. After i (wanted_volumes i) l) Anything
unfolding reconcile_pvcs
reconcile_pvcs-Does i l = read _ (
    Does-bind _ _
      (Does-wrap _ _ (reconcile_pvc-Does i l (primary_pvc_name i) i.spec.storage.primary))
      λ _. Does-some λ l₁. Does-given λ c₁.
        Does-bind _ _ (reconcile_backup_pvc-Does i l₁ (backup_volume_spec i)) λ _. Does-some λ l₂.
          Does-given λ c₂.
            Does-weaken (λ s j. j)
              (λ a s j. (j.0, (append-ClaimedAll c₁ (append-ClaimedAll c₂ j.1.0), j.1.1)))
              (reconcile_shadow_pvc-Does i l₂ i.spec.storage.shadow))

-- In whatever environment, where reconcilePVCs returns without an error, it leaves the Instance as it
-- is, and its calls are these, for the primary volume, the backup volume and the shadow volume in this
-- order, the last two where the spec has them: the PVC is got, and created as wanted if it is
-- missing, or given the label of the Firebird version if it has another one while a version is known.
pub reconcile_pvcs-ClaimedAll :
    (env : Env) (s t : State)
    → reconcile_pvcs env s ≡ (ok tt, t)
    → (t.instance ≡ s.instance) × ClaimedAll s.instance (wanted_volumes s.instance) s.log t.log
reconcile_pvcs-ClaimedAll env s t run =
    let (l', (c, j)) = Does-run (reconcile_pvcs-Does s.instance s.log) s t tt (refl, refl) run in
    (j.0, subst (ClaimedAll s.instance (wanted_volumes s.instance) s.log) (sym j.1) c)
