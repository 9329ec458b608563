-- ===== src/Reconcile/Reported.antt =====
-- What a reconcile that gets through reports of the Instance.
use kubebird.Prelude.{
  String, Bool, true, false, not, ◌≡◌, ◌≢◌, refl, sym, ap, ◌∙◌, ◌⊎◌, inl, inr, ◌=?◌, eq_iff, ltb,
  ◌==◌, Bool-cases, arith, and-both, is_none, if◌then◌else◌,
}
use kubebird.Api.{Instance, InstanceStatus}
use kubebird.Kube.Objects.{StatefulSet}
use kubebird.Kube.Calls.{Env}
use kubebird.Kube.Action.{ok, State, ◌>>=◌, current, modify_status, set_condition, write_status}
use kubebird.Kube.Rules.{
  Does, Does-bind, Does-when, Does-pure, Does-wrap, Does-fail, Does-weaken, Does-run, current-Does,
  Ends, Does-any, Keeps-current, Keeps-wrap, Keeps-if, Keeps-pure,
}
use kubebird.Kube.Honest.{IsHonest}
use kubebird.Status.{phase_ready, phase_provisioning, phase_upgrading, set_phase, set_available}
use kubebird.Status.Settled.{written_instance-Does}
use kubebird.Upgrade.{clear_upgrade, finish_major_upgrade}
use kubebird.Naming.{label, firebird_version_label_key}
use kubebird.Kube.Stable.{IsQuiet}
use kubebird.Databases.{reconcile_databases}
use kubebird.Databases.Recorded.{Lists, reconcile_databases-Does}
use kubebird.Schedule.Jobs.Keeps.{reconcile_scheduled_backups-Keeps}
use kubebird.Reconcile.Keeps.{get_pod-Keeps, detect_version-Keeps}
use kubebird.Reconcile.{
  is_ready, report_ready, report_waiting, reconcile_objects, reconcile_running,
  reconcile_firebird_version,
}

-- The phase is Ready with the databases of the spec listed, or it is another.
abbrev pub Reported : Instance → Type 0
Reported i = ((i.status.phase ≡ phase_ready) × Lists i) ⊎ (i.status.phase ≢ phase_ready)

Lists-cong : (i i' : Instance) → i'.spec ≡ i.spec → i'.status ≡ i.status → Lists i → Lists i'
Lists-cong i i' hs ht c = λ x. rw (hs, ht) (c x)

abbrev IsReady : Instance → Type 0
IsReady i = (i.status.phase ≡ phase_ready) × Lists i

IsReady-cong : (i i' : Instance) → i'.spec ≡ i.spec → i'.status ≡ i.status → IsReady i → IsReady i'
IsReady-cong i i' hs ht c =
    (ap (λ (st : InstanceStatus). st.phase) ht ∙ c.0, Lists-cong i i' hs ht c.1)

abbrev HasPhase : String → Instance → Type 0
HasPhase phase i = i.status.phase ≡ phase

HasPhase-cong :
    (phase : String) (i i' : Instance)
    → i'.spec ≡ i.spec
    → i'.status ≡ i.status
    → HasPhase phase i
    → HasPhase phase i'
HasPhase-cong phase i i' hs ht c = rw ht c

abbrev On : (Instance → Type 0) → State → Type 0
On P s = P s.instance

abbrev Any : State → Type 0
Any s = Unit

module _ {env : Env} (honest : IsHonest env) where
  finish-Does : Does env (On Lists) finish_major_upgrade (λ _. On Lists) Any
  unfolding finish_major_upgrade clear_upgrade modify_status
  finish-Does = Does-bind current _ (Does-fail current (λ s j. tt) current-Does) λ i.
      Does-when (is_none i.status.upgrade) _ _ (λ h. Does-pure tt λ s j. j.0)
        λ h.
          Does-bind _ _ (record { at = λ s j. j.0 })
            λ _. Does-wrap _ write_status (written_instance-Does honest Lists Lists-cong)

  -- set_phase brings about the phase, whatever else it finds there.
  set_phase-Does :
      (P : Instance → Type 0)
      → ((i i' : Instance) → i'.spec ≡ i.spec → i'.status ≡ i.status → P i → P i')
      → ((i : Instance) (phase : String)
          → P i
          → P (record i { status = record i.status { phase = phase } }))
      → (phase : String)
      → Does env (On P) (set_phase phase) (λ _ t. HasPhase phase t.instance × P t.instance) Any
  unfolding set_phase modify_status
  set_phase-Does P resp keep phase =
      Does-bind current _ (Does-fail current (λ s j. tt) current-Does) λ i.
        Does-when (i.status.phase =? phase) _ _
          (λ e. Does-pure tt λ s j. (
            ap (λ (x : Instance). x.status.phase) (sym j.1) ∙ (eq_iff i.status.phase phase).0 e,
            j.0,
          ))
          λ _.
            Does-bind _ _ (record { at = λ s j. (refl, keep s.instance phase j.0) })
              λ _.
                written_instance-Does honest (λ k. HasPhase phase k × P k)
                  λ k k' hs ht j. (HasPhase-cong phase k k' hs ht j.0, resp k k' hs ht j.1)

  -- set_available touches the condition alone.
  set_available-Does :
      (P : Instance → Type 0) (status : Bool) (reason message : String)
      → ((i i' : Instance) → i'.spec ≡ i.spec → i'.status ≡ i.status → P i → P i')
      → ((i : Instance) (c : _) → P i → P (record i { status = record i.status { available = c } }))
      → Does env (On P) (set_available status reason message) (λ _. On P) Any
  unfolding set_available set_condition
  set_available-Does P status reason message resp keep =
      Does-bind current _ (Does-fail current (λ s j. tt) current-Does) λ i.
        Does-bind _ _ (record { at = λ s j. keep s.instance _ j.0 })
          λ changed.
            Does-when (not changed) _ _ (λ h. Does-pure tt λ s j. j)
              λ h. written_instance-Does honest P resp

  report_ready-Does : Does env (On Lists) report_ready (λ _. On Reported) Any
  unfolding report_ready
  report_ready-Does = Does-bind _ _ finish-Does λ _.
      Does-bind _ _ (set_phase-Does Lists Lists-cong (λ i phase c. c) phase_ready) λ _.
        Does-weaken (λ s j. j) (λ a s j. inl j)
          (set_available-Does IsReady _ _ _ IsReady-cong (λ i c j. j))

  waiting-ne-ready : (b : Bool) → (if b then phase_provisioning else phase_upgrading) ≢ phase_ready
  waiting-ne-ready true h = cc
  waiting-ne-ready false h = cc

  report_waiting-Does : Does env Any report_waiting (λ _. On Reported) Any
  unfolding report_waiting
  report_waiting-Does = Does-bind current _ (Does-fail current (λ s j. tt) current-Does) λ i.
      let phase = if is_none i.status.upgrade then phase_provisioning else phase_upgrading in
      Does-bind _ _
        (Does-weaken (λ s j. tt) (λ a s j. j.0)
          (set_phase-Does (λ k. Unit) (λ k k' hs ht j. tt) (λ k p j. tt) phase))
        λ _.
          Does-weaken (λ s j. j)
            (λ a s j. inr λ h. waiting-ne-ready (is_none i.status.upgrade) (sym j ∙ h))
            (set_available-Does (HasPhase phase) _ _ _ (HasPhase-cong phase) (λ k c j. j))

  -- The status lists the databases, if the server is ready.
  abbrev Listed : StatefulSet → Instance → Type 0
  Listed sts i = (sts.ready_replicas == 0) ≡ false → Lists i

  Listed-cong :
      (sts : StatefulSet) (i i' : Instance)
      → i'.spec ≡ i.spec
      → i'.status ≡ i.status
      → Listed sts i
      → Listed sts i'
  Listed-cong sts i i' hs ht c ready = Lists-cong i i' hs ht (c ready)

  databases-Does :
      (sts : StatefulSet) → Does env Any (reconcile_databases sts) (λ _. On (Listed sts)) Any
  databases-Does sts = record { at = λ s j. by_ready s (Bool-cases (sts.ready_replicas == 0)) }
    where
      by_ready :
          (s : State)
          → (((sts.ready_replicas == 0) ≡ true) ⊎ ((sts.ready_replicas == 0) ≡ false))
          → Ends (λ _. On (Listed sts)) Any (reconcile_databases sts env s)
      by_ready s (inr h) =
          (Does-weaken (λ s j. j) (λ a s c r. c)
              (reconcile_databases-Does honest s.instance Lists sts h (λ k m. m.listed)
                (λ l. l))).at
            s refl
      by_ready s (inl h) =
          (Does-weaken {P = Any} (λ s j. j) (λ a s c r. clash r)
              (Does-any (reconcile_databases sts))).at
            s tt
        where
          clash : {P : Type 0} → (sts.ready_replicas == 0) ≡ false → P
          clash r = cc

  Listed-IsQuiet : (sts : StatefulSet) → IsQuiet env (On (Listed sts))
  Listed-IsQuiet sts = record { quiet = λ s c r h j. j }

  -- The server's version is recorded without touching the databases.
  version-Does :
      (sts : StatefulSet)
      → Does env (On (Listed sts)) reconcile_firebird_version (λ _. On (Listed sts)) Any
  unfolding reconcile_firebird_version modify_status
  version-Does sts =
      let q = Listed-IsQuiet sts in
      Does-bind current _ (Does-fail current (λ s j. tt) Keeps-current) λ i.
        Does-bind _ _ (Does-fail _ (λ s j. tt) (Keeps-wrap _ _ (get_pod-Keeps q _))) λ pod.
          Does-bind _ _
            (Does-fail _ (λ s j. tt)
              (Keeps-if (label firebird_version_label_key pod.labels =? "") _ _
                (λ h. detect_version-Keeps q pod) (λ h. Keeps-pure _)))
            λ version. Does-bind current _ (Does-fail current (λ s j. tt) Keeps-current) λ i'.
              Does-when (i'.status.firebird_version =? version) _ _ (λ h. Does-pure tt λ s j. j)
                λ h.
                  Does-bind _ _ (record { at = λ s j. j })
                    λ _. written_instance-Does honest (Listed sts) (Listed-cong sts)

  running-Does :
      (sts : StatefulSet)
      → Does env (On (Listed sts)) (reconcile_running sts) (λ _. On (Listed sts)) Any
  unfolding reconcile_running
  running-Does sts =
      Does-when (ltb 0 sts.ready_replicas) _ _
        (λ h.
          Does-bind _ _
            (Does-fail _ (λ s j. tt) (reconcile_scheduled_backups-Keeps (Listed-IsQuiet sts)))
            λ _. version-Does sts)
        λ h. Does-pure tt λ s j. j

  serving :
      (sts : StatefulSet) → ltb 0 sts.ready_replicas ≡ true → (sts.ready_replicas == 0) ≡ false
  serving sts h = ground (arith, h)

  -- The last step of reconcileInstance.
  report-Does :
      (sts : StatefulSet)
      → Does env
          (On (Listed sts))
          (do i ← current; if is_ready sts i then report_ready else report_waiting)
          (λ _. On Reported)
          Any
  unfolding is_ready
  report-Does sts = Does-bind current _ (Does-fail current (λ s j. tt) Keeps-current) λ i.
      Does-when _ _ _
        (λ h.
          Does-weaken (λ s j. j (serving sts (and-both _ _ h).0)) (λ a s j. j) report_ready-Does)
        λ h. Does-weaken (λ s j. tt) (λ a s j. j) report_waiting-Does

  reconcile_objects-Does : Does env Any reconcile_objects (λ _. On Reported) Any
  unfolding reconcile_objects
  reconcile_objects-Does = Does-bind _ _ (Does-any _) λ _. Does-bind _ _ (Does-any _) λ _.
      Does-bind _ _ (Does-any _) λ _. Does-bind _ _ (Does-any _) λ sts.
        Does-bind _ _ (databases-Does sts)
          λ _. Does-bind _ _ (running-Does sts) λ _. report-Does sts

-- Where what follows the upgrade in reconcileInstance returns without an error, and the API server
-- answers a status write with the object written: if status.phase is Ready, then status.databases
-- lists a name just when the spec has a database of that name.
pub reconcile_objects-Reported :
    {env : Env}
    → IsHonest env
    → (s t : State) → reconcile_objects env s ≡ (ok tt, t)
    → Reported t.instance
reconcile_objects-Reported honest s t run = Does-run (reconcile_objects-Does honest) s t tt tt run
