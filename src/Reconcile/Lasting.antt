-- ===== src/Reconcile/Lasting.antt =====
-- A major upgrade over any number of reconciles, each beginning with what the API server serves.
use kubebird.Prelude.{
  ℕ, zero, suc, String, true, false, ◌≡◌, refl, sym, ap, ◌∙◌, Option, List, [], ◌∷◌, ◌⊎◌, inl, inr,
}
use kubebird.Api.{Instance, InstanceStatus, UpgradeStatus}
use kubebird.Naming.{finalizer_name}
use kubebird.Kube.Calls.{
  Reply, done, fault, not_found, Event, event, Env, get_instance, update_instance, update_status,
}
use kubebird.Kube.Calls
use kubebird.Kube.Action.{State, catch, ask, call, or_raise, current, become, asks}
use kubebird.Kube.Rules.{
  Does, Does-bind, Does-fail, Does-pure, Does-raise, Does-wrap, Does-after, Does-if, current-Does,
  asks-Does, ended, Does-become, Keeps, Keeps-then, Keeps-bind, Keeps-catch, Keeps-asks, Keeps-if,
}
use kubebird.Kube.Honest.{IsFaithful}
use kubebird.Backup.Evidence.{HasBackup}
use kubebird.Upgrade.Guard.{IsGuarded, IsEarned, is_releasing, Trusted, Trusted-stable}
use kubebird.Upgrade.Ordered.{reconcile_major_upgrade-Keeps, finish_major_upgrade-Keeps}
use kubebird.Deletion.{update_instance_with}
use kubebird.Reconcile.{
  settled, ensure_finalizer, reconcile_live, instance_got, reconcile, reconcile_instance,
}
use kubebird.Reconcile.Keeps.{reconcile_instance-Keeps, conclude-Keeps}

-- The value is that of the beginning, or one that a write of the status carries, answered or not.
abbrev pub WasStored : Option UpgradeStatus → Option UpgradeStatus → List Event → Type 0
WasStored first u [] = u ≡ first
WasStored first u (event (update_status i) r ∷ log) = (u ≡ i.status.upgrade) ⊎ WasStored first u log
WasStored first u (event _ r ∷ log) = WasStored first u log

-- What an API server that persists the status answers about Instance `n`, which is not deleted: a
-- status.upgrade that was stored at some time, perhaps not the latest; and AddFinalizer leaves the
-- status alone.
pub record Persists (env : Env) (n : String) (first : Option UpgradeStatus) : Type 0 where
  pub read_live :
      (log : List Event) (i : Instance)
      → env.reply log (get_instance n) ≡ done i
      → i.deleting ≡ false
  pub read_stored :
      (log : List Event) (i : Instance)
      → env.reply log (get_instance n) ≡ done i
      → WasStored first i.status.upgrade log
  pub update_stored :
      (log : List Event) (i i' : Instance)
      → env.reply log (update_instance i) ≡ done i'
      → WasStored first i'.status.upgrade log
  pub add_status : (i : Instance) (f : String) → (env.add_finalizer i f).status ≡ i.status

-- The state after so many reconciles.
abbrev pub reconciled : Env → String → ℕ → State → State
reconciled env n zero s = s
reconciled env n (suc k) s = (reconcile n env (reconciled env n k s)).1

stored-HasBackup :
    (n : String) (first u : Option UpgradeStatus) (log : List Event)
    → is_releasing first ≡ false
    → WasStored first u log
    → IsEarned n log
    → is_releasing u ≡ true
    → HasBackup n log
stored-HasBackup n first u [] f w e r = cc
stored-HasBackup n first u (event (update_status i) x ∷ log) f (inl q) e r =
    inr (e.0 (ap is_releasing (sym q) ∙ r))
stored-HasBackup n first u (event (update_status i) x ∷ log) f (inr w) e r =
    inr (stored-HasBackup n first u log f w e.1 r)
stored-HasBackup n first u (event _ x ∷ log) f w e r = inr (stored-HasBackup n first u log f w e r)

module _ {env : Env} (faithful : IsFaithful env) {n : String} {first : Option UpgradeStatus}
    (persists : Persists env n first) (unreleased : is_releasing first ≡ false) where
  abbrev Held : State → Type 0
  Held = Trusted faithful.honest n true

  -- The Instance that the server serves may take the place of the one in memory.
  abbrev Serves : Reply Instance → State → Type 0
  Serves r s = Held s × ((i : Instance) → r ≡ done i → Held (record s { instance = i }))

  served :
      (s : State) (i : Instance)
      → i.name ≡ n
      → WasStored first i.status.upgrade s.log
      → Held s
      → Held (record s { instance = i })
  served s i e w j =
      ((e, j.0.1, j.0.2), stored-HasBackup n first i.status.upgrade s.log unreleased w (j.0.2 refl))

  ask_update-Does :
      (i : Instance) → i.name ≡ n → Does env Held (ask (update_instance i)) Serves Held
  unfolding ask
  ask_update-Does i e = record {
    at = λ s j.
        let t = record s {
          log = event (update_instance i) (env.reply s.log (update_instance i)) ∷ s.log;
        } in
        let asked : Held t = ((j.0.0, (tt, j.0.1), j.0.2), λ r. inr (j.1 r)) in
        (
          asked,
          λ i' q.
              served t i' (faithful.update_name s.log i i' q ∙ e)
                (persists.update_stored s.log i i' q) asked,
        );
  }

  or_raise-Does :
      (r : Reply Instance)
      → Does env (Serves r) (or_raise r) (λ i s. Held (record s { instance = i })) Held
  or_raise-Does (done i) = Does-pure i λ s j. j.1 i refl
  or_raise-Does (fault f) = Does-raise _ λ s j. j.0

  update_instance_with-Does :
      (i : Instance) (text : String)
      → i.name ≡ n
      → Does env
          (λ s. Held s × (i.status ≡ s.instance.status))
          (update_instance_with i text)
          (λ _. Held)
          Held
  unfolding update_instance_with call
  update_instance_with-Does i text e =
      Does-bind (become i) _
        (Does-become {Q = λ _. Held} i λ s j. (
          (e, j.0.0.1, j.0.0.2),
          λ r. j.0.1 (ap (λ (st : InstanceStatus). is_releasing st.upgrade) (sym j.1) ∙ r),
        ))
        λ _.
          Does-bind _ _ (Does-wrap text _ (Does-bind _ _ (ask_update-Does i e) or_raise-Does))
            λ i'. Does-become i' λ s j. j

  ensure_finalizer-Keeps : Keeps env Held ensure_finalizer
  unfolding ensure_finalizer
  ensure_finalizer-Keeps = Does-bind current _ (Does-fail current (λ s j. j) current-Does) λ i.
      Does-bind (asks λ env. env.contains_finalizer) _
        (Does-fail _ (λ s j. j.0) (Keeps-asks {J = λ s. Held s × (i ≡ s.instance)} _))
        λ contains.
          Does-bind (asks λ env. env.add_finalizer) _ (Does-fail _ (λ s j. j.0) (asks-Does _))
            λ add. record {
              at = λ s j.
                  (Does-if (contains i finalizer_name) _ _ (Does-pure tt λ s j. j.0) (
                      update_instance_with-Does _ _ (
                        ap (λ f. (f i finalizer_name).name) j.1
                        ∙ faithful.add_name i finalizer_name
                        ∙ ap (λ (x : Instance). x.name) j.0.1
                        ∙ j.0.0.0.0))).at
                    s
                    (
                      j.0.0,
                      ap (λ f. (f i finalizer_name).status) j.1
                          ∙ persists.add_status i finalizer_name
                          ∙ ap (λ (x : Instance). x.status) j.0.1,
                    );
            }

  reconcile_live-Keeps : Keeps env Held reconcile_live
  unfolding reconcile_live
  reconcile_live-Keeps = Keeps-then _ _ ensure_finalizer-Keeps (
      Keeps-bind (catch reconcile_instance) _
        (Keeps-catch _ (
          reconcile_instance-Keeps (Trusted-stable faithful.honest n true)
            (finish_major_upgrade-Keeps faithful.honest n true)
            (reconcile_major_upgrade-Keeps faithful.honest n true)))
        λ r. conclude-Keeps (Trusted-stable faithful.honest n true) r)

  -- Between two reconciles only the calls matter: the Instance is read again.
  abbrev Recorded : State → Type 0
  Recorded s = IsGuarded n s.log × IsEarned n s.log

  held : (s : State) → Held s → Recorded s
  held s j = (j.0.1, j.0.2 refl)

  instance_got-Does :
      (r : Reply Instance)
      → Does env
          (λ s.
            Recorded s
            × ((i : Instance)
                → r ≡ done i
                → (i.deleting ≡ false) × (i.name ≡ n) × WasStored first i.status.upgrade s.log))
          (instance_got r)
          (λ _. Recorded)
          Recorded
  unfolding instance_got
  instance_got-Does (done i) = record {
    at = λ s j.
        let (live, name, stored) = j.1 i refl in
        (Does-bind {P = λ s. Recorded s × WasStored first i.status.upgrade s.log} (become i) _
            (Does-become {Q = λ _. Held} i λ s k. (
              (name, k.0.0, λ t. k.0.1),
              stored-HasBackup n first i.status.upgrade s.log unreleased k.1 k.0.1,
            ))
            λ _.
              Does-after env _ held
                (Keeps-if i.deleting _ _ (λ d. cc) λ _. reconcile_live-Keeps)).at
          s (j.0, stored);
  }
  instance_got-Does (fault (not_found m)) = Does-pure settled λ s j. j.0
  instance_got-Does (fault (Calls.exit_code c m)) = Does-raise _ λ s j. j.0
  instance_got-Does (fault (Calls.other m)) = Does-raise _ λ s j. j.0

  reconcile-Keeps : Keeps env Recorded (reconcile n)
  unfolding reconcile ask
  reconcile-Keeps =
      Does-bind (ask (get_instance n)) _
        (record {
          at = λ s j. (
            ((tt, j.0), j.1),
            λ i q. (
              persists.read_live s.log i q,
              faithful.get_name s.log n i q,
              persists.read_stored s.log i q,
            ),
          );
        })
        instance_got-Does

  reconciled-Recorded : (k : ℕ) (s : State) → Recorded s → Recorded (reconciled env n k s)
  reconciled-Recorded zero s j = j
  reconciled-Recorded (suc k) s j =
      let s' = reconciled env n k s in
      let (r, t) = reconcile n env s' in
      ended Recorded r t (reconcile-Keeps.at s' (reconciled-Recorded k s j))

-- If the API server answers a write with the object written and a read with one of that name, never
-- serves Instance `n` as deleting, and serves as its status.upgrade only the one of the beginning,
-- which is not at the stage Releasing, or one that a status write before carried, be it stale, and if
-- AddFinalizer changes neither name nor status and RemoveFinalizer not the name, then no number of
-- reconciles of `n`, from an empty history, deletes a volume before the history shows the StatefulSet
-- missing or the backup pod succeeded.
pub reconciled-IsGuarded :
    {env : Env} {n : String} {first : Option UpgradeStatus}
    → IsFaithful env
    → Persists env n first
    → is_releasing first ≡ false
    → (k : ℕ) (i : Instance)
    → IsGuarded n (reconciled env n k (record { instance = i; log = [] })).log
reconciled-IsGuarded faithful persists unreleased k i =
    (reconciled-Recorded faithful persists unreleased k (record { instance = i; log = [] })
      (tt, tt)).0
