-- ===== src/Kube/Stable.antt =====
-- Invariants that every call but a deletion of storage leaves alone: what most methods need to keep.
use kubebird.Prelude.{String, ◌≡◌, refl, Bool, true, false, ◌∷◌}
use kubebird.Api.{Instance, InstanceStatus, Condition}
use kubebird.Kube.Calls.{
  Call, Answer, Fault, Reply, done, fault, event, Env, delete_pvc, update_status, update_instance,
}
use kubebird.Kube.Action.{
  State, ask, call, ◌>>◌, wrap, modify_status, write_status, set_condition, or_raise, adopt,
}
use kubebird.Kube.Rules.{Ends, Keeps, Keeps-bind, Keeps-wrap, Keeps-or_raise}

-- Neither deletes a volume nor writes the Instance.
abbrev pub is_plain : Call → Bool
is_plain (delete_pvc _) = false
is_plain (update_instance _) = false
is_plain (update_status _) = false
is_plain _ = true

pub record IsStable (env : Env) (J : State → Type 0) : Type 0 where
  pub plain :
      (s : State) (c : Call) (r : Reply (Answer c))
      → is_plain c ≡ true
      → J s
      → J (record s { log = event c r ∷ s.log })
  -- a change of the status that leaves status.upgrade alone
  pub restatus :
      (s : State) (change : InstanceStatus → InstanceStatus)
      → ((st : InstanceStatus) → (change st).upgrade ≡ st.upgrade)
      → J s
      → J (record s { instance = record s.instance { status = change s.instance.status } })
  -- the answer to a status write takes the Instance's place
  pub written :
      (s : State) (i : Instance)
      → env.reply s.log (update_status s.instance) ≡ done i
      → J s
      → J (record { instance = i; log = event (update_status s.instance) (done i) ∷ s.log })
  -- a status write that fails leaves the Instance as it is in memory
  pub refused :
      (s : State) (f : Fault)
      → J s
      → J (record s { log = event (update_status s.instance) (fault f) ∷ s.log })

-- An invariant of the calls alone, for actions that never write the status.
pub record IsQuiet (env : Env) (J : State → Type 0) : Type 0 where
  pub quiet :
      (s : State) (c : Call) (r : Reply (Answer c))
      → is_plain c ≡ true
      → J s
      → J (record s { log = event c r ∷ s.log })

module _ {env : Env} {J : State → Type 0} (q : IsQuiet env J) where
  pub ask-quiet : (c : Call) → is_plain c ≡ true → Keeps env J (ask c)
  unfolding ask
  ask-quiet c h = record { at = λ s j. q.quiet s c _ h j }

  pub call-quiet : (c : Call) → is_plain c ≡ true → Keeps env J (call c)
  unfolding call
  call-quiet c h = Keeps-bind (ask c) or_raise (ask-quiet c h) Keeps-or_raise

module _ {env : Env} {J : State → Type 0} (st : IsStable env J) where
  pub stable-IsQuiet : IsQuiet env J
  stable-IsQuiet = record { quiet = st.plain }

  pub ask-Keeps : (c : Call) → is_plain c ≡ true → Keeps env J (ask c)
  unfolding ask
  ask-Keeps c h = record { at = λ s j. st.plain s c _ h j }

  pub call-Keeps : (c : Call) → is_plain c ≡ true → Keeps env J (call c)
  unfolding call
  call-Keeps c h = Keeps-bind (ask c) or_raise (ask-Keeps c h) Keeps-or_raise

  pub modify_status-Keeps :
      (change : InstanceStatus → InstanceStatus)
      → ((st : InstanceStatus) → (change st).upgrade ≡ st.upgrade)
      → Keeps env J (modify_status change)
  unfolding modify_status
  modify_status-Keeps change h = record { at = λ s j. st.restatus s change h j }

  pub set_condition-Keeps : (c : Condition) → Keeps env J (set_condition c)
  unfolding set_condition
  set_condition-Keeps c = record {
    at = λ s j.
        let (available, changed) = env.set_status_condition s.instance.status.available c in
        st.restatus s (λ x. record x { available = available }) (λ x. refl) j;
  }

  adopt-Keeps :
      (s : State) (r : Reply Instance)
      → env.reply s.log (update_status s.instance) ≡ r
      → J s
      → Ends (λ _. J) J (adopt r s)
  adopt-Keeps s (done i) e j = st.written s i e j
  adopt-Keeps s (fault f) e j = st.refused s f j

  pub write_status-Keeps : Keeps env J write_status
  unfolding write_status
  write_status-Keeps = record {
    at = λ s j. adopt-Keeps s (env.reply s.log (update_status s.instance)) refl j;
  }

-- An invariant that no change of the status touches.
pub record IsDetached (env : Env) (J : State → Type 0) : Type 0 where
  pub stable : IsStable env J
  pub any_status :
      (s : State) (change : InstanceStatus → InstanceStatus)
      → J s
      → J (record s { instance = record s.instance { status = change s.instance.status } })

module _ {env : Env} {J : State → Type 0} (d : IsDetached env J) where
  pub modify_any-Keeps :
      (change : InstanceStatus → InstanceStatus) → Keeps env J (modify_status change)
  unfolding modify_status
  modify_any-Keeps change = record { at = λ s j. d.any_status s change j }

  pub write_any-Keeps :
      (change : InstanceStatus → InstanceStatus) (text : String)
      → Keeps env J (modify_status change >> wrap text write_status)
  write_any-Keeps change text =
      Keeps-bind _ _ (modify_any-Keeps change) λ _. Keeps-wrap text _ (write_status-Keeps d.stable)
