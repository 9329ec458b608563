-- ===== src/Status/Settled.antt =====
-- What the writers of the status leave in it, whether they write or find it so already.
use kubebird.Prelude.{
  String, Bool, true, ◌&&◌, ◌≡◌, refl, sym, ap, ◌∙◌, Option, ◌=?◌, eq_iff, and-both,
}
use kubebird.Api.{Instance, InstanceStatus}
use kubebird.Kube.Calls.{Env, Reply, done, fault, update_status}
use kubebird.Kube.Action.{Error, State, current, modify_status, write_status, adopt}
use kubebird.Kube.Rules.{
  Does, Does-bind, Does-when, Does-pure, Does-wrap, Does-fail, Does-weaken, current-Does, Ends,
}
use kubebird.Kube.Honest.{IsHonest}
use kubebird.Status.{set_phase, set_progress, set_error, update_unless, message_of, summary}

-- A property of spec and status that holds of what is written holds of the answer.
pub written_instance-Does :
    {env : Env}
    → IsHonest env
    → (P : Instance → Type 0)
    → ((i i' : Instance) → i'.spec ≡ i.spec → i'.status ≡ i.status → P i → P i')
    → Does env (λ s. P s.instance) write_status (λ _ s. P s.instance) (λ s. Unit)
unfolding write_status
written_instance-Does {env} honest P resp = record {
  at = λ s j. answered s (env.reply s.log (update_status s.instance)) refl j;
}
  where
    answered :
        (s : State) (r : Reply Instance)
        → env.reply s.log (update_status s.instance) ≡ r
        → P s.instance
        → Ends (λ (_ : Unit {0}) t. P t.instance) (λ t. Unit) (adopt r s)
    answered s (done i) e j =
        resp s.instance i (honest.status_spec s.log s.instance i e)
          (honest.status_status s.log s.instance i e) j
    answered s (fault f) e j = tt

module _ {env : Env} (honest : IsHonest env) where
  -- A property of the status that holds of what is written holds of the answer.
  pub written-Does :
      (P : InstanceStatus → Type 0)
      → Does env (λ s. P s.instance.status) write_status (λ _ t. P t.instance.status) (λ t. Unit)
  written-Does P = written_instance-Does honest (λ i. P i.status) (λ i i' hs ht j. rw ht j)

  changed-Does :
      (P : InstanceStatus → Type 0) (change : InstanceStatus → InstanceStatus)
      → ((st : InstanceStatus) → P (change st))
      → Does env (λ s. Unit) (modify_status change) (λ _ t. P t.instance.status) (λ t. Unit)
  unfolding modify_status
  changed-Does P change h = record { at = λ s j. h s.instance.status }

  -- Where the status is as wanted, or else is changed and written, it is as wanted afterwards.
  update_unless-Does :
      (P : InstanceStatus → Type 0) (same : Bool) (change : InstanceStatus → InstanceStatus)
      (text : String)
      → ((st : InstanceStatus) → P (change st))
      → Does env
          (λ s. same ≡ true → P s.instance.status)
          (update_unless same change text)
          (λ _ t. P t.instance.status)
          (λ t. Unit)
  update_unless-Does P same change text h =
      Does-when same _ _ (λ e. Does-pure tt λ s j. j e)
        λ _.
          Does-bind _ _ (Does-weaken (λ s j. tt) (λ a s j. j) (changed-Does P change h))
            λ _. Does-wrap text write_status (written-Does P)

  pub set_progress-Does :
      (message : String)
      → Does env
          (λ s. Unit)
          (set_progress message)
          (λ _ t. (t.instance.status.message ≡ message) × (t.instance.status.error ≡ ""))
          (λ t. Unit)
  unfolding set_progress
  set_progress-Does message = Does-bind current _ (Does-fail current (λ s j. tt) current-Does) λ i.
      Does-weaken
        (λ s j h.
          let (hm, he) = and-both _ _ h in
          (
            ap (λ (x : Instance). x.status.message) (sym j.1)
                ∙ (eq_iff i.status.message message).0 hm,
            ap (λ (x : Instance). x.status.error) (sym j.1) ∙ (eq_iff i.status.error "").0 he,
          ))
        (λ a s j. j)
        (update_unless-Does (λ st. (st.message ≡ message) × (st.error ≡ "")) _ _ _
          λ st. (refl, refl))

  pub set_phase-Does :
      (phase : String)
      → Does env (λ s. Unit) (set_phase phase) (λ _ t. t.instance.status.phase ≡ phase) (λ t. Unit)
  unfolding set_phase
  set_phase-Does phase = Does-bind current _ (Does-fail current (λ s j. tt) current-Does) λ i.
      Does-when (i.status.phase =? phase) _ _
        (λ e. Does-pure tt λ s j.
          ap (λ (x : Instance). x.status.phase) (sym j.1) ∙ (eq_iff i.status.phase phase).0 e)
        λ _.
          Does-bind _ _
            (Does-weaken (λ s j. tt) (λ a s j. j)
              (changed-Does (λ st. st.phase ≡ phase) _ (λ st. refl)))
            λ _. written-Does (λ st. st.phase ≡ phase)

  pub set_error-Does :
      (e : Option Error)
      → Does env
          (λ s. Unit)
          (set_error e)
          (λ _ t. t.instance.status.error ≡ message_of e)
          (λ t. Unit)
  unfolding set_error
  set_error-Does e = Does-bind current _ (Does-fail current (λ s j. tt) current-Does) λ i.
      Does-when
        (i.status.error =? message_of e && i.status.message =? summary i.status (message_of e)) _ _
        (λ h. Does-pure tt λ s j.
          ap (λ (x : Instance). x.status.error) (sym j.1)
          ∙ (eq_iff i.status.error (message_of e)).0 (and-both _ _ h).0)
        λ _.
          Does-bind _ _
            (Does-weaken (λ s j. tt) (λ a s j. j)
              (changed-Does (λ st. st.error ≡ message_of e) _ (λ st. refl)))
            λ _. written-Does (λ st. st.error ≡ message_of e)
