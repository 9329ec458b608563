-- ===== src/Secret/Kept.antt =====
-- What a reconcile of the SYSDBA Secret that gets through has called.
use kubebird.Prelude.{ℕ, zero, suc, String, true, false, ◌=?◌, ◌≡◌, refl, List, [], ◌∷◌, eq_iff}
use kubebird.Api.{Instance}
use kubebird.Naming.{
  set_label, firebird_version_label_key, sysdba_secret_ref_name, sysdba_username,
  labels_for_instance, with_firebird_version_label,
}
use kubebird.Kube.Objects.{Secret}
use kubebird.Kube.Calls.{
  Env, Reply, done, fault, not_found, Event, event, get_secret, create_secret, patch_secret,
  random_base64,
}
use kubebird.Kube.Calls
use kubebird.Kube.Action.{State, ok}
use kubebird.Kube.Rules.{
  Does, Does-bind, Does-pure, Does-raise, Does-weaken, Does-when, Does-wrap, Does-run,
}
use kubebird.Kube.Traced.{Since, Anything, ask_then, call_then, called, read, Does-some, Does-given}
use kubebird.Storage.{sync_firebird_version_label}
use kubebird.Storage.Claimed.{is_labelled}
use kubebird.Secret.{
  begins_with_dash, generate_random_password, new_secret, create_sysdba_secret, secret_found,
  password_rounds, reconcile_sysdba_secret,
}

-- From `l` to `l'` passwords were drawn until one did not begin with '-', which is the password.
pub data Drawn : List Event → String → List Event → Type 0 where
  last :
      {l : List Event} {password : String}
      → begins_with_dash password ≡ false
      → Drawn l password (event (random_base64 24) (done password) ∷ l)
  again :
      {l l' : List Event} {drawn password : String}
      → begins_with_dash drawn ≡ true
      → Drawn (event (random_base64 24) (done drawn) ∷ l) password l'
      → Drawn l password l'

-- The calls that bring the Secret in line, from the history `l` to `l'`: it is there with the label,
-- or gets the label and nothing else, or is created with a drawn password if there is none and the
-- spec names none.
pub data Kept (i : Instance) (l l' : List Event) : Type 0 where
  present :
      (x : Secret)
      → is_labelled i x.labels ≡ true
      → l' ≡ event (get_secret (sysdba_secret_ref_name i)) (done x) ∷ l
      → Kept i l l'
  labelled :
      (x : Secret)
      → is_labelled i x.labels ≡ false
      → l'
        ≡ event
            (patch_secret x.name
              (set_label firebird_version_label_key i.status.firebird_version x.labels))
            (done tt)
          ∷ event (get_secret (sysdba_secret_ref_name i)) (done x)
          ∷ l
      → Kept i l l'
  created :
      (m password : String) (drawn : List Event)
      → i.spec.sysdba.secret_ref ≡ ""
      → Drawn
          (event (get_secret (sysdba_secret_ref_name i)) (fault (not_found m)) ∷ l)
          password
          drawn
      → l'
        ≡ event
            (create_secret (record {
              name = sysdba_secret_ref_name i;
              labels = with_firebird_version_label i (labels_for_instance i.name);
              entries = ("username", sysdba_username) ∷ ("password", password) ∷ [];
            }))
            (done tt)
          ∷ drawn
      → Kept i l l'

abbrev After : Instance → List Event → State → Type 0
After i l s = (s.instance ≡ i) × Kept i l s.log

generate-Does :
    {env : Env} (i : Instance) (rounds : ℕ) (l : List Event)
    → Does env
        (Since i l)
        (generate_random_password rounds)
        (λ password s. (l' : List Event) × (Drawn l password l' × Since i l' s))
        Anything
unfolding generate_random_password
generate-Does i zero l = Does-raise _ λ s j. tt
generate-Does i (suc rounds) l = call_then (random_base64 24) _ λ password.
    Does-when (begins_with_dash password) _ _
      (λ h.
        Does-weaken (λ s j. j) (λ p s j. (j.0, (again h j.1.0, j.1.1))) (generate-Does i rounds _))
      λ h. Does-pure password λ s j. (_, (last h, j))

module _ {env : Env} (i : Instance) (l : List Event) where
  create-Does :
      (m : String)
      → i.spec.sysdba.secret_ref ≡ ""
      → Does env
          (Since i (event (get_secret (sysdba_secret_ref_name i)) (fault (not_found m)) ∷ l))
          (create_sysdba_secret i)
          (λ _. After i l)
          Anything
  unfolding create_sysdba_secret new_secret
  create-Does m e = Does-bind _ _ (Does-wrap _ _ (generate-Does i password_rounds _)) λ password.
      Does-some λ drawn. Does-given λ h. Does-wrap _ _ (
        Does-weaken (λ s j. j) (λ a s j. (j.0, created m password drawn e h j.1))
          (called (create_secret _)))

  found-Does :
      (r : Reply Secret)
      → Does env
          (Since i (event (get_secret (sysdba_secret_ref_name i)) r ∷ l))
          (secret_found i r)
          (λ _. After i l)
          Anything
  unfolding secret_found sync_firebird_version_label
  found-Does (done x) = Does-wrap _ _ (
      read _ (
        Does-when (is_labelled i x.labels) _ _ (λ h. Does-pure tt λ s j. (j.0, present x h j.1))
          λ h.
            Does-weaken (λ s j. j) (λ a s j. (j.0, labelled x h j.1))
              (called (patch_secret x.name _))))
  found-Does (fault (not_found m)) =
      Does-when (i.spec.sysdba.secret_ref =? "") _ _ (λ h. create-Does m ((eq_iff _ _).0 h))
        λ h. Does-raise _ λ s j. tt
  found-Does (fault (Calls.exit_code c m)) = Does-raise _ λ s j. tt
  found-Does (fault (Calls.other m)) = Does-raise _ λ s j. tt

  kept-Does : Does env (Since i l) reconcile_sysdba_secret (λ _. After i l) Anything
  unfolding reconcile_sysdba_secret
  kept-Does = read _ (ask_then (get_secret (sysdba_secret_ref_name i)) _ found-Does)

-- In whatever environment, where reconcileSysdbaSecret returns without an error, it leaves the
-- Instance as it is, and its calls are these: the Secret is got, and then nothing more is called, or
-- its version label alone is patched, where a version is known that it does not name, or, where the
-- Secret is missing and the spec names none, passwords are drawn up to the first that does not begin
-- with '-', and the Secret is created with this password.
pub reconcile_sysdba_secret-Kept :
    (env : Env) (s t : State)
    → reconcile_sysdba_secret env s ≡ (ok tt, t)
    → (t.instance ≡ s.instance) × Kept s.instance s.log t.log
reconcile_sysdba_secret-Kept env s t run =
    Does-run (kept-Does s.instance s.log) s t tt (refl, refl) run
