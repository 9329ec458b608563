-- ===== src/Kube/Traced.antt =====
-- Actions whose calls are known one by one: the history that each way of ending well leaves behind.
use kubebird.Prelude.{◌≡◌, refl, List, ◌∷◌}
use kubebird.Api.{Instance}
use kubebird.Kube.Calls.{
  Call, Answer, Reply, done, fault, not_found, Event, event, Env, update_status,
}
use kubebird.Kube.Action.{Action, State, ask, call, current, ◌>>=◌, or_raise, adopt, write_status}
use kubebird.Kube.Rules.{Does, Does-bind, Does-pure, Does-raise, Does-still, Ends}

-- The Instance is `i` and the history is `l`.
abbrev pub Since : Instance → List Event → State → Type 0
Since i l s = (s.instance ≡ i) × (s.log ≡ l)

abbrev pub Anything : State → Type 0
Anything s = Unit

-- The deletion went through, or there was nothing to delete.
abbrev pub IsGone : Reply (Unit {0}) → Type 0
IsGone (done x) = Unit
IsGone (fault (not_found m)) = Unit
IsGone (fault _) = ⊥

module _ {env : Env} {i : Instance} {l : List Event} where
  pub asked : (c : Call) → Does env (Since i l) (ask c) (λ r. Since i (event c r ∷ l)) Anything
  unfolding ask
  asked c = record { at = λ s j. (j.0, rw (← j.1) refl) }

  or_raise-Does :
      (c : Call) (r : Reply (Answer c))
      → Does env
          (Since i (event c r ∷ l))
          (or_raise r)
          (λ a. Since i (event c (done a) ∷ l))
          Anything
  or_raise-Does c (done a) = Does-pure a λ s j. j
  or_raise-Does c (fault f) = Does-raise _ λ s j. tt

  pub called :
      (c : Call) → Does env (Since i l) (call c) (λ a. Since i (event c (done a) ∷ l)) Anything
  unfolding call
  called c = Does-bind (ask c) or_raise (asked c) (or_raise-Does c)

  pub ask_then {ℓ} :
      {A : Type ℓ} {Q : A → State → Type 0} (c : Call) (f : Reply (Answer c) → Action A)
      → ((r : Reply (Answer c)) → Does env (Since i (event c r ∷ l)) (f r) Q Anything)
      → Does env (Since i l) (ask c >>= f) Q Anything
  ask_then c f d = Does-bind (ask c) f (asked c) d

  pub call_then {ℓ} :
      {A : Type ℓ} {Q : A → State → Type 0} (c : Call) (f : Answer c → Action A)
      → ((a : Answer c) → Does env (Since i (event c (done a) ∷ l)) (f a) Q Anything)
      → Does env (Since i l) (call c >>= f) Q Anything
  call_then c f d = Does-bind (call c) f (called c) d

  pub read {ℓ} :
      {A : Type ℓ} {Q : A → State → Type 0} (f : Instance → Action A)
      → Does env (Since i l) (f i) Q Anything
      → Does env (Since i l) (current >>= f) Q Anything
  read f d = Does-still i f (λ s j. j.0) d

-- A status write that got through.
pub written :
    {env : Env} (i : Instance) (l : List Event)
    → Does env
        (Since i l)
        write_status
        (λ _ t. t.log ≡ event (update_status i) (done t.instance) ∷ l)
        Anything
unfolding write_status
written {env} i l = record { at = λ s j. adopted s j (env.reply s.log (update_status s.instance)) }
  where
    adopted :
        (s : State)
        → Since i l s
        → (r : Reply Instance)
        → Ends
            (λ (_ : Unit {0}) (t : State). t.log ≡ event (update_status i) (done t.instance) ∷ l)
            Anything
            (adopt r s)
    adopted s j (done k) = rw (j.0, j.1) refl
    adopted s j (fault f) = tt

-- What some value makes true before.
pub Does-some {ℓ} :
    {env : Env} {X : Type 0} {A : Type ℓ} {P : X → State → Type 0} {Q : A → State → Type 0}
    {R : State → Type 0} {m : Action A}
    → ((x : X) → Does env (P x) m Q R)
    → Does env (λ s. (x : X) × P x s) m Q R
Does-some d = record { at = λ s j. (d j.0).at s j.1 }

-- What is known before, whatever the state.
pub Does-given {ℓ} :
    {env : Env} {H : Type 0} {A : Type ℓ} {P : State → Type 0} {Q : A → State → Type 0}
    {R : State → Type 0} {m : Action A}
    → (H → Does env P m Q R)
    → Does env (λ s. H × P s) m Q R
Does-given d = record { at = λ s j. (d j.0).at s j.1 }
