-- ===== src/Kube/Action.antt =====
-- Go errors, and the monad of the reconciler's methods: they read the environment, keep the Instance
-- that they were handed a pointer to and the history of calls, and may return an error.
use kubebird.Prelude.{String, ◌<>◌, Bool, true, false, Option, none, some, List, ◌∷◌}
use kubebird.Api.{Instance, InstanceStatus, Condition}
use kubebird.Kube.Calls.{Call, Answer, Fault, Reply, done, fault, Event, event, Env}
use kubebird.Kube.Calls

-- fmt.Errorf without and with %w (the text before and behind the cause), and waitingError.
pub data Error : Type 0 where
  external : Fault → Error
  failed : String → Error
  waiting : String → Error
  wrapped : String → Error → String → Error
  out_of_rounds : Error

abbrev fault_text : Fault → String
fault_text (Calls.not_found m) = m
fault_text (Calls.exit_code _ m) = m
fault_text (Calls.other m) = m

-- err.Error()
unfoldable pub error_text : Error → String
error_text (external f) = fault_text f
error_text (failed m) = m
error_text (waiting m) = m
error_text (wrapped before e after) = before <> (error_text e <> after)
error_text out_of_rounds = ""

-- errors.As(err, &wait): the message of the waitingError in the chain.
unfoldable pub as_waiting : Error → Option String
as_waiting (waiting m) = some m
as_waiting (wrapped _ e _) = as_waiting e
as_waiting _ = none

-- errors.As(err, &exitErr)
unfoldable pub is_exit_error : Error → Bool
is_exit_error (external (Calls.exit_code _ _)) = true
is_exit_error (wrapped _ e _) = is_exit_error e
is_exit_error _ = false

pub data Result {ℓ} (A : Type ℓ) : Type ℓ where
  ok : A → Result A
  err : Error → Result A

pub record State : Type 0 where
  pub instance : Instance
  pub log : List Event

abbrev pub Action {ℓ} : Type ℓ → Type ℓ
Action A = Env → State → Result A × State

module _ {ℓ} {A : Type ℓ} where
  unfoldable pub pure : A → Action A
  pure a env s = (ok a, s)

  unfoldable pub raise : Error → Action A
  raise e env s = (err e, s)

module _ {ℓ κ} {A : Type ℓ} {B : Type κ} where
  abbrev pub continue : Result A → (A → Action B) → Action B
  continue (ok a) f env s = f a env s
  continue (err e) f env s = (err e, s)

  infixl 10 ◌>>=◌ ◌>>◌
  unfoldable pub ◌>>=◌ : Action A → (A → Action B) → Action B
  ◌>>=◌ m f env s = let (r, s') = m env s in continue r f env s'

  abbrev pub ◌>>◌ : Action A → Action B → Action B
  m >> n = m >>= λ _. n

module _ {ℓ} {A : Type ℓ} where
  abbrev pub prefixed : String → Result A → Result A
  prefixed text (ok a) = ok a
  prefixed text (err e) = err (wrapped text e "")

  -- if err != nil { return fmt.Errorf(text + "%w", err) }
  unfoldable pub wrap : String → Action A → Action A
  wrap text m env s = let (r, s') = m env s in (prefixed text r, s')

  -- Go's `r, err := m` where the code goes on in either case.
  unfoldable pub catch : Action A → Action (Result A)
  catch m env s = let (r, s') = m env s in (ok r, s')

-- A call, with its reply as a value.
unfoldable pub ask : (c : Call) → Action (Reply (Answer c))
ask c env s = let r = env.reply s.log c in (ok r, record s { log = event c r ∷ s.log })

abbrev pub accept {ℓ} : {A : Type ℓ} → Result A → Action A
accept (ok a) = pure a
accept (err e) = raise e

abbrev pub or_raise : {A : Type 0} → Reply A → Action A
or_raise (done a) = pure a
or_raise (fault f) = raise (external f)

-- A call whose error is returned as it is.
unfoldable pub call : (c : Call) → Action (Answer c)
unfolding ask ◌>>=◌ pure raise
call c = ask c >>= or_raise

-- The Instance that the methods share a pointer to.
unfoldable pub current : Action Instance
current env s = (ok s.instance, s)

unfoldable pub become : Instance → Action (Unit {0})
become i env s = (ok tt, record s { instance = i })

-- An assignment to fields of instance.Status.
unfoldable pub modify_status : (InstanceStatus → InstanceStatus) → Action (Unit {0})
modify_status change env s =
    (ok tt, record s { instance = record s.instance { status = change s.instance.status } })

-- A value read off the environment.
unfoldable pub asks {ℓ} : {A : Type ℓ} → (Env → A) → Action A
asks f env s = (ok (f env), s)

-- meta.SetStatusCondition(&instance.Status.Conditions, c)
unfoldable pub set_condition : Condition → Action Bool
set_condition c env s =
    let (available, changed) = env.set_status_condition s.instance.status.available c in
    (
      ok changed,
      record s {
        instance = record s.instance {
          status = record s.instance.status { available = available };
        };
      },
    )

-- What a status write leaves behind: the server's answer is decoded into the Instance.
abbrev pub adopt : Reply Instance → State → Result (Unit {0}) × State
adopt (done i) s =
    (ok tt, record { instance = i; log = event (Calls.update_status s.instance) (done i) ∷ s.log })
adopt (fault f) s =
    (err (external f), record s { log = event (Calls.update_status s.instance) (fault f) ∷ s.log })

-- r.Status().Update(ctx, instance)
unfoldable pub write_status : Action (Unit {0})
write_status env s = adopt (env.reply s.log (Calls.update_status s.instance)) s
