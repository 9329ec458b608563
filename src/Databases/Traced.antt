-- ===== src/Databases/Traced.antt =====
-- The history that a command in a pod, and a test for a file there, leave behind.
use kubebird.Prelude.{
  String, Bool, true, false, ◌≡◌, refl, sym, ap, subst, Option, none, some, List, [], ◌∷◌,
}
use kubebird.Api.{Instance}
use kubebird.Kube.Calls.{
  Call, Fault, Reply, done, fault, not_found, Event, event, Env, Output, exec,
}
use kubebird.Kube.Calls
use kubebird.Kube.Action.{Action, wrap, State, catch, is_exit_error, ◌>>=◌, ask, pure, raise}
use kubebird.Kube.Rules.{Does, Does-bind, Does-pure, Does-raise, Does-wrap, Ends}
use kubebird.Kube.Traced.{Since, Anything, asked}
use kubebird.Databases.{exec_in_pod, exec_ended, stream_ended, file_test, database_file_exists}

-- How a command ended: with the exit code 0, with another one, or not so.
abbrev of_fault : Option Fault → Option Bool
of_fault none = some true
of_fault (some (Calls.exit_code c m)) = some false
of_fault (some _) = none

abbrev pub ending : Reply Output → Option Bool
ending (done o) = of_fault o.error
ending (fault (Calls.exit_code c m)) = some false
ending (fault _) = none

-- The command ran to its end, without an error, and this is what it printed.
abbrev pub Ran : Instance → List Event → String → List String → String → String → State → Type 0
Ran i l pod command stdin out s =
    (o : Output) × (((o.error ≡ none) × (out ≡ o.stdout))
      × Since i (event (exec pod command stdin) (done o) ∷ l) s)

-- The file was found, or not.
abbrev pub Tested : Instance → List Event → String → String → Bool → State → Type 0
Tested i l pod path found s =
    (r : Reply Output) × ((ending r ≡ some found)
      × Since i (event (exec pod ("test" ∷ "-f" ∷ path ∷ []) "") r ∷ l) s)

abbrev file_query : String → String → Call
file_query pod path = exec pod ("test" ∷ "-f" ∷ path ∷ []) ""

module _ {env : Env} {i : Instance} {l : List Event} where
  module _ (pod : String) (command : List String) (stdin : String) where
    stream_ended-Does :
        (o : Output) (e : Option Fault)
        → o.error ≡ e
        → Does env
            (Since i (event (exec pod command stdin) (done o) ∷ l))
            (stream_ended o e)
            (Ran i l pod command stdin)
            Anything
    unfolding stream_ended
    stream_ended-Does o none h = Does-pure o.stdout λ s j. (o, ((h, refl), j))
    stream_ended-Does o (some f) h = Does-raise _ λ s j. tt

    exec_ended-Does :
        (r : Reply Output)
        → Does env
            (Since i (event (exec pod command stdin) r ∷ l))
            (exec_ended r)
            (Ran i l pod command stdin)
            Anything
    unfolding exec_ended
    exec_ended-Does (done o) = stream_ended-Does o o.error refl
    exec_ended-Does (fault f) = Does-raise _ λ s j. tt

    pub exec_in_pod-Does :
        Does env (Since i l) (exec_in_pod pod command stdin) (Ran i l pod command stdin) Anything
    unfolding exec_in_pod
    exec_in_pod-Does = Does-bind _ exec_ended (asked (exec pod command stdin)) exec_ended-Does

  module _ (pod path : String) where
    of_stream :
        (o : Output) (e : Option Fault)
        → o.error ≡ e
        → Does env
            (Since i (event (file_query pod path) (done o) ∷ l))
            (catch (stream_ended o e) >>= file_test)
            (Tested i l pod path)
            Anything
    unfolding stream_ended file_test is_exit_error ◌>>=◌ catch pure raise
    of_stream o none h = record { at = λ s j. (done o, (ap of_fault h, j)) }
    of_stream o (some (Calls.exit_code c m)) h = record { at = λ s j. (done o, (ap of_fault h, j)) }
    of_stream o (some (not_found m)) h = record { at = λ s j. tt }
    of_stream o (some (Calls.other m)) h = record { at = λ s j. tt }

    of_reply :
        (r : Reply Output)
        → Does env
            (Since i (event (file_query pod path) r ∷ l))
            (catch (exec_ended r) >>= file_test)
            (Tested i l pod path)
            Anything
    unfolding exec_ended file_test is_exit_error ◌>>=◌ catch pure raise
    of_reply (done o) = of_stream o o.error refl
    of_reply (fault (Calls.exit_code c m)) = record {
      at = λ s j. (fault (Calls.exit_code c m), (refl, j));
    }
    of_reply (fault (not_found m)) = record { at = λ s j. tt }
    of_reply (fault (Calls.other m)) = record { at = λ s j. tt }

    pub database_file_exists-Does :
        Does env (Since i l) (database_file_exists pod path) (Tested i l pod path) Anything
    unfolding database_file_exists exec_in_pod ◌>>=◌ catch ask
    database_file_exists-Does = record {
      at = λ s j.
          let r = env.reply s.log (file_query pod path) in
          (of_reply r).at (record s { log = event (file_query pod path) r ∷ s.log })
            (j.0, rw (← j.1) refl);
    }

-- What follows such a command or test.
module _ {ℓ} {env : Env} {i : Instance} {l : List Event} {A : Type ℓ} {Q : A → State → Type 0}
    (text pod : String) where
  pub exec_then :
      (command : List String) (stdin : String) (f : String → Action A)
      → ((o : Output)
          → o.error ≡ none
          → Does env
              (Since i (event (exec pod command stdin) (done o) ∷ l))
              (f o.stdout)
              Q
              Anything)
      → Does env (Since i l) (wrap text (exec_in_pod pod command stdin) >>= f) Q Anything
  exec_then command stdin f d =
      Does-bind (wrap text (exec_in_pod pod command stdin)) f
        (Does-wrap text _ (exec_in_pod-Does {i = i} {l = l} pod command stdin))
        λ out. record {
          at = λ s j.
              subst (λ x. Ends Q Anything (f x env s)) (sym j.1.0.1) ((d j.0 j.1.0.0).at s j.1.1);
        }

  pub test_then :
      (path : String) (f : Bool → Action A)
      → ((found : Bool) (r : Reply Output)
          → ending r ≡ some found
          → Does env
              (Since i (event (exec pod ("test" ∷ "-f" ∷ path ∷ []) "") r ∷ l))
              (f found)
              Q
              Anything)
      → Does env (Since i l) (wrap text (database_file_exists pod path) >>= f) Q Anything
  test_then path f d =
      Does-bind (wrap text (database_file_exists pod path)) f
        (Does-wrap text _ (database_file_exists-Does {i = i} {l = l} pod path))
        λ found. record { at = λ s j. (d found j.0 j.1.0).at s j.1.1 }
