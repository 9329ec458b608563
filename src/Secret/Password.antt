-- ===== src/Secret/Password.antt =====
-- The generated SYSDBA password.
use kubebird.Prelude.{ℕ, zero, suc, String, true, false, ◌≡◌, refl, List, ◌∷◌, ◌≤◌, arith}
use kubebird.Api.{Instance}
use kubebird.Kube.Calls.{Env, Event, event, done, random_base64}
use kubebird.Kube.Action.{ok, State, call, ask, pure, ◌>>=◌}
use kubebird.Kube.Rules.{Does, Does-bind, Does-when, Does-pure, Does-raise, Does-run}
use kubebird.Kube.Stable.{call-Keeps}
use kubebird.Secret.{begins_with_dash, generate_random_password}

module _ {env : Env} where
  drawn-Does : Does env (λ s. Unit) (call (random_base64 24)) (λ _ t. Unit) (λ t. Unit)
  drawn-Does =
      call-Keeps
        (record {
          plain = λ s c r h j. tt;
          restatus = λ s change h j. tt;
          refused = λ s f j. tt;
          written = λ s i e j. tt;
        })
        (random_base64 24) refl

  generate_random_password-Does :
      (rounds : ℕ)
      → Does env
          (λ s. Unit)
          (generate_random_password rounds)
          (λ password t. begins_with_dash password ≡ false)
          (λ t. Unit)
  unfolding generate_random_password
  generate_random_password-Does zero = Does-raise _ λ s j. tt
  generate_random_password-Does (suc rounds) = Does-bind _ _ drawn-Does λ password.
      Does-when (begins_with_dash password) _ _ (λ h. generate_random_password-Does rounds)
        λ h. Does-pure password λ s j. h

-- A password that generateRandomPassword returns never begins with '-', after however many draws.
pub generate_random_password-begins_with_dash :
    (env : Env) (rounds : ℕ) (password : String) (s t : State)
    → generate_random_password rounds env s ≡ (ok password, t)
    → begins_with_dash password ≡ false
generate_random_password-begins_with_dash env rounds password s t run =
    Does-run (generate_random_password-Does rounds) s t password tt run

-- So many draws after a history, each with a '-' in front but the last, which gave the password.
pub data Draws (env : Env) : List Event → ℕ → String → List Event → Type 0 where
  last :
      {log : List Event} {password : String}
      → env.reply log (random_base64 24) ≡ done password
      → begins_with_dash password ≡ false
      → Draws env log 1 password (event (random_base64 24) (done password) ∷ log)
  again :
      {log log' : List Event} {k : ℕ} {drawn password : String}
      → env.reply log (random_base64 24) ≡ done drawn
      → begins_with_dash drawn ≡ true
      → Draws env (event (random_base64 24) (done drawn) ∷ log) k password log'
      → Draws env log (suc k) password log'

-- Where the random source gives, after some draws that begin with '-', one that does not,
-- generateRandomPassword on at least as many rounds as there were draws returns that one, with just
-- these draws in the history.
pub generate_random_password-Draws :
    (env : Env) (i : Instance) (log log' : List Event) (k rounds : ℕ) (password : String)
    → Draws env log k password log'
    → k ≤ rounds
    → generate_random_password rounds env (record { instance = i; log = log })
      ≡ (ok password, record { instance = i; log = log' })
unfolding generate_random_password call ask pure ◌>>=◌
generate_random_password-Draws env i log log' k zero password (last e d) h = absurd (omega arith)
generate_random_password-Draws env i log log' k zero password (again e d more) h =
    absurd (omega arith)
generate_random_password-Draws env i log log' k (suc rounds) password (last e d) h = rw (e, d) refl
generate_random_password-Draws env i log log' k (suc rounds) password (again e d more) h =
    rw (e, d) (generate_random_password-Draws env i _ log' _ rounds password more (omega arith))
