-- ===== src/Kube/Rules.antt =====
-- Pre- and postconditions of actions, with a rule for each way to build one.
use kubebird.Prelude.{
  ◌≡◌, refl, sym, subst, ◌⊎◌, inl, inr, Bool, true, false, String, if◌then◌else◌,
}
use kubebird.Api.{Instance}
use kubebird.Kube.Calls.{Fault, Reply, done, fault, Env}
use kubebird.Kube.Action.{
  Error, Result, ok, err, State, Action, pure, raise, ◌>>=◌, ◌>>◌, wrap, catch, current, become,
  asks, or_raise, prefixed, external, continue,
}

-- What a run that ended so satisfies: `Q` with the value that it returned, or `R`.
abbrev pub Ends {ℓ} :
    {A : Type ℓ} → (A → State → Type 0) → (State → Type 0) → Result A × State → Type 0
Ends Q R (ok a, s) = Q a s
Ends Q R (err e, s) = R s

-- From a state with `P` the action ends with `Q`, or with an error and `R`.
pub record Does {ℓ} (env : Env) {A : Type ℓ} (P : State → Type 0) (m : Action A)
    (Q : A → State → Type 0) (R : State → Type 0) : Type ℓ where
  pub at : (s : State) → P s → Ends Q R (m env s)

prefixed-Ends {ℓ} :
    {A : Type ℓ} (Q : A → State → Type 0) (R : State → Type 0) (text : String) (r : Result A)
    (s : State)
    → Ends Q R (r, s)
    → Ends Q R (prefixed text r, s)
prefixed-Ends Q R text (ok a) s h = h
prefixed-Ends Q R text (err e) s h = h

continue-Ends {ℓ κ} :
    {A : Type ℓ} {B : Type κ} (env : Env) (Q : A → State → Type 0) (Q' : B → State → Type 0)
    (R : State → Type 0) (r : Result A) (f : A → Action B) (s : State)
    → ((a : A) → Does env (Q a) (f a) Q' R)
    → Ends Q R (r, s)
    → Ends Q' R (continue r f env s)
continue-Ends env Q Q' R (ok a) f s d h = (d a).at s h
continue-Ends env Q Q' R (err e) f s d h = h

module _ {ℓ} {env : Env} {A : Type ℓ} {P : State → Type 0} {R : State → Type 0} where
  pub Does-pure :
      {Q : A → State → Type 0} (a : A) → ((s : State) → P s → Q a s) → Does env P (pure a) Q R
  unfolding pure
  Does-pure a h = record { at = h }

  pub Does-raise :
      {Q : A → State → Type 0} (e : Error) → ((s : State) → P s → R s) → Does env P (raise e) Q R
  unfolding raise
  Does-raise e h = record { at = h }

  pub Does-weaken :
      {P' : State → Type 0} {Q : A → State → Type 0} {Q' : A → State → Type 0} {m : Action A}
      → ((s : State) → P' s → P s)
      → ((a : A) (s : State) → Q a s → Q' a s)
      → Does env P m Q R
      → Does env P' m Q' R
  Does-weaken {Q} {Q'} {m} pre post d = record { at = λ s h. go (m env s) (d.at s (pre s h)) }
    where
      go : (x : Result A × State) → Ends Q R x → Ends Q' R x
      go (ok a, s) h = post a s h
      go (err e, s) h = h

  pub Does-wrap :
      {Q : A → State → Type 0} (text : String) (m : Action A)
      → Does env P m Q R
      → Does env P (wrap text m) Q R
  unfolding wrap
  Does-wrap {Q} text m d = record {
    at = λ s h. let (r, s') = m env s in prefixed-Ends Q R text r s' (d.at s h);
  }

module _ {ℓ κ} {env : Env} {A : Type ℓ} {B : Type κ} {P : State → Type 0} {R : State → Type 0} where
  pub Does-bind :
      {Q : A → State → Type 0} {Q' : B → State → Type 0} (m : Action A) (f : A → Action B)
      → Does env P m Q R
      → ((a : A) → Does env (Q a) (f a) Q' R)
      → Does env P (m >>= f) Q' R
  unfolding ◌>>=◌
  Does-bind {Q} {Q'} m f d e = record {
    at = λ s h. let (r, s') = m env s in continue-Ends env Q Q' R r f s' e (d.at s h);
  }

pub Does-if {ℓ} :
    {env : Env} {A : Type ℓ} {P R : State → Type 0} {Q : A → State → Type 0} (b : Bool)
    (m n : Action A)
    → Does env P m Q R
    → Does env P n Q R
    → Does env P (if b then m else n) Q R
Does-if true m n dm dn = dm
Does-if false m n dm dn = dn

pub Does-when {ℓ} :
    {env : Env} {A : Type ℓ} {P R : State → Type 0} {Q : A → State → Type 0} (b : Bool)
    (m n : Action A)
    → (b ≡ true → Does env P m Q R)
    → (b ≡ false → Does env P n Q R)
    → Does env P (if b then m else n) Q R
Does-when true m n dm dn = dm refl
Does-when false m n dm dn = dn refl

pub ended {ℓ} :
    {A : Type ℓ} (J : State → Type 0) (r : Result A) (s : State) → Ends (λ _. J) J (r, s) → J s
ended J (ok a) s h = h
ended J (err e) s h = h

-- What holds after every run holds with any consequence of it.
pub Does-after {ℓ} :
    (env : Env) {A : Type ℓ} {P J J' : State → Type 0} (m : Action A)
    → ((s : State) → J s → J' s)
    → Does env P m (λ _. J) J
    → Does env P m (λ _. J') J'
Does-after env {A} {P} {J} {J'} m h d = record { at = λ s p. go (m env s) (d.at s p) }
  where
    go : (r : Result A × State) → Ends (λ _. J) J r → Ends (λ _. J') J' r
    go (ok a, s) j = h s j
    go (err e, s) j = h s j

-- What holds after a failed run holds with any consequence of it.
pub Does-fail {ℓ} :
    {env : Env} {A : Type ℓ} {P R R' : State → Type 0} {Q : A → State → Type 0} (m : Action A)
    → ((s : State) → R s → R' s)
    → Does env P m Q R
    → Does env P m Q R'
Does-fail {env} {A} {P} {R} {R'} {Q} m h d = record { at = λ s p. go (m env s) (d.at s p) }
  where
    go : (r : Result A × State) → Ends Q R r → Ends Q R' r
    go (ok a, s) q = q
    go (err e, s) j = h s j

-- The action keeps `J`, whether it returns or fails.
abbrev pub Keeps {ℓ} : Env → (State → Type 0) → {A : Type ℓ} → Action A → Type ℓ
Keeps env J m = Does env J m (λ _. J) J

module _ {ℓ} {env : Env} {A : Type ℓ} {J : State → Type 0} where
  pub Keeps-pure : (a : A) → Keeps env J (pure a)
  Keeps-pure a = Does-pure a (λ s h. h)

  pub Keeps-raise : (e : Error) → Keeps env J (raise {A = A} e)
  Keeps-raise e = Does-raise e (λ s h. h)

  pub Keeps-wrap : (text : String) (m : Action A) → Keeps env J m → Keeps env J (wrap text m)
  Keeps-wrap text m k = Does-wrap text m k

  pub Keeps-catch : (m : Action A) → Keeps env J m → Keeps env J (catch m)
  unfolding catch
  Keeps-catch m k = record { at = λ s h. let (r, s') = m env s in ended J r s' (k.at s h) }

  pub Keeps-asks : (f : Env → A) → Keeps env J (asks f)
  unfolding asks
  Keeps-asks f = record { at = λ s h. h }

  pub Keeps-if :
      (b : Bool) (m n : Action A)
      → (b ≡ true → Keeps env J m)
      → (b ≡ false → Keeps env J n)
      → Keeps env J (if b then m else n)
  Keeps-if true m n km kn = km refl
  Keeps-if false m n km kn = kn refl

module _ {ℓ κ} {env : Env} {A : Type ℓ} {B : Type κ} {J : State → Type 0} where
  pub Keeps-bind :
      (m : Action A) (f : A → Action B)
      → Keeps env J m
      → ((a : A) → Keeps env J (f a))
      → Keeps env J (m >>= f)
  Keeps-bind m f km kf = Does-bind m f km kf

  pub Keeps-then :
      (m : Action A) (n : Action B) → Keeps env J m → Keeps env J n → Keeps env J (m >> n)
  Keeps-then m n km kn = Does-bind m (λ _. n) km (λ _. kn)

module _ {env : Env} {J : State → Type 0} where
  pub Keeps-current : Keeps env J current
  unfolding current
  Keeps-current = record { at = λ s h. h }

  pub Keeps-or_raise : {A : Type 0} (r : Reply A) → Keeps env J (or_raise r)
  Keeps-or_raise (done a) = Keeps-pure a
  Keeps-or_raise (fault f) = Keeps-raise (external f)

pub ruleset keeps_rules = (
  Keeps-pure, Keeps-raise, Keeps-wrap, Keeps-catch, Keeps-if, Keeps-bind, Keeps-current, Keeps-asks,
  Keeps-or_raise,
)

-- `current` answers the Instance of the state that it leaves.
pub current-Does :
    {env : Env} {J : State → Type 0} → Does env J current (λ i s. J s × (i ≡ s.instance)) J
unfolding current
current-Does = record { at = λ s h. (h, refl) }

-- `asks` answers what the environment holds.
pub asks-Does :
    {env : Env} {A : Type 0} {J : State → Type 0} (f : Env → A)
    → Does env J (asks f) (λ a s. J s × (a ≡ f env)) J
unfolding asks
asks-Does f = record { at = λ s h. (h, refl) }

pub Reply-cases :
    {A : Type 0} (r : Reply A) → ((a : A) × (r ≡ done a)) ⊎ ((f : Fault) × (r ≡ fault f))
Reply-cases (done a) = inl (a, refl)
Reply-cases (fault f) = inr (f, refl)

-- What holds of a run that returned.
pub Does-run {ℓ} :
    {env : Env} {A : Type ℓ} {P R : State → Type 0} {Q : A → State → Type 0} {m : Action A}
    → Does env P m Q R
    → (s t : State) (a : A) → P s
    → m env s ≡ (ok a, t)
    → Q a t
Does-run {R} {Q} d s t a p e = subst (Ends Q R) e (d.at s p)

-- Reading the Instance, where it is known which it is.
pub Does-still {ℓ} :
    {env : Env} {A : Type ℓ} {P : State → Type 0} {Q : A → State → Type 0} {R : State → Type 0}
    (i : Instance) (f : Instance → Action A)
    → ((s : State) → P s → s.instance ≡ i)
    → Does env P (f i) Q R
    → Does env P (current >>= f) Q R
unfolding current ◌>>=◌
Does-still {env} {A} {P} {Q} {R} i f h d = record {
  at = λ s j. subst (λ k. Ends Q R (f k env s)) (sym (h s j)) (d.at s j);
}

-- Nothing is claimed of the action.
pub Does-any {ℓ} :
    {env : Env} {A : Type ℓ} {P : State → Type 0} (m : Action A)
    → Does env P m (λ _ t. Unit) (λ t. Unit)
Does-any {env} {A} m = record { at = λ s p. let (r, t) = m env s in go r t }
  where
    go : (r : Result A) (t : State) → Ends (λ _ t. Unit) (λ t. Unit) (r, t)
    go (ok a) t = tt
    go (err e) t = tt

pub Does-become :
    {env : Env} {P R : State → Type 0} {Q : Unit {0} → State → Type 0} (i : Instance)
    → ((s : State) → P s → Q tt (record s { instance = i }))
    → Does env P (become i) Q R
unfolding become
Does-become i h = record { at = h }
