-- ===== src/Manager/Started.antt =====
-- What holds where the manager was started, and which namespaces it watches.
use kubebird.Prelude.{
  String, true, false, ◌≡◌, refl, ap, subst, Option, none, some, List, [], ◌∷◌, is_none, ℕ,
}
use kubebird.Manager.{
  Flags, TlsConfig, ManagerOptions, Step, new_manager, new_client_set, setup_with_manager,
  add_healthz_check, add_readyz_check, start, steps, Exit, returned, exited, take_steps,
  manager_options, get_watch_namespace, disable_http2, tls_opts, main,
}

-- What the options of a server make of its TLS configuration.
abbrev pub configured : List (TlsConfig → TlsConfig) → TlsConfig → TlsConfig
configured [] c = c
configured (f ∷ fs) c = configured fs (f c)

-- Metrics that are served securely are behind the authorization filter, and with HTTP/2 not enabled
-- neither server offers it.
pub record IsSecured (flags : Flags) (options : ManagerOptions) : Type 0 where
  pub authorized : flags.secure_metrics ≡ true → options.metrics.with_authorization ≡ true
  pub served : options.metrics.secure_serving ≡ flags.secure_metrics
  pub metrics_protos :
      flags.enable_http2 ≡ false
      → (c : TlsConfig) → (configured options.metrics.tls_opts c).next_protos ≡ "http/1.1" ∷ []
  pub webhook_protos :
      flags.enable_http2 ≡ false
      → (c : TlsConfig)
      → (configured options.webhook_server.tls_opts c).next_protos ≡ "http/1.1" ∷ []

-- None of these steps, the latest first, failed after those before it.
abbrev pub NoneFailed : (List Step → Step → Option String) → List Step → Type 0
NoneFailed failure [] = Unit
NoneFailed failure (step ∷ before) = (failure before step ≡ none) × NoneFailed failure before

-- The latest of these steps failed, and none before it.
abbrev pub LastFailed : (List Step → Step → Option String) → List Step → Type 0
LastFailed failure [] = ⊥
LastFailed failure (step ∷ before) =
    (is_none (failure before step) ≡ false) × NoneFailed failure before

-- The steps of a manager that was started, the latest first.
abbrev pub all_taken : ManagerOptions → List Step
all_taken options =
    start
    ∷ add_readyz_check
    ∷ add_healthz_check
    ∷ setup_with_manager
    ∷ new_client_set
    ∷ new_manager options
    ∷ []

-- The rest of the steps put before those taken, the latest first.
abbrev onto : List Step → List Step → List Step
onto taken [] = taken
onto taken (step ∷ rest) = onto (step ∷ taken) rest

-- What the end of main tells of the steps that it took.
abbrev Told : (List Step → Step → Option String) → List Step → Exit × List Step → Type 0
Told failure whole (returned, log) = (log ≡ whole) × NoneFailed failure log
Told failure whole (exited k, log) = (k ≡ 1) × LastFailed failure log

take_steps-Told :
    (failure : List Step → Step → Option String) (taken rest : List Step)
    → NoneFailed failure taken
    → Told failure (onto taken rest) (take_steps failure taken rest)
unfolding take_steps
take_steps-Told failure taken [] h = (refl, h)
take_steps-Told failure taken (step ∷ rest) h =
    by (failure taken step) refl (take_steps failure (step ∷ taken) rest)
      λ e. take_steps-Told failure (step ∷ taken) rest (e, h)
  where
    by :
        (r : Option String)
        → failure taken step ≡ r
        → (later : Exit × List Step)
        → (failure taken step ≡ none → Told failure (onto (step ∷ taken) rest) later)
        → Told failure
            (onto (step ∷ taken) rest)
            (elim r [ none ↦ later | some e ↦ (exited 1, step ∷ taken) ])
    by none e later f = f e
    by (some x) e later f = (refl, (ap is_none e, h))

manager_options-IsSecured :
    (flags : Flags) (ns : String) → IsSecured flags (manager_options flags ns)
unfolding manager_options tls_opts disable_http2
manager_options-IsSecured flags ns = record {
  authorized = λ h. h;
  served = refl;
  metrics_protos = λ h c. rw h refl;
  webhook_protos = λ h c. rw h refl;
}

-- Where WATCH_NAMESPACE is set to `ns`, and the options are those made of the flags and `ns`: if main
-- returns, then it has made the manager with the options, made the client set, set the controller up,
-- added the two checks and started the manager, in this order, and none of these steps failed; if it
-- exits, then with the code 1, the last step that it took failed, and none before it did. In those
-- options metrics that are served securely are behind the authorization filter, and neither server
-- offers HTTP/2 unless it is enabled. If WATCH_NAMESPACE is not set, main exits with the code 1 and
-- takes no step.
pub main-Starts :
    (failure : List Step → Step → Option String) (flags : Flags)
    → ((ns : String) (log : List Step)
        → (main failure flags (some ns) ≡ (returned, log)
            → (log ≡ all_taken (manager_options flags ns)) × NoneFailed failure log)
          × ((k : ℕ)
              → main failure flags (some ns) ≡ (exited k, log)
              → (k ≡ 1) × LastFailed failure log)
          × IsSecured flags (manager_options flags ns))
      × (main failure flags none ≡ (exited 1, []))
unfolding main get_watch_namespace
main-Starts failure flags = (
  λ ns log. (
    λ e. subst (Told failure (all_taken (manager_options flags ns))) e (told ns),
    λ k e. subst (Told failure (all_taken (manager_options flags ns))) e (told ns),
    manager_options-IsSecured flags ns,
  ),
  refl,
)
  where
    told :
        (ns : String)
        → Told failure
            (all_taken (manager_options flags ns))
            (take_steps failure [] (steps flags ns))
    told ns = take_steps-Told failure [] (steps flags ns) tt
