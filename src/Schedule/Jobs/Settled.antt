-- ===== src/Schedule/Jobs/Settled.antt =====
-- What a reconcile of the CronJobs that gets through has called.
use kubebird.Prelude.{
  ◌∙◌, String, ◌<>◌, Bool, true, false, ◌≡◌, refl, sym, subst, none, List, [], ◌∷◌, if◌then◌else◌,
}
use kubebird.Prelude.Text.{quote}
use kubebird.Api.{Instance}
use kubebird.Naming.{firebird_pod_name}
use kubebird.Kube.Objects.{CronJob}
use kubebird.Kube.Calls.{
  Env, Reply, done, fault, not_found, Event, event, Output, exec, get_cron_job, delete_cron_job,
  read_cron_job, write_cron_job, set_controller_reference,
}
use kubebird.Kube.Calls
use kubebird.Kube.Action.{Action, State, ok, call, pure, wrap, ◌>>◌, ◌>>=◌}
use kubebird.Kube.Rules.{
  Does, Does-bind, Does-pure, Does-raise, Does-weaken, Does-when, Does-wrap, Does-run,
}
use kubebird.Kube.Traced.{
  Since, Anything, IsGone, ask_then, call_then, called, read, Does-some, Does-given,
}
use kubebird.Storage.{unless_missing}
use kubebird.Databases.Traced.{exec_then}
use kubebird.Schedule.{Frequency, frequency_name, backup_frequencies}
use kubebird.Schedule.Script.{scheduled_backup_dir}
use kubebird.Schedule.Jobs.Scheduled.{
  IsScheduled, is_scheduled-IsScheduled, IsScheduled-is_scheduled,
}
use kubebird.Schedule.Jobs.{
  scheduled_backup_cron_job_name, wanted_cron_job, cron_job_got, prepare_directory, is_scheduled,
  reconcile_scheduled_backup_cron_job, remove_cron_job, reconcile_frequency, reconcile_frequencies,
  reconcile_scheduled_backups,
}

clash : false ≡ true → ⊥
clash h = cc

abbrev job_name : Instance → Frequency → String
job_name i freq = scheduled_backup_cron_job_name i (frequency_name freq)

-- The CronJob is read and written as wanted, after `l`.
abbrev applied : Instance → Frequency → CronJob → List Event → List Event
applied i freq job l =
    event (write_cron_job (wanted_cron_job i freq job)) (done tt)
    ∷ event (set_controller_reference (job_name i freq)) (done tt)
    ∷ event (read_cron_job (job_name i freq)) (done job)
    ∷ l

abbrev prepared : Instance → Frequency → Output → List Event → List Event
prepared i freq o l =
    event
      (exec (firebird_pod_name i) ("mkdir" ∷ "-p" ∷ scheduled_backup_dir (frequency_name freq) ∷ [])
        "")
      (done o)
    ∷ l

-- The calls that bring the CronJob of a frequency in line, from the history `l` to `l'`: where the
-- frequency is scheduled it is written as wanted, once its directory is there if it is new; else it
-- is deleted.
pub data Handled (i : Instance) (freq : Frequency) (l l' : List Event) : Type 0 where
  updated :
      (old job : CronJob)
      → IsScheduled i freq
      → l' ≡ applied i freq job (event (get_cron_job (job_name i freq)) (done old) ∷ l)
      → Handled i freq l l'
  created :
      (m : String) (o : Output) (job : CronJob)
      → IsScheduled i freq
      → o.error ≡ none
      → l'
        ≡ applied i freq job
            (prepared i freq o (event (get_cron_job (job_name i freq)) (fault (not_found m)) ∷ l))
      → Handled i freq l l'
  removed :
      (r : Reply (Unit {0}))
      → (IsScheduled i freq → ⊥)
      → IsGone r
      → l' ≡ event (delete_cron_job (job_name i freq)) r ∷ l
      → Handled i freq l l'

-- Each of the frequencies is handled, one after the other.
pub data HandledAll (i : Instance) : List Frequency → List Event → List Event → Type 0 where
  finish : (l : List Event) → HandledAll i [] l l
  handle :
      {freq : Frequency} {freqs : List Frequency} {l l' l'' : List Event}
      → Handled i freq l l'
      → HandledAll i freqs l' l''
      → HandledAll i (freq ∷ freqs) l l''

abbrev After : Instance → Frequency → List Event → State → Type 0
After i freq l s = (s.instance ≡ i) × Handled i freq l s.log

-- The reply to the question whether the CronJob is there.
abbrev Tells : Bool → Reply CronJob → Type 0
Tells true (done job) = Unit
Tells false (fault (not_found m)) = Unit
Tells _ _ = ⊥

-- What follows once it is known whether the CronJob is there.
abbrev rest : Instance → Frequency → Bool → Action (Unit {0})
rest i freq exists = do
  if exists then pure tt else prepare_directory i freq
  wrap ("failed to reconcile backup CronJob " <> (quote (job_name i freq) <> ": ")) (do
    job ← call (read_cron_job (job_name i freq))
    call (set_controller_reference (job_name i freq))
    call (write_cron_job (wanted_cron_job i freq job)))

-- The directory of a new CronJob is there.
abbrev Prepared : Instance → Frequency → List Event → String → State → Type 0
Prepared i freq l m s =
    (o : Output) × ((o.error ≡ none)
      × Since i
          (prepared i freq o (event (get_cron_job (job_name i freq)) (fault (not_found m)) ∷ l)) s)

module _ {env : Env} (i : Instance) (freq : Frequency) (l : List Event) where
  apply-Does :
      (text : String) (l' : List Event)
      → ((job : CronJob) → Handled i freq l (applied i freq job l'))
      → Does env
          (Since i l')
          (wrap text (do
            job ← call (read_cron_job (job_name i freq))
            call (set_controller_reference (job_name i freq))
            call (write_cron_job (wanted_cron_job i freq job))))
          (λ _. After i freq l)
          Anything
  apply-Does text l' h = Does-wrap text _ (
      call_then (read_cron_job (job_name i freq)) _ λ job.
        call_then (set_controller_reference (job_name i freq)) _ λ _.
          Does-weaken (λ s j. j) (λ a s j. (j.0, subst (Handled i freq l) (sym j.1) (h job)))
            (called (write_cron_job (wanted_cron_job i freq job))))

  cron_job_got-Does :
      (r : Reply CronJob)
      → Does env
          (Since i (event (get_cron_job (job_name i freq)) r ∷ l))
          (cron_job_got (job_name i freq) r)
          (λ exists s. Tells exists r × Since i (event (get_cron_job (job_name i freq)) r ∷ l) s)
          Anything
  unfolding cron_job_got
  cron_job_got-Does (done old) = Does-pure true λ s j. (tt, j)
  cron_job_got-Does (fault (not_found m)) = Does-pure false λ s j. (tt, j)
  cron_job_got-Does (fault (Calls.exit_code c m)) = Does-raise _ λ s j. tt
  cron_job_got-Does (fault (Calls.other m)) = Does-raise _ λ s j. tt

  rest-Does :
      (exists : Bool) (r : Reply CronJob)
      → IsScheduled i freq
      → Tells exists r
      → Does env
          (Since i (event (get_cron_job (job_name i freq)) r ∷ l))
          (rest i freq exists)
          (λ _. After i freq l)
          Anything
  unfolding prepare_directory
  rest-Does true (done old) h t =
      Does-bind (pure tt) _ (Does-pure tt λ s j. j)
        λ _. apply-Does _ _ λ job. updated old job h refl
  rest-Does false (fault (not_found m)) h t =
      Does-bind (prepare_directory i freq) _
        (exec_then _ _ _ _ _
          λ o fine. Does-pure {Q = λ _. Prepared i freq l m} tt λ s j. (o, (fine, j)))
        λ _. Does-some λ o. Does-given λ fine. apply-Does _ _ λ job. created m o job h fine refl
  rest-Does false (done old) h t = elim t [ ]
  rest-Does false (fault (Calls.exit_code c m)) h t = elim t [ ]
  rest-Does false (fault (Calls.other m)) h t = elim t [ ]
  rest-Does true (fault f) h t = elim t [ ]

  scheduled-Does :
      IsScheduled i freq
      → Does env
          (Since i l)
          (reconcile_scheduled_backup_cron_job freq)
          (λ _. After i freq l)
          Anything
  unfolding reconcile_scheduled_backup_cron_job
  scheduled-Does h = read _ (
      ask_then (get_cron_job (job_name i freq)) _ λ r.
        Does-bind _ (rest i freq) (cron_job_got-Does r)
          λ exists. Does-given λ t. rest-Does exists r h t)

  unless_missing-Does :
      (text : String) (r : Reply (Unit {0}))
      → (IsScheduled i freq → ⊥)
      → Does env
          (Since i (event (delete_cron_job (job_name i freq)) r ∷ l))
          (unless_missing text r)
          (λ _. After i freq l)
          Anything
  unfolding unless_missing
  unless_missing-Does text (done x) h = Does-pure tt λ s j. (j.0, removed (done x) h tt j.1)
  unless_missing-Does text (fault (not_found m)) h =
      Does-pure tt λ s j. (j.0, removed (fault (not_found m)) h tt j.1)
  unless_missing-Does text (fault (Calls.exit_code c m)) h = Does-raise _ λ s j. tt
  unless_missing-Does text (fault (Calls.other m)) h = Does-raise _ λ s j. tt

  reconcile_frequency-Does :
      Does env (Since i l) (reconcile_frequency freq) (λ _. After i freq l) Anything
  unfolding reconcile_frequency remove_cron_job
  reconcile_frequency-Does = read _ (
      Does-when (is_scheduled i freq) _ _
        (λ h. Does-wrap _ _ (scheduled-Does (IsScheduled-is_scheduled i freq h)))
        λ h.
          ask_then (delete_cron_job (job_name i freq)) _
            λ r. unless_missing-Does _ r λ q. clash (sym h ∙ is_scheduled-IsScheduled i freq q))

reconcile_frequencies-Does :
    {env : Env} (i : Instance) (freqs : List Frequency) (l : List Event)
    → Does env
        (Since i l)
        (reconcile_frequencies freqs)
        (λ _ s. (s.instance ≡ i) × HandledAll i freqs l s.log)
        Anything
unfolding reconcile_frequencies
reconcile_frequencies-Does i [] l =
    Does-pure tt λ s j. (j.0, subst (HandledAll i [] l) (sym j.1) (finish l))
reconcile_frequencies-Does i (freq ∷ freqs) l =
    Does-bind (reconcile_frequency freq) _
      (Does-weaken {Q' = λ _ s. (l' : List Event) × (Handled i freq l l' × Since i l' s)} (λ s j. j)
        (λ a s j. (s.log, (j.1, (j.0, refl)))) (reconcile_frequency-Does i freq l))
      λ _. Does-some λ l'. Does-given λ h.
        Does-weaken (λ s j. j) (λ a s j. (j.0, handle h j.1))
          (reconcile_frequencies-Does i freqs l')

-- In whatever environment, where reconcileScheduledBackups returns without an error, it leaves the
-- Instance as it is, and its calls are these, for the frequencies hour, day, week, month and year in
-- this order: where backups are enabled with a local destination and the frequency's retention is
-- above 0, its CronJob is got, the frequency's directory is made if there is none, and the CronJob is
-- read, owned and written as wanted; else it is deleted, or found missing.
pub reconcile_scheduled_backups-HandledAll :
    (env : Env) (s t : State)
    → reconcile_scheduled_backups env s ≡ (ok tt, t)
    → (t.instance ≡ s.instance) × HandledAll s.instance backup_frequencies s.log t.log
unfolding reconcile_scheduled_backups
reconcile_scheduled_backups-HandledAll env s t run =
    Does-run (reconcile_frequencies-Does s.instance backup_frequencies s.log) s t tt (refl, refl)
      run
