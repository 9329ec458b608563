-- ===== src/Databases/Orphaned.antt =====
-- The databases that orphanedBackups reports, against the files of the backup directory.
use kubebird.Prelude.{
  Bool, String, true, false, ◌||◌, ◌=?◌, ◌≡◌, refl, sym, ap, subst, ◌∙◌, none, List, [], ◌∷◌,
  Bool-cases, inl, inr, eq_iff, eq_refl, arith, ◌<>◌, not,
}
use kubebird.Prelude.Text.{contains, fields, has_suffix}
use kubebird.Prelude.Text.Sorting.{IsSorted, sort-IsSorted, contains-sort}
use kubebird.Api.{Instance}
use kubebird.Naming.{instance_backup_dir}
use kubebird.Kube.Calls.{Event, event, Env, Output, exec, done}
use kubebird.Kube.Action.{State, ok}
use kubebird.Kube.Rules.{Does, Does-pure, Does-run}
use kubebird.Kube.Traced.{Since, Anything, read}
use kubebird.Databases.Traced.{exec_then}
use kubebird.Prelude.Text.{trim_suffix}
use kubebird.Prelude.Text.Affixes.{has_suffix-append, stem_of}
use kubebird.Databases.Files.{trim_suffix-append}
use kubebird.Databases.SecurityBackups.{IsSecurity, IsSecurity-backup, is_security_backup-yes}
use kubebird.Databases.{
  orphaned_backups, collect_orphaned, is_security_backup, database_of_backup, database_names,
}

-- The file is `stem`.fbk and `x` is `stem`.fdb, which is none of the desired databases, and the stem
-- is not `security` before a number.
pub record IsOrphan (desired : List String) (x file : String) : Type 0 where
  stem : String
  is_file : file ≡ stem <> ".fbk"
  is_of : x ≡ stem <> ".fdb"
  is_no_security : IsSecurity stem → ⊥
  is_undesired : contains desired x ≡ false

-- What the code asks of such a file.
abbrev Asked : List String → String → String → Type 0
Asked desired x file =
    (has_suffix ".fbk" file ≡ true)
    × (is_security_backup file ≡ false)
    × (database_of_backup file ≡ x)
    × (contains desired x ≡ false)

clash : {b : Bool} → b ≡ false → b ≡ true → ⊥
clash h e = cc

Asked-IsOrphan :
    (desired : List String) (x file : String) → Asked desired x file → IsOrphan desired x file
Asked-IsOrphan desired x file (is_backup, no_security, is_of, undesired) =
    let (stem, e) = stem_of ".fbk" file is_backup in
    record {
      stem = stem;
      is_file = e;
      is_of =
          sym is_of
          ∙ ap (λ f. trim_suffix ".fbk" f <> ".fdb") e
          ∙ ap (λ t. t <> ".fdb") (trim_suffix-append ".fbk" stem);
      is_no_security =
          λ q. clash no_security (ap is_security_backup e ∙ is_security_backup-yes stem q);
      is_undesired = undesired;
    }

IsOrphan-Asked :
    (desired : List String) (x file : String) → IsOrphan desired x file → Asked desired x file
IsOrphan-Asked desired x file o = (
  ap (has_suffix ".fbk") o.is_file ∙ has_suffix-append ".fbk" o.stem,
  elim (Bool-cases (is_security_backup file)) [
    | inl e ↦
        absurd
          (o.is_no_security (IsSecurity-backup o.stem (sym (ap is_security_backup o.is_file) ∙ e)))
    | inr e ↦ e
  ],
  ap database_of_backup o.is_file
      ∙ ap (λ t. t <> ".fdb") (trim_suffix-append ".fbk" o.stem)
      ∙ sym o.is_of,
  o.is_undesired,
)

-- One of the files is such a backup.
abbrev pub HasOrphan : List String → String → List String → Type 0
HasOrphan desired x files =
    (file : String) × ((contains files file ≡ true) × IsOrphan desired x file)

module _ (desired : List String) (x : String) where
  abbrev Collected : List String → Type 0
  Collected files = contains (collect_orphaned desired files) x ≡ true

  later :
      (file : String) (files : List String)
      → HasOrphan desired x files
      → HasOrphan desired x (file ∷ files)
  unfolding contains
  later file files (found, (m, o)) = (found, (ground (arith, m), o))

  collected : (files : List String) → Collected files → HasOrphan desired x files
  unfolding collect_orphaned contains
  collected [] h = cc
  collected (file ∷ files) h =
      elim (Bool-cases (not (has_suffix ".fbk" file) || is_security_backup file)) [
        | inl e ↦ later file files (collected files (rw e at h))
        | inr e ↦ elim (Bool-cases (contains desired (database_of_backup file))) [
          | inl k ↦ later file files (collected files (rw (e, k) at h))
          | inr k ↦ elim (Bool-cases (database_of_backup file =? x)) [
            | inl p ↦ (
              file,
              (
                rw (eq_refl file) refl,
                Asked-IsOrphan desired x file (
                  ground (arith, e),
                  ground (arith, e),
                  (eq_iff _ _).0 p,
                  ap (contains desired) (sym ((eq_iff _ _).0 p)) ∙ k,
                ),
              ),
            )
            | inr p ↦ later file files (collected files (rw (e, k, p) at h))
          ]
        ]
      ]

  kept : (file : String) (files : List String) → Collected files → Collected (file ∷ files)
  unfolding collect_orphaned contains
  kept file files h = elim (Bool-cases (not (has_suffix ".fbk" file) || is_security_backup file)) [
    | inl e ↦ rw e h
    | inr e ↦ elim (Bool-cases (contains desired (database_of_backup file))) [
      | inl k ↦ rw (e, k) h
      | inr k ↦ rw (e, k, h) (ground (arith))
    ]
  ]

  first : (file : String) (files : List String) → IsOrphan desired x file → Collected (file ∷ files)
  unfolding collect_orphaned contains
  first file files o =
      let (backup, no_security, is_of, undesired) = IsOrphan-Asked desired x file o in
      rw (backup, no_security, is_of, undesired, eq_refl x) refl

  collects :
      (file : String) (files : List String)
      → contains files file ≡ true
      → IsOrphan desired x file
      → Collected files
  unfolding collect_orphaned contains
  collects file [] h o = cc
  collects file (y ∷ files) h o = elim (Bool-cases (y =? file)) [
    | inl e ↦
        let same = (eq_iff y file).0 e in first y files (subst (IsOrphan desired x) (sym same) o)
    | inr e ↦ kept y files (collects file files (rw e at h) o)
  ]

-- What a listing of the backup directory makes orphanedBackups report.
pub record Reports (i : Instance) (l : List Event) (pod : String) (names : List String) (t : State)
    : Type 0 where
  output : Output
  was_listed :
      t.log
      ≡ event
          (exec pod
            ("sh" ∷ "-c" ∷ ("ls -1 " <> (instance_backup_dir <> " 2>/dev/null || true")) ∷ [])
            "")
          (done output)
        ∷ l
  was_fine : output.error ≡ none
  are_sorted : IsSorted names
  are_orphans :
      (x : String)
      → contains names x ≡ true
      → HasOrphan (database_names i.spec.databases) x (fields output.stdout)
  are_all :
      (x file : String)
      → contains (fields output.stdout) file ≡ true
      → IsOrphan (database_names i.spec.databases) x file
      → contains names x ≡ true

reports :
    {env : Env} (i : Instance) (l : List Event) (pod : String)
    → Does env (Since i l) (orphaned_backups pod) (Reports i l pod) Anything
unfolding orphaned_backups
reports i l pod = read _ (
    exec_then _ _ _ _ _ λ o fine. Does-pure _ λ s j.
      let desired = database_names i.spec.databases in
      let found = collect_orphaned desired (fields o.stdout) in
      record {
        output = o;
        was_listed = j.1;
        was_fine = fine;
        are_sorted = sort-IsSorted found;
        are_orphans = λ x m. collected desired x _ (sym (contains-sort x found) ∙ m);
        are_all = λ x file m k. contains-sort x found ∙ collects desired x file _ m k;
      })

-- In whatever environment, where orphanedBackups returns without an error, its one call lists the
-- backup directory in the pod, and what it returns is sorted and holds `stem`.fdb just where the
-- listing has a file `stem`.fbk, the spec has no database of the name `stem`.fdb, and `stem` is not
-- `security` before a number.
pub orphaned_backups-Reports :
    (env : Env) (pod : String) (s t : State) (names : List String)
    → orphaned_backups pod env s ≡ (ok names, t)
    → Reports s.instance s.log pod names t
orphaned_backups-Reports env pod s t names run =
    Does-run (reports s.instance s.log pod) s t names (refl, refl) run
