-- ===== src/Databases/Names.antt =====
-- Which names are listed in the lists of databases that reconcileDatabases makes.
use kubebird.Prelude.{
  String, Bool, true, false, not, ◌&&◌, ◌||◌, ◌≡◌, refl, sym, ap, ◌∙◌, List, [], ◌∷◌, ◌=?◌, eq_iff,
  ◌==◌, inl, inr, keep_if, length, arith, Bool-cases,
}
use kubebird.Prelude.Text.{contains}
use kubebird.Prelude.Text.Words.{contains-append}
use kubebird.Api.{InstanceStatus, DatabaseSpec}
use kubebird.Databases.{database_names, pending_databases, removed_databases, databases_after}

pub contains-keep_if :
    (p : String → Bool) (xs : List String) (x : String)
    → contains (keep_if p xs) x ≡ (contains xs x && p x)
unfolding contains
contains-keep_if p [] x = refl
contains-keep_if p (t ∷ ts) x =
    let rest = contains-keep_if p ts x in
    elim (Bool-cases (p t)) [
      | inl pt ↦ elim (Bool-cases (t =? x)) [
        | inl e ↦ let px = ap p (sym ((eq_iff t x).0 e)) ∙ pt in ground (arith, rest, pt, e, px)
        | inr e ↦ ground (arith, rest, pt, e)
      ]
      | inr pt ↦ elim (Bool-cases (t =? x)) [
        | inl e ↦ let px = ap p (sym ((eq_iff t x).0 e)) ∙ pt in ground (arith, rest, pt, e, px)
        | inr e ↦ ground (arith, rest, pt, e)
      ]
    ]

-- The names of the databases that a test of the name picks are the names that it picks.
names-keep_if :
    (p : String → Bool) (dbs : List DatabaseSpec)
    → database_names (keep_if (λ db. p db.name) dbs) ≡ keep_if p (database_names dbs)
names-keep_if p [] = refl
names-keep_if p (db ∷ dbs) =
    let rest = names-keep_if p dbs in
    elim (Bool-cases (p db.name)) [
      | inl h ↦ rw h (ap (λ xs. db.name ∷ xs) rest)
      | inr h ↦ rw h rest
    ]

after_cases :
    (old wanted : Bool) → ((old && not (old && not wanted)) || (wanted && not old)) ≡ wanted
after_cases true true = refl
after_cases true false = refl
after_cases false true = refl
after_cases false false = refl

pub after-contains :
    (st : InstanceStatus) (dbs : List DatabaseSpec) (x : String)
    → contains
        (databases_after st.databases
          (removed_databases dbs st.databases)
          (pending_databases st dbs))
        x
      ≡ contains (database_names dbs) x
unfolding databases_after removed_databases pending_databases
after-contains st dbs x =
    let old = contains st.databases x in
    let wanted = contains (database_names dbs) x in
    let removed = removed_databases dbs st.databases in
    let kept : contains (keep_if (λ name. not (contains removed name)) st.databases) x
        ≡ (old && not (old && not wanted)) =
      contains-keep_if _ st.databases x
      ∙ ap (λ b. old && not b)
          (contains-keep_if (λ name. not (contains (database_names dbs) name)) st.databases x) in
    let added : contains (database_names (pending_databases st dbs)) x ≡ (wanted && not old) =
      ap (λ xs. contains xs x) (names-keep_if (λ name. not (contains st.databases name)) dbs)
      ∙ contains-keep_if _ (database_names dbs) x in
    contains-append _ (database_names (pending_databases st dbs)) x
    ∙ rw (kept, added) (after_cases old wanted)

pub empty {ℓ} : {A : Type ℓ} (xs : List A) → (length xs == 0) ≡ true → xs ≡ []
empty [] h = refl
empty (x ∷ xs) h = ground (arith, h)

-- Where nothing is pending or removed, the status lists the spec's databases already.
pub settled-listed :
    (st : InstanceStatus) (dbs : List DatabaseSpec) (x : String)
    → pending_databases st dbs ≡ []
    → removed_databases dbs st.databases ≡ []
    → contains st.databases x ≡ contains (database_names dbs) x
unfolding databases_after contains
settled-listed st dbs x hp hr =
    let after : contains (databases_after st.databases [] []) x ≡ contains (database_names dbs) x =
      ap (λ r. contains (databases_after st.databases r []) x) (sym hr)
      ∙ ap (λ p. contains (databases_after st.databases (removed_databases dbs st.databases) p) x)
          (sym hp)
      ∙ after-contains st dbs x in
    let kept = contains-append (keep_if (λ name. not (contains [] name)) st.databases) [] x in
    let same = contains-keep_if (λ name. not (contains [] name)) st.databases x in
    ground (arith, after, kept, same)
