-- ===== src/Version/Tags.antt =====
-- The version that is read back off a version's text and off a StatefulSet.
use kubebird.Prelude.{
  ℕ, zero, suc, ◌+◌, ◌-◌, ◌*◌, String, ◌<>◌, true, false, ◌≡◌, refl, sym, ap, ◌∙◌, Option, none,
  some, ◌==◌, leb, ◌<◌, ◌^◌, arith, Bool-cases, inl, inr, and-both,
}
use Prim.Native.Char.{code}
use text.Mathlib.TextLemmas.{nil-append, cons-append, append-nil}
use kubebird.Prelude.Text.{cut_before, digits_value, is_digit, show}
use kubebird.Prelude.Text.Numbers.{one-append, digits_value-show, atoi-show}
use kubebird.Api.{Instance}
use kubebird.Kube.Objects.{StatefulSet}
use kubebird.Kube.Calls.{Env}
use kubebird.Kube.Action.{State, ok, ◌>>=◌, current, pure}
use kubebird.Version.{
  firebird_major_version, after_last_colon, contains_slash, stateful_set_firebird_version,
}
use kubebird.Workload.{wanted_stateful_set, firebird_container}
use kubebird.Upgrade.{start_major_upgrade, compare_majors}

no_separator : (k sep : ℕ) → leb 48 k ≡ true → leb 48 sep ≡ false → (k == sep) ≡ false
no_separator k sep low h = ground (arith, low, h)

-- A run of digits is cut nowhere.
cut_before-digits :
    (sep : ℕ) (t rest : String) (k n : ℕ)
    → leb 48 sep ≡ false
    → digits_value k t ≡ some n
    → cut_before sep (t <> rest) ≡ t <> cut_before sep rest
unfolding cut_before digits_value
cut_before-digits sep String.[] rest k n h v =
    rw (nil-append rest, nil-append (cut_before sep rest)) refl
cut_before-digits sep (String.◌∷◌ c t) rest k n h v = elim (Bool-cases (is_digit c)) [
  | inl d ↦
      let (low, high) = and-both (leb 48 (code c)) (leb (code c) 57) d in
      rw
        (
          cons-append c t rest,
          cons-append c t (cut_before sep rest),
          no_separator (code c) sep low h,
        )
        (ap (λ s. String.◌∷◌ c s)
          (cut_before-digits sep t rest (k * 10 + (code c - 48)) n h (rw d at v)))
  | inr d ↦ absurd (stuck (rw d at v))
]
  where
    stuck : {m : ℕ} → ◌≡◌ {A = Option ℕ} none (some m) → ⊥
    stuck e = cc

cut_before-show :
    (sep n : ℕ) (rest : String)
    → leb 48 sep ≡ false
    → cut_before sep rest ≡ String.[]
    → cut_before sep (show n <> rest) ≡ show n
cut_before-show sep n rest h e =
    cut_before-digits sep (show n) rest 0 n h (digits_value-show n)
    ∙ ap (λ s. show n <> s) e
    ∙ append-nil (show n)

cut_before-show_self : (sep n : ℕ) → leb 48 sep ≡ false → cut_before sep (show n) ≡ show n
unfolding cut_before
cut_before-show_self sep n h =
    ap (cut_before sep) (sym (append-nil (show n))) ∙ cut_before-show sep n String.[] h refl

major_of_text :
    (n : ℕ) (text : String)
    → 0 < n
    → n < 2 ^ 63
    → cut_before b'-' (cut_before b'.' text) ≡ show n
    → firebird_major_version text ≡ some n
unfolding firebird_major_version
major_of_text zero text p h e = absurd (omega arith)
major_of_text (suc n) text p h e = rw (e, atoi-show (suc n) h) refl

-- The major of a version text is a positive number below 2^63 in decimal digits, where the text is
-- that number alone, or that number before a dot or a dash and anything.
pub firebird_major_version-show :
    (n : ℕ) (rest : String)
    → 0 < n
    → n < 2 ^ 63
    → (firebird_major_version (show n) ≡ some n)
      × (firebird_major_version (show n <> ("." <> rest)) ≡ some n)
      × (firebird_major_version (show n <> ("-" <> rest)) ≡ some n)
unfolding cut_before
firebird_major_version-show n rest p h = (
  major_of_text n _ p h
      (ap (cut_before b'-') (cut_before-show_self b'.' n refl) ∙ cut_before-show_self b'-' n refl),
  major_of_text n _ p h (
      ap (cut_before b'-')
        (cut_before-show b'.' n ("." <> rest) refl (ap (cut_before b'.') (one-append _ rest)))
      ∙ cut_before-show_self b'-' n refl),
  major_of_text n _ p h (
      ap (cut_before b'-')
        (cut_before-digits b'.' (show n) ("-" <> rest) 0 n refl (digits_value-show n))
      ∙ cut_before-show b'-' n (cut_before b'.' ("-" <> rest)) refl
          (ap (λ s. cut_before b'-' (cut_before b'.' s)) (one-append _ rest))),
)

after_last_colon-tag :
    (image tag : String)
    → after_last_colon tag ≡ none
    → after_last_colon (image <> (":" <> tag)) ≡ some tag
unfolding after_last_colon
after_last_colon-tag String.[] tag h =
    ap after_last_colon (nil-append (":" <> tag) ∙ one-append _ tag) ∙ rw (h, after_last_colon) refl
after_last_colon-tag (String.◌∷◌ c image) tag h =
    ap after_last_colon (cons-append c image (":" <> tag))
    ∙ rw (after_last_colon-tag image tag h, after_last_colon) refl

-- The version that is read off the StatefulSet written for an Instance is the version of its spec,
-- if that has neither a colon nor a slash.
stateful_set_firebird_version-wanted :
    (i : Instance) (hash : String) (sts : StatefulSet)
    → after_last_colon i.spec.version ≡ none
    → contains_slash i.spec.version ≡ false
    → stateful_set_firebird_version (wanted_stateful_set i hash sts) ≡ i.spec.version
unfolding stateful_set_firebird_version wanted_stateful_set firebird_container
stateful_set_firebird_version-wanted i hash sts colon slash =
    rw (after_last_colon-tag i.spec.image i.spec.version colon, slash) refl

same_number : (n : ℕ) → (n == n) ≡ true
same_number n = ground arith

-- Where the version of an Instance has neither a colon nor a slash: the version that is read off the
-- StatefulSet written for the Instance is the version of its spec, and in whatever environment this
-- StatefulSet starts no major upgrade of that Instance: the look for one returns false, makes no call
-- and leaves the status as it is.
pub start_major_upgrade-wanted :
    (env : Env) (s : State) (hash : String) (sts : StatefulSet)
    → after_last_colon s.instance.spec.version ≡ none
    → contains_slash s.instance.spec.version ≡ false
    → (stateful_set_firebird_version (wanted_stateful_set s.instance hash sts)
        ≡ s.instance.spec.version)
      × (start_major_upgrade (wanted_stateful_set s.instance hash sts) env s ≡ (ok false, s))
unfolding start_major_upgrade compare_majors ◌>>=◌ current pure
start_major_upgrade-wanted env s hash sts colon slash =
    (as_read, rw as_read (same (firebird_major_version s.instance.spec.version)))
  where
    as_read :
        stateful_set_firebird_version (wanted_stateful_set s.instance hash sts)
        ≡ s.instance.spec.version
    as_read = stateful_set_firebird_version-wanted s.instance hash sts colon slash

    same :
        (v : Option ℕ) → compare_majors s.instance s.instance.spec.version v v env s ≡ (ok false, s)
    same none = refl
    same (some n) = rw (same_number n) refl
