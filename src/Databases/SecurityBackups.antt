-- ===== src/Databases/SecurityBackups.antt =====
-- The backups of security databases that orphanedBackups leaves out.
use kubebird.Prelude.{
  String, ◌<>◌, Bool, true, false, ◌=?◌, ◌≡◌, refl, sym, ap, ◌∙◌, not, Option, none, some, eq_iff,
  Bool-cases, inl, inr, and-both,
}
use text.Mathlib.TextLemmas.{nil-append, cons-append, append_assoc, append_cancel_right}
use kubebird.Prelude.Text.{is_digit, strip_prefix}
use kubebird.Prelude.Text.Affixes.{strip_prefix-append, stripped}
use kubebird.Version.{span_digits}
use kubebird.Databases.{is_security_backup, digits_then_fbk}

-- Each character is a digit.
abbrev pub AreDigits : String → Type 0
AreDigits String.[] = Unit
AreDigits (String.◌∷◌ c s) = (is_digit c ≡ true) × AreDigits s

-- The text is `security` before a number.
abbrev pub IsSecurity : String → Type 0
IsSecurity stem =
    (digits : String) × ((stem ≡ "security" <> digits) × ((digits ≡ "" → ⊥) × AreDigits digits))

span_digits-fbk : (ds : String) → AreDigits ds → span_digits (ds <> ".fbk") ≡ (ds, ".fbk")
unfolding span_digits
span_digits-fbk String.[] d = ap span_digits (nil-append ".fbk")
span_digits-fbk (String.◌∷◌ c ds) d =
    ap span_digits (cons-append c ds ".fbk") ∙ rw (span_digits-fbk ds d.1, d.0) refl

span_digits-AreDigits :
    (s : String) → AreDigits (span_digits s).0 × (s ≡ (span_digits s).0 <> (span_digits s).1)
unfolding span_digits
span_digits-AreDigits String.[] = (tt, sym (nil-append String.[]))
span_digits-AreDigits (String.◌∷◌ c s) = elim (Bool-cases (is_digit c)) [
  | inl d ↦
      let (here, whole) = span_digits-AreDigits s in
      rw d ((d, here), ap (λ r. String.◌∷◌ c r) whole ∙ sym (cons-append c _ _))
  | inr d ↦ rw d (tt, sym (nil-append (String.◌∷◌ c s)))
]

no_text : (s : String) → (s ≡ "" → ⊥) → (s =? "") ≡ false
no_text s h = elim (Bool-cases (s =? "")) [ inl e ↦ absurd (h ((eq_iff s "").0 e)) | inr e ↦ e ]

by_prefix :
    (s rest : String)
    → strip_prefix "security" s ≡ some rest
    → is_security_backup s ≡ digits_then_fbk (span_digits rest)
unfolding is_security_backup
by_prefix s rest e =
    ap (λ r. elim r [ none ↦ false | some rest ↦ digits_then_fbk (span_digits rest) ]) e

pub is_security_backup-yes :
    (stem : String) → IsSecurity stem → is_security_backup (stem <> ".fbk") ≡ true
unfolding digits_then_fbk
is_security_backup-yes stem (digits, (e, (some_digit, d))) =
    ap is_security_backup (ap (λ x. x <> ".fbk") e ∙ append_assoc "security" digits ".fbk")
    ∙ by_prefix _ (digits <> ".fbk") (strip_prefix-append "security" (digits <> ".fbk"))
    ∙ ap digits_then_fbk (span_digits-fbk digits d)
    ∙ rw (no_text digits some_digit) refl

never : (b : Bool) → not b ≡ true → b ≡ true → ⊥
never true h e = cc
never false h e = cc

fbk_after :
    (rest : String)
    → digits_then_fbk (span_digits rest) ≡ true
    → (ds : String) × ((rest ≡ ds <> ".fbk") × ((ds ≡ "" → ⊥) × AreDigits ds))
unfolding digits_then_fbk
fbk_after rest h =
    let (ds, tail) = span_digits rest in
    let (here, whole) = span_digits-AreDigits rest in
    let (digits, fbk) = and-both (not (ds =? "")) (tail =? ".fbk") h in
    (
      ds,
      (
        whole ∙ ap (λ x. ds <> x) ((eq_iff tail ".fbk").0 fbk),
        (λ e. never (ds =? "") digits ((eq_iff ds "").1 e), here),
      ),
    )

pub IsSecurity-backup :
    (stem : String) → is_security_backup (stem <> ".fbk") ≡ true → IsSecurity stem
unfolding is_security_backup
IsSecurity-backup stem h = by (strip_prefix "security" (stem <> ".fbk")) refl h
  where
    by :
        (r : Option String)
        → strip_prefix "security" (stem <> ".fbk") ≡ r
        → elim r [ none ↦ false | some rest ↦ digits_then_fbk (span_digits rest) ] ≡ true
        → IsSecurity stem
    by none e h = cc
    by (some rest) e h =
        let (ds, (whole, more)) = fbk_after rest h in
        (
          ds,
          (
            append_cancel_right stem ("security" <> ds) ".fbk" (
                stripped "security" (stem <> ".fbk") rest e
                ∙ ap (λ x. "security" <> x) whole
                ∙ sym (append_assoc "security" ds ".fbk")),
            more,
          ),
        )
