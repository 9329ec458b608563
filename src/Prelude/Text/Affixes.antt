-- ===== src/Prelude/Text/Affixes.antt =====
-- What a text is that begins or ends in another one.
use Prim.Native.Char.{Char, code}
use text.Mathlib.TextEquality.{Char-path}
use text.Mathlib.TextLemmas.{nil-append, cons-append}
use mathlib.Core.Option.{some-injective}
use kubebird.Prelude.{
  ℕ, String, ◌<>◌, Bool, true, false, ◌≡◌, refl, sym, ap, ◌∙◌, Option, none, some, ◌=?◌, ◌==◌, ◌||◌,
  eq_iff, eq_refl, Bool-cases, inl, inr, arith,
}
use kubebird.Prelude.Text.{has_suffix, strip_prefix}

pub has_suffix-append : (t s : String) → has_suffix t (s <> t) ≡ true
unfolding has_suffix
has_suffix-append t String.[] = ap (has_suffix t) (nil-append t) ∙ whole t
  where
    whole : (t : String) → has_suffix t t ≡ true
    whole String.[] = eq_refl String.[]
    whole (String.◌∷◌ c t) = rw (eq_refl (String.◌∷◌ c t)) refl
has_suffix-append t (String.◌∷◌ c s) =
    ap (has_suffix t) (cons-append c s t)
    ∙ rw (has_suffix-append t s) (or_true (String.◌∷◌ c (s <> t) =? t))
  where
    or_true : (b : Bool) → (b || true) ≡ true
    or_true true = refl
    or_true false = refl

pub stem_of : (t s : String) → has_suffix t s ≡ true → (stem : String) × (s ≡ stem <> t)
unfolding has_suffix
stem_of t String.[] h = (String.[], (eq_iff String.[] t).0 h ∙ sym (nil-append t))
stem_of t (String.◌∷◌ c s) h = elim (Bool-cases (String.◌∷◌ c s =? t)) [
  | inl e ↦ (String.[], (eq_iff _ t).0 e ∙ sym (nil-append t))
  | inr e ↦
      let (stem, k) = stem_of t s (rw e at h) in
      (String.◌∷◌ c stem, ap (λ r. String.◌∷◌ c r) k ∙ sym (cons-append c stem t))
]

same_code : (c d : Char) → (code c == code d) ≡ true → c ≡ d
same_code c d h = Char-path c d (ground (arith, h))

code_refl : (n : ℕ) → (n == n) ≡ true
code_refl n = ground arith

pub strip_prefix-append : (p s : String) → strip_prefix p (p <> s) ≡ some s
unfolding strip_prefix
strip_prefix-append String.[] s = ap some (nil-append s)
strip_prefix-append (String.◌∷◌ c p) s =
    ap (strip_prefix (String.◌∷◌ c p)) (cons-append c p s)
    ∙ rw (code_refl (code c)) (strip_prefix-append p s)

pub stripped : (p s r : String) → strip_prefix p s ≡ some r → s ≡ p <> r
unfolding strip_prefix
stripped String.[] s r h = some-injective s r h ∙ sym (nil-append r)
stripped (String.◌∷◌ c p) String.[] r h = cc
stripped (String.◌∷◌ c p) (String.◌∷◌ d s) r h = elim (Bool-cases (code d == code c)) [
  | inl e ↦ rw (same_code d c e, stripped p s r (rw e at h)) (sym (cons-append c p r))
  | inr e ↦ absurd (stuck (rw e at h))
]
  where
    stuck : ◌≡◌ {A = Option String} none (some r) → ⊥
    stuck e = cc
