-- ===== src/Prelude/Text/Numbers.antt =====
-- strconv.Atoi of what %d prints.
use Prim.Native.Nat.{ℕ, zero, suc, ◌+◌, ◌-◌, ◌*◌, ◌/◌, ◌%◌, ◌^◌, ◌<◌, ◌≤◌}
use Prim.Native.Char.{Char, code}
use Prim.Native.String.{String, [], ◌∷◌, ◌++◌}
use mathlib.Core.Path.{◌≡◌, refl, sym, ap, ◌∙◌}
use mathlib.Core.Logic.{inl, inr}
use mathlib.Core.Bool.{true, false}
use mathlib.Core.Option.{some, none}
use native.Mathlib.Omega.{arith}
use text.Mathlib.TextLemmas.{cons-append, nil-append}
use kubebird.Prelude.Tests.{leb, ◌==◌, if◌then◌else◌, Bool-cases, and-both}
use kubebird.Prelude.Int.{pos}
use kubebird.Prelude.Text.{
  is_digit, digits_value, magnitude, atoi, digit_text, show_from, show, signed,
}

pub one-append : (c : Char) (acc : String) → (c ∷ []) ++ acc ≡ c ∷ acc
one-append c acc = cons-append c [] acc ∙ ap (λ s. c ∷ s) (nil-append acc)

-- A digit is read as one.
digits_value-digit :
    (d k : ℕ) (acc : String)
    → d < 10
    → digits_value k (digit_text d ++ acc) ≡ digits_value (k * 10 + d) acc
unfolding digits_value
digits_value-digit zero k acc h = rw (one-append _ acc) refl
digits_value-digit (suc zero) k acc h = rw (one-append _ acc) refl
digits_value-digit (suc (suc zero)) k acc h = rw (one-append _ acc) refl
digits_value-digit (suc (suc (suc zero))) k acc h = rw (one-append _ acc) refl
digits_value-digit (suc (suc (suc (suc zero)))) k acc h = rw (one-append _ acc) refl
digits_value-digit (suc (suc (suc (suc (suc zero))))) k acc h = rw (one-append _ acc) refl
digits_value-digit (suc (suc (suc (suc (suc (suc zero)))))) k acc h = rw (one-append _ acc) refl
digits_value-digit (suc (suc (suc (suc (suc (suc (suc zero))))))) k acc h =
    rw (one-append _ acc) refl
digits_value-digit (suc (suc (suc (suc (suc (suc (suc (suc zero)))))))) k acc h =
    rw (one-append _ acc) refl
digits_value-digit (suc (suc (suc (suc (suc (suc (suc (suc (suc zero))))))))) k acc h =
    rw (one-append _ acc) refl
digits_value-digit (suc (suc (suc (suc (suc (suc (suc (suc (suc (suc d)))))))))) k acc h =
    absurd (omega arith)

digits_value-show_from :
    (fuel n : ℕ) (acc : String)
    → n < fuel
    → digits_value 0 (show_from fuel n acc) ≡ digits_value n acc
unfolding show_from
digits_value-show_from zero n acc h = absurd (omega arith)
digits_value-show_from (suc fuel) n acc h = elim (Bool-cases (n / 10 == 0)) [
  | inl z ↦ rw z (
      digits_value-digit (n % 10) 0 acc (omega arith)
      ∙ ap (λ k. digits_value k acc) (last n (ground (arith, z))))
  | inr z ↦ rw z (
      digits_value-show_from fuel (n / 10) (digit_text (n % 10) ++ acc) (shorter n fuel z h)
      ∙ digits_value-digit (n % 10) (n / 10) acc (omega arith)
      ∙ ap (λ k. digits_value k acc) (rejoined n))
]
  where
    last : (n : ℕ) → n / 10 ≡ 0 → 0 * 10 + n % 10 ≡ n
    last n h = omega (arith, h)

    rejoined : (n : ℕ) → n / 10 * 10 + n % 10 ≡ n
    rejoined n = omega arith

    shorter : (n fuel : ℕ) → (n / 10 == 0) ≡ false → n < suc fuel → n / 10 < fuel
    shorter n fuel z h = ground (arith, z, h)

-- The text begins with a digit.
abbrev Starts : String → Type 0
Starts t = (c : Char) × (s : String) × (t ≡ c ∷ s) × (is_digit c ≡ true)

digit_text-Starts : (d : ℕ) (acc : String) → Starts (digit_text d ++ acc)
digit_text-Starts zero acc = (_, _, one-append _ acc, refl)
digit_text-Starts (suc zero) acc = (_, _, one-append _ acc, refl)
digit_text-Starts (suc (suc zero)) acc = (_, _, one-append _ acc, refl)
digit_text-Starts (suc (suc (suc zero))) acc = (_, _, one-append _ acc, refl)
digit_text-Starts (suc (suc (suc (suc zero)))) acc = (_, _, one-append _ acc, refl)
digit_text-Starts (suc (suc (suc (suc (suc zero))))) acc = (_, _, one-append _ acc, refl)
digit_text-Starts (suc (suc (suc (suc (suc (suc zero)))))) acc = (_, _, one-append _ acc, refl)
digit_text-Starts (suc (suc (suc (suc (suc (suc (suc zero))))))) acc =
    (_, _, one-append _ acc, refl)
digit_text-Starts (suc (suc (suc (suc (suc (suc (suc (suc zero)))))))) acc =
    (_, _, one-append _ acc, refl)
digit_text-Starts (suc (suc (suc (suc (suc (suc (suc (suc (suc d))))))))) acc =
    (_, _, one-append _ acc, refl)

show_from-Starts : (fuel n : ℕ) (acc : String) → Starts acc → Starts (show_from fuel n acc)
unfolding show_from
show_from-Starts zero n acc h = h
show_from-Starts (suc fuel) n acc h = elim (Bool-cases (n / 10 == 0)) [
  | inl z ↦ rw z (digit_text-Starts (n % 10) acc)
  | inr z ↦
      rw z (
        show_from-Starts fuel (n / 10) (digit_text (n % 10) ++ acc)
          (digit_text-Starts (n % 10) acc))
]

pub show-Starts : (n : ℕ) → Starts (show n)
unfolding show show_from
show-Starts n = elim (Bool-cases (n / 10 == 0)) [
  | inl z ↦ rw z (digit_text-Starts (n % 10) [])
  | inr z ↦
      rw z (show_from-Starts n (n / 10) (digit_text (n % 10) ++ []) (digit_text-Starts (n % 10) []))
]

pub digits_value-show : (n : ℕ) → digits_value 0 (show n) ≡ some n
unfolding show digits_value
digits_value-show n = digits_value-show_from (suc n) n [] (omega arith)

-- Digits are read without a sign, and kept if an int holds their value.
atoi_digits :
    (c : Char) (s : String) (n : ℕ)
    → is_digit c ≡ true
    → digits_value 0 (c ∷ s) ≡ some n
    → atoi (c ∷ s) ≡ signed pos (if leb n (2 ^ 63 - 1) then some n else none)
unfolding atoi magnitude
atoi_digits c s n d v =
    let (low, high) = and-both (leb 48 (code c)) (leb (code c) 57) d in
    rw (unsigned (code c) 45 low refl, unsigned (code c) 43 low refl, v) refl
  where
    unsigned : (k sign : ℕ) → leb 48 k ≡ true → leb 48 sign ≡ false → (k == sign) ≡ false
    unsigned k sign low h = ground (arith, low, h)

atoi-show_any : (n : ℕ) → atoi (show n) ≡ signed pos (if leb n (2 ^ 63 - 1) then some n else none)
atoi-show_any n =
    let (c, s, e, d) = show-Starts n in
    ap atoi e ∙ atoi_digits c s n d (ap (digits_value 0) (sym e) ∙ digits_value-show n)

-- strconv.Atoi(fmt.Sprintf("%d", n)) is n, for an n that an int holds.
pub atoi-show : (n : ℕ) → n < 2 ^ 63 → atoi (show n) ≡ some (pos n)
atoi-show n h = atoi-show_any n ∙ ap (λ b. signed pos (if b then some n else none)) (fits n h)
  where
    fits : (n : ℕ) → n < 2 ^ 63 → leb n (2 ^ 63 - 1) ≡ true
    fits n h = ground (arith, h)

-- It is an error for an n that an int does not hold.
pub atoi-show_over : (n : ℕ) → 2 ^ 63 ≤ n → atoi (show n) ≡ none
atoi-show_over n h =
    atoi-show_any n ∙ ap (λ b. signed pos (if b then some n else none)) (exceeds n h)
  where
    exceeds : (n : ℕ) → 2 ^ 63 ≤ n → leb n (2 ^ 63 - 1) ≡ false
    exceeds n h = ground (arith, h)
