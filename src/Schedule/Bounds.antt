-- ===== src/Schedule/Bounds.antt =====
-- The amounts that parseRetention answers fit an int of 64 bits.
use kubebird.Prelude.{
  ℕ, zero, suc, ◌-◌, ◌^◌, ◌<◌, ◌≤◌, ℤ, pos, neg, negsuc, String, ◌<>◌, ◌≡◌, refl, ap, ◌∙◌, Option,
  none, some, ◌==◌, Bool-cases, inl, inr, arith,
}
use Prim.Native.Char.{code}
use kubebird.Prelude.Text.{atoi, magnitude, signed, at_most, show}
use kubebird.Prelude.Text.Numbers.{atoi-show_over}
use kubebird.Schedule.Retention.{Letter, letter, meaning, parse_retention-read}
use kubebird.Schedule.{
  RetentionUnit, RetentionDuration, amount_of, with_unit, unit_of, split_last, parse_retention,
}

signed-pos :
    (m : Option ℕ) (n : ℕ) → signed pos (at_most (2 ^ 63 - 1) m) ≡ some (pos n) → n < 2 ^ 63
signed-pos none n h = cc
signed-pos (some k) n h = ground (arith, h)

signed-neg : (m : Option ℕ) (n : ℕ) → signed neg (at_most (2 ^ 63) m) ≡ some (pos n) → n < 2 ^ 63
signed-neg none n h = cc
signed-neg (some zero) n h = ground (arith, h)
signed-neg (some (suc k)) n h = ground (arith, h)

atoi-bound : (s : String) (n : ℕ) → atoi s ≡ some (pos n) → n < 2 ^ 63
unfolding atoi
atoi-bound String.[] n h = cc
atoi-bound (String.◌∷◌ c s) n h = elim (Bool-cases (code c == b'-')) [
  | inl m ↦ signed-neg (magnitude s) n (rw m at h)
  | inr m ↦ elim (Bool-cases (code c == b'+')) [
    | inl p ↦ signed-pos (magnitude s) n (rw (m, p) at h)
    | inr p ↦ signed-pos (magnitude (String.◌∷◌ c s)) n (rw (m, p) at h)
  ]
]

amount_of-bound :
    (unit : RetentionUnit) (r : Option ℤ) (d : RetentionDuration)
    → ((n : ℕ) → r ≡ some (pos n) → n < 2 ^ 63)
    → amount_of unit r ≡ some d
    → d.amount < 2 ^ 63
unfolding amount_of
amount_of-bound unit none d b h = cc
amount_of-bound unit (some (negsuc n)) d b h = cc
amount_of-bound unit (some (pos n)) d b h = ground (arith, h, b n refl)

with_unit-bound :
    (before : String) (unit : Option RetentionUnit) (d : RetentionDuration)
    → with_unit before unit ≡ some d
    → d.amount < 2 ^ 63
unfolding with_unit
with_unit-bound before none d h = cc
with_unit-bound before (some unit) d h = amount_of-bound unit (atoi before) d (atoi-bound before) h

parse_retention-bound :
    (text : String) (d : RetentionDuration) → parse_retention text ≡ some d → d.amount < 2 ^ 63
unfolding parse_retention
parse_retention-bound String.[] d h = ground (arith, h)
parse_retention-bound (String.◌∷◌ c s) d h =
    with_unit-bound (split_last c s).0 (unit_of (code (split_last c s).1)) d h

-- An amount that parseRetention reads off any text is below 2^63, and a number of 2^63 or more in
-- decimal digits before one of the letters h, d, w, m and y is an error.
pub parse_retention-in_range :
    ((text : String) (d : RetentionDuration) → parse_retention text ≡ some d → d.amount < 2 ^ 63)
    × ((n : ℕ) (u : Letter) → 2 ^ 63 ≤ n → parse_retention (show n <> letter u) ≡ none)
unfolding amount_of
parse_retention-in_range = (
  parse_retention-bound,
  λ n u h. parse_retention-read n u ∙ ap (amount_of (meaning u)) (atoi-show_over n h),
)
