-- ===== src/Schedule/Retention.antt =====
-- The text that a user writes for a retention.
use kubebird.Prelude.{ℕ, String, ◌<>◌, ◌≡◌, refl, sym, ap, ◌∙◌, some, ◌<◌, ◌^◌}
use kubebird.Prelude.Text.{atoi, show}
use kubebird.Prelude.Text.Numbers.{atoi-show, show-Starts}
use Prim.Native.Char.{Char, code}
use text.Mathlib.TextLemmas.{cons-append, nil-append}
use kubebird.Schedule.{
  RetentionUnit, hours, days, weeks, months, years, split_last, unit_of, amount_of, with_unit,
  parse_retention,
}

-- The letter of each unit of a retention.
pub data Letter : Type 0 where
  in_hours in_days in_weeks in_months in_years : Letter

abbrev pub letter : Letter → String
letter in_hours = "h"
letter in_days = "d"
letter in_weeks = "w"
letter in_months = "m"
letter in_years = "y"

abbrev pub meaning : Letter → RetentionUnit
meaning in_hours = hours
meaning in_days = days
meaning in_weeks = weeks
meaning in_months = months
meaning in_years = years

split_last-append :
    (c u : Char) (s : String) → split_last c (s <> (String.◌∷◌ u String.[])) ≡ (String.◌∷◌ c s, u)
unfolding split_last
split_last-append c u String.[] = rw (nil-append (String.◌∷◌ u String.[])) refl
split_last-append c u (String.◌∷◌ d s) =
    rw (cons-append d s (String.◌∷◌ u String.[]), split_last-append d u s) refl

parse_retention-letter :
    (t : String) (c u : Char) (s : String) (unit : RetentionUnit)
    → t ≡ String.◌∷◌ c s
    → unit_of (code u) ≡ some unit
    → parse_retention (t <> String.◌∷◌ u String.[]) ≡ amount_of unit (atoi t)
unfolding parse_retention with_unit
parse_retention-letter t c u s unit e w =
    ap parse_retention
      (ap (λ x. x <> String.◌∷◌ u String.[]) e ∙ cons-append c s (String.◌∷◌ u String.[]))
    ∙ ap (λ (p : String × Char). with_unit p.0 (unit_of (code p.1))) (split_last-append c u s)
    ∙ ap (with_unit (String.◌∷◌ c s)) w
    ∙ ap (λ x. amount_of unit (atoi x)) (sym e)

pub parse_retention-read :
    (n : ℕ) (u : Letter)
    → parse_retention (show n <> letter u) ≡ amount_of (meaning u) (atoi (show n))
unfolding unit_of
parse_retention-read n in_hours =
    let (c, s, e, d) = show-Starts n in parse_retention-letter (show n) c _ s hours e refl
parse_retention-read n in_days =
    let (c, s, e, d) = show-Starts n in parse_retention-letter (show n) c _ s days e refl
parse_retention-read n in_weeks =
    let (c, s, e, d) = show-Starts n in parse_retention-letter (show n) c _ s weeks e refl
parse_retention-read n in_months =
    let (c, s, e, d) = show-Starts n in parse_retention-letter (show n) c _ s months e refl
parse_retention-read n in_years =
    let (c, s, e, d) = show-Starts n in parse_retention-letter (show n) c _ s years e refl

-- A number below 2^63 in decimal digits before one of the letters h, d, w, m and y is read by
-- parseRetention as so many hours, days, weeks, months or years.
pub parse_retention-show :
    (n : ℕ) (u : Letter)
    → n < 2 ^ 63
    → parse_retention (show n <> letter u) ≡ some (record { amount = n; unit = meaning u })
unfolding amount_of
parse_retention-show n u h = parse_retention-read n u ∙ ap (amount_of (meaning u)) (atoi-show n h)
