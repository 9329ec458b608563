-- ===== src/Schedule.antt =====
-- Scheduled backups (internal/controller/instance_backup_schedule.go): the retention of each
-- frequency here, the script of a run in Schedule/Script.antt, the CronJobs in Schedule/Jobs.antt.
pub mod Script
pub mod Jobs
pub mod Retention
pub mod Bounds
use kubebird.Prelude.{
  ℕ, zero, suc, ℤ, pos, negsuc, String, ◌<>◌, Bool, true, false, ◌||◌, Option, none, some, List, [],
  ◌∷◌, ◌=?◌, ◌==◌, ltb, if◌then◌else◌,
}
use kubebird.Prelude.Text.{atoi, show}
use Prim.Native.Char.{Char, code}
use Prim.Native.String
use kubebird.Api.{Instance, RetentionSpec}

pub data Frequency : Type 0 where
  hour day week month year : Frequency

-- The `name`, `schedule` and `retention` fields of backupFrequency.
unfoldable pub frequency_name : Frequency → String
frequency_name hour = "hour"
frequency_name day = "day"
frequency_name week = "week"
frequency_name month = "month"
frequency_name year = "year"

unfoldable pub frequency_schedule : Frequency → String
frequency_schedule hour = "0 * * * *"
frequency_schedule day = "0 0 * * *"
frequency_schedule week = "0 0 * * 0"
frequency_schedule month = "0 0 1 * *"
frequency_schedule year = "0 0 1 1 *"

unfoldable pub frequency_value : Frequency → RetentionSpec → String
frequency_value hour r = r.hour
frequency_value day r = r.day
frequency_value week r = r.week
frequency_value month r = r.month
frequency_value year r = r.year

abbrev pub backup_frequencies : List Frequency
backup_frequencies = hour ∷ day ∷ week ∷ month ∷ year ∷ []

-- The units of a retention; `no_unit` is the zero byte of the zero value.
pub data RetentionUnit : Type 0 where
  no_unit hours days weeks months years : RetentionUnit

pub record RetentionDuration : Type 0 where
  pub amount : ℕ
  pub unit : RetentionUnit

abbrev pub disabled : RetentionDuration
disabled = record { amount = 0; unit = no_unit }

-- The text less its last character, and that character.
unfoldable pub split_last : Char → String → String × Char
split_last c String.[] = (String.[], c)
split_last c (String.◌∷◌ d s) = let (before, last) = split_last d s in (String.◌∷◌ c before, last)

-- strings.ContainsRune("hdwmy", unit), with the unit that it stands for.
unfoldable pub unit_of : ℕ → Option RetentionUnit
unit_of c =
    if c == b'h'
    then some hours
    else if c == b'd'
    then some days
    else if c == b'w'
    then some weeks
    else if c == b'm'
    then some months
    else if c == b'y'
    then some years
    else none

unfoldable pub amount_of : RetentionUnit → Option ℤ → Option RetentionDuration
amount_of unit (some (pos n)) = some (record { amount = n; unit = unit })
amount_of unit _ = none

unfoldable pub with_unit : String → Option RetentionUnit → Option RetentionDuration
unfolding atoi amount_of
with_unit before none = none
with_unit before (some unit) = amount_of unit (atoi before)

-- parseRetention; `none` is its error. The last byte is a unit just when the last character is.
unfoldable pub parse_retention : String → Option RetentionDuration
unfolding split_last unit_of with_unit
parse_retention String.[] = some disabled
parse_retention (String.◌∷◌ c s) =
    let (before, last) = split_last c s in with_unit before (unit_of (code last))

-- retentionDuration.enabled
abbrev pub is_enabled : RetentionDuration → Bool
is_enabled d = ltb 0 d.amount

unfoldable pub unit_text : RetentionUnit → String
unit_text no_unit = ""
unit_text hours = "hours"
unit_text days = "days"
unit_text weeks = "weeks"
unit_text months = "months"
unit_text years = "years"

unfoldable pub date_ago : RetentionDuration → String
unfolding unit_text show
date_ago d = show d.amount <> (" " <> (unit_text d.unit <> " ago"))

abbrev or_disabled : Option RetentionDuration → RetentionDuration
or_disabled none = disabled
or_disabled (some d) = d

unfoldable pub frequency_retention : Instance → Frequency → RetentionDuration
unfolding parse_retention frequency_value
frequency_retention i freq =
    or_disabled (parse_retention (frequency_value freq i.spec.backup.retention))
