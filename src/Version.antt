-- ===== src/Version.antt =====
-- Firebird versions: what is read off a version text, off a StatefulSet and off the server
-- (internal/controller/instance_version.go, instance_upgrade.go, instance_backup_schedule.go).
pub mod Tags
use kubebird.Prelude.{
  ℕ, suc, ℤ, pos, negsuc, String, ◌<>◌, Bool, true, false, Option, none, some, List, [], ◌∷◌, ◌=?◌,
  if◌then◌else◌, leb, ◌==◌,
}
use Prim.Native.Char.{code}
use kubebird.Prelude.Text.{cut_before, atoi, is_digit}
use kubebird.Api.{Instance}
use kubebird.Naming.{container_name}
use kubebird.Kube.Objects.{Container, StatefulSet}

abbrev positive : Option ℤ → Option ℕ
positive (some (pos (suc n))) = some (suc n)
positive _ = none

-- firebirdMajorVersion; `none` is its second result, false.
unfoldable pub firebird_major_version : String → Option ℕ
unfolding cut_before atoi
firebird_major_version version = positive (atoi (cut_before b'-' (cut_before b'.' version)))

-- What stands behind the last ':' of a text, where there is one.
unfoldable pub after_last_colon : String → Option String
after_last_colon String.[] = none
after_last_colon (String.◌∷◌ c s) = elim (after_last_colon s) [
  | some rest ↦ some rest
  | none ↦ if code c == b':' then some s else none
]

unfoldable pub contains_slash : String → Bool
contains_slash String.[] = false
contains_slash (String.◌∷◌ c s) = if code c == b'/' then true else contains_slash s

abbrev tag_of : Option String → String
tag_of none = ""
tag_of (some tag) = if contains_slash tag then "" else tag

-- The image tag of the firebird container.
unfoldable pub running_version : List Container → String
unfolding after_last_colon contains_slash
running_version [] = ""
running_version (c ∷ cs) =
    if c.name =? container_name then tag_of (after_last_colon c.image) else running_version cs

unfoldable pub stateful_set_firebird_version : StatefulSet → String
unfolding running_version
stateful_set_firebird_version sts = running_version sts.containers

-- [0-9]+, as long as it goes: the digits, and what follows them.
unfoldable pub span_digits : String → String × String
span_digits String.[] = (String.[], String.[])
span_digits (String.◌∷◌ c s) =
    let (ds, rest) = span_digits s in
    if is_digit c then (String.◌∷◌ c ds, rest) else (String.[], String.◌∷◌ c s)

-- [0-9]+\. : the digits with the dot, and what follows.
dotted : String × String → Option (String × String)
dotted (String.[], rest) = none
dotted (ds, String.[]) = none
dotted (ds, String.◌∷◌ c rest) = if code c == b'.' then some (ds <> ".", rest) else none

last_number : String → String × String → Option String
last_number before (String.[], rest) = none
last_number before (ds, rest) = some (before <> ds)

-- [0-9]+\.[0-9]+\.[0-9]+ at the start of the text. A number ends where no digit follows, so taking
-- as many digits as there are loses no match.
version_at : String → Option String
unfolding span_digits dotted last_number
version_at s = elim (dotted (span_digits s)) [
  | none ↦ none
  | some (major, s') ↦ elim (dotted (span_digits s')) [
    | none ↦ none
    | some (minor, s'') ↦ last_number (major <> minor) (span_digits s'')
  ]
]

after_dash_v : String → Option String
unfolding version_at
after_dash_v (String.◌∷◌ c s) = if code c == b'V' then version_at s else none
after_dash_v String.[] = none

-- parseServerVersion: the group of the first match of -V([0-9]+\.[0-9]+\.[0-9]+).
unfoldable pub parse_server_version : String → Option String
unfolding after_dash_v
parse_server_version String.[] = none
parse_server_version (String.◌∷◌ c s) =
    let rest = parse_server_version s in
    if code c == b'-' then elim (after_dash_v s) [ some v ↦ some v | none ↦ rest ] else rest

-- canCleanBackupHistory
unfoldable pub can_clean_backup_history : Instance → Bool
unfolding cut_before atoi
can_clean_backup_history i = elim (atoi (cut_before b'.' i.status.firebird_version)) [
  | none ↦ false
  | some (pos n) ↦ leb 4 n
  | some (negsuc n) ↦ false
]
