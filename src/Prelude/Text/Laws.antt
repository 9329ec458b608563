-- ===== src/Prelude/Text/Laws.antt =====
-- Tests of the text functions.
use kubebird.Prelude.Text.{cut_before, trim_suffix, has_suffix, atoi, show, path_join, quote}
use mathlib.Core.Path.{◌≡◌, refl}
use mathlib.Core.Option.{none, some}
use mathlib.Core.Bool.{true}
use kubebird.Prelude.Int.{pos, negsuc}

abbrev JoinTests : Type 0
JoinTests =
    (path_join "/var/lib" "a.fdb" ≡ "/var/lib/a.fdb")
    × (path_join "/var/lib" "../a/./b" ≡ "/var/a/b")
    × (path_join "/var/lib" "" ≡ "/var/lib")

join_ok : JoinTests
unfolding path_join
join_ok = (refl, refl, refl)

show_ok : (show 0 ≡ "0") × (show 3050 ≡ "3050") × (show 10 ≡ "10")
unfolding show
show_ok = (refl, refl, refl)

atoi_ok :
    (atoi "12" ≡ some (pos 12))
    × (atoi "-7" ≡ some (negsuc 6))
    × (atoi "1a" ≡ none)
    × (atoi "" ≡ none)
    × (atoi "9223372036854775808" ≡ none)
unfolding atoi
atoi_ok = (refl, refl, refl, refl, refl)

trim_ok :
    (trim_suffix ".fdb" "a.fdb" ≡ "a")
    × (trim_suffix ".fdb" "a.fbk" ≡ "a.fbk")
    × (has_suffix ".fbk" "x.fbk" ≡ true)
    × (cut_before b'.' "3.0.14" ≡ "3")
unfolding trim_suffix has_suffix cut_before
trim_ok = (refl, refl, refl, refl)

quote_ok : quote "a\"b\\\n" ≡ "\"a\\\"b\\\\\\n\""
unfolding quote
quote_ok = refl
