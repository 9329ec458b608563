-- ===== src/Prelude/Text.antt =====
-- What the program uses of Go's strings, strconv and path packages, over native texts.
pub mod Laws
pub mod Numbers
pub mod Sorting
pub mod Affixes
pub mod Words
use Prim.Native.Nat.{Ordering, ℕ, zero, suc, ◌+◌, ◌-◌, ◌*◌, ◌/◌, ◌%◌, ◌^◌}
use Prim.Native.Char.{Char, code}
use Prim.Native.String.{String, [], ◌∷◌, ◌++◌}
use mathlib.Core.Bool.{Bool, true, false, ◌&&◌, ◌||◌}
use mathlib.Core.Option.{Option, none, some}
use Prim.Native.String
use mathlib.Core.List
use mathlib.Core.List.{List}
use text.Mathlib.Text.{◌==◌ as ◌=?◌}
use kubebird.Prelude.Tests.{ltb, leb, ◌==◌, if◌then◌else◌}
use kubebird.Prelude.Int.{ℤ, pos, neg}

-- strings.Cut(s, sep) for a separator of one character: what stands before its first occurrence,
-- or all of `s` where there is none.
unfoldable pub cut_before : ℕ → String → String
cut_before sep [] = []
cut_before sep (c ∷ s) = if code c == sep then [] else c ∷ cut_before sep s

-- strings.TrimSuffix(s, suffix)
unfoldable pub trim_suffix : String → String → String
trim_suffix suffix [] = []
trim_suffix suffix (c ∷ s) = if (c ∷ s) =? suffix then [] else c ∷ trim_suffix suffix s

-- strings.HasSuffix(s, suffix)
unfoldable pub has_suffix : String → String → Bool
has_suffix suffix [] = [] =? suffix
has_suffix suffix (c ∷ s) = (c ∷ s) =? suffix || has_suffix suffix s

abbrev pub is_digit : Char → Bool
is_digit c = leb 48 (code c) && leb (code c) 57

-- The value of a run of digits after those that gave `n`; `none` at any other character.
unfoldable pub digits_value : ℕ → String → Option ℕ
digits_value n [] = some n
digits_value n (c ∷ s) = if is_digit c then digits_value (n * 10 + (code c - 48)) s else none

-- A run of one digit or more.
unfoldable pub magnitude : String → Option ℕ
unfolding digits_value
magnitude [] = none
magnitude (c ∷ s) = digits_value 0 (c ∷ s)

abbrev pub at_most : ℕ → Option ℕ → Option ℕ
at_most limit none = none
at_most limit (some n) = if leb n limit then some n else none

abbrev pub signed : (ℕ → ℤ) → Option ℕ → Option ℤ
signed f none = none
signed f (some n) = some (f n)

-- strconv.Atoi(s), whose int has 64 bits; `none` is its error.
unfoldable pub atoi : String → Option ℤ
unfolding magnitude
atoi [] = none
atoi (c ∷ s) =
    if code c == b'-'
    then signed neg (at_most (2 ^ 63) (magnitude s))
    else if code c == b'+'
    then signed pos (at_most (2 ^ 63 - 1) (magnitude s))
    else signed pos (at_most (2 ^ 63 - 1) (magnitude (c ∷ s)))

abbrev pub digit_text : ℕ → String
digit_text zero = "0"
digit_text (suc zero) = "1"
digit_text (suc (suc zero)) = "2"
digit_text (suc (suc (suc zero))) = "3"
digit_text (suc (suc (suc (suc zero)))) = "4"
digit_text (suc (suc (suc (suc (suc zero))))) = "5"
digit_text (suc (suc (suc (suc (suc (suc zero)))))) = "6"
digit_text (suc (suc (suc (suc (suc (suc (suc zero))))))) = "7"
digit_text (suc (suc (suc (suc (suc (suc (suc (suc zero)))))))) = "8"
digit_text _ = "9"

-- The digits of `n` in front of `acc`; `n` rounds are enough, since each divides `n` by ten.
unfoldable pub show_from : ℕ → ℕ → String → String
show_from zero n acc = acc
show_from (suc fuel) n acc =
    let rest = show_from fuel (n / 10) (digit_text (n % 10) ++ acc) in
    if n / 10 == 0 then digit_text (n % 10) ++ acc else rest

-- %d of a number that is not negative
unfoldable pub show : ℕ → String
unfolding show_from
show n = show_from (suc n) n []

-- The parts of a path between its slashes.
abbrev push_char : Char → List String → List String
push_char c List.[] = List.◌∷◌ (c ∷ []) List.[]
push_char c (List.◌∷◌ part parts) = List.◌∷◌ (c ∷ part) parts

unfoldable pub path_parts : String → List String
path_parts [] = List.◌∷◌ [] List.[]
path_parts (c ∷ s) =
    let rest = path_parts s in if code c == b'/' then List.◌∷◌ [] rest else push_char c rest

abbrev drop_last : List String → List String
drop_last List.[] = List.[]
drop_last (List.◌∷◌ p ps) = ps

-- path.Clean of a rooted path, part by part; `kept` holds the parts kept so far, the last one first.
-- An empty part and "." are dropped, ".." drops the part before it.
unfoldable pub clean_parts : List String → List String → List String
clean_parts List.[] kept = kept
clean_parts (List.◌∷◌ p ps) kept =
    clean_parts ps
      (if p =? "" || p =? "." then kept else if p =? ".." then drop_last kept else List.◌∷◌ p kept)

-- The parts, the last one first, as a rooted path.
unfoldable pub rooted : List String → String
rooted List.[] = "/"
rooted (List.◌∷◌ p List.[]) = "/" ++ p
rooted (List.◌∷◌ p (List.◌∷◌ q qs)) = rooted (List.◌∷◌ q qs) ++ ("/" ++ p)

-- path.Join(dir, name) where `dir` is rooted, as each of the program's is.
unfoldable pub path_join : String → String → String
unfolding path_parts clean_parts rooted
path_join dir name = rooted (clean_parts (path_parts (dir ++ ("/" ++ name))) List.[])

abbrev hex_digit : ℕ → String
hex_digit n =
    if ltb n 10
    then digit_text n
    else (if n == 10
        then "a"
        else if n == 11
        then "b"
        else if n == 12
        then "c"
        else if n == 13
        then "d"
        else if n == 14
        then "e"
        else "f")

-- One character inside strconv.Quote.
unfoldable pub quote_char : Char → String
quote_char c =
    if code c == 34
    then "\\\""
    else if code c == 92
    then "\\\\"
    else if code c == 7
    then "\\a"
    else if code c == 8
    then "\\b"
    else if code c == 12
    then "\\f"
    else if code c == 10
    then "\\n"
    else if code c == 13
    then "\\r"
    else if code c == 9
    then "\\t"
    else if code c == 11
    then "\\v"
    else if ltb (code c) 32 || code c == 127
    then "\\x" ++ (hex_digit (code c / 16) ++ hex_digit (code c % 16))
    else c ∷ []

unfoldable pub quote_chars : String → String
unfolding quote_char
quote_chars [] = []
quote_chars (c ∷ s) = quote_char c ++ quote_chars s

-- %q of a text, strconv.Quote. Characters outside ASCII are taken to be printable, as they are.
unfoldable pub quote : String → String
unfolding quote_chars
quote s = "\"" ++ (quote_chars s ++ "\"")

-- strings.Join(parts, ", ")
unfoldable pub join_comma : List String → String
join_comma List.[] = ""
join_comma (List.◌∷◌ p List.[]) = p
join_comma (List.◌∷◌ p (List.◌∷◌ q qs)) = p ++ (", " ++ join_comma (List.◌∷◌ q qs))

-- What follows a prefix, where the text has it.
unfoldable pub strip_prefix : String → String → Option String
strip_prefix [] s = some s
strip_prefix (p ∷ ps) [] = none
strip_prefix (p ∷ ps) (c ∷ s) = if code c == code p then strip_prefix ps s else none

-- unicode.IsSpace
unfoldable pub is_space : ℕ → Bool
is_space c =
    leb 9 c && leb c 13
    || c == 32
    || c == 0x85
    || c == 0xa0
    || c == 0x1680
    || leb 0x2000 c && leb c 0x200a
    || c == 0x2028
    || c == 0x2029
    || c == 0x202f
    || c == 0x205f
    || c == 0x3000

abbrev unless_empty : String → List String → List String
unless_empty [] words = words
unless_empty (c ∷ w) words = List.◌∷◌ (c ∷ w) words

-- The word that a text begins with, which may be empty, and the words after it.
first_word : String → String × List String
first_word [] = ([], List.[])
first_word (c ∷ s) =
    let (word, words) = first_word s in
    if is_space (code c) then ([], unless_empty word words) else (c ∷ word, words)

-- strings.Fields(s)
unfoldable pub fields : String → List String
unfolding first_word is_space
fields s = let (word, words) = first_word s in unless_empty word words

-- strings.Split(s, sep) for a separator of one character.
unfoldable pub split_on : ℕ → String → List String
split_on sep [] = List.◌∷◌ [] List.[]
split_on sep (c ∷ s) =
    let parts = split_on sep s in if code c == sep then List.◌∷◌ [] parts else push_char c parts

trim_start : String → String
trim_start [] = []
trim_start (c ∷ s) = if is_space (code c) then trim_start s else c ∷ s

trim_end : String → String
trim_end [] = []
trim_end (c ∷ s) = let rest = trim_end s in if is_space (code c) && rest =? [] then [] else c ∷ rest

-- strings.TrimSpace(s)
unfoldable pub trim_space : String → String
unfolding trim_start trim_end is_space
trim_space s = trim_end (trim_start s)

-- s <= t, by the bytes of their UTF-8
abbrev pub text_le : String → String → Bool
text_le s t = elim (String.compare s t) [ Ordering.gt ↦ false | _ ↦ true ]

unfoldable pub insert_sorted : String → List String → List String
insert_sorted s List.[] = List.◌∷◌ s List.[]
insert_sorted s (List.◌∷◌ t ts) =
    if text_le s t then List.◌∷◌ s (List.◌∷◌ t ts) else List.◌∷◌ t (insert_sorted s ts)

-- slices.Sort(texts)
unfoldable pub sort : List String → List String
unfolding insert_sorted
sort List.[] = List.[]
sort (List.◌∷◌ s ss) = insert_sorted s (sort ss)

-- m[s] of a map[string]bool whose true keys are these
unfoldable pub contains : List String → String → Bool
contains List.[] s = false
contains (List.◌∷◌ t ts) s = t =? s || contains ts s
