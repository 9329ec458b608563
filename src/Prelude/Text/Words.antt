-- ===== src/Prelude/Text/Words.antt =====
-- strings.Split and strings.TrimSpace on words that hold neither the separator nor white space, and
-- lists of texts.
use Prim.Native.Nat.{ℕ}
use Prim.Native.Char.{Char, code}
use Prim.Native.String.{String, [], ◌∷◌, ◌++◌}
use mathlib.Core.Path.{◌≡◌, refl, ap, ◌∙◌}
use mathlib.Core.Bool.{Bool, true, false, not, ◌&&◌, ◌||◌}
use mathlib.Core.List
use mathlib.Core.List.{List}
use native.Mathlib.Omega.{arith}
use text.Mathlib.TextLemmas.{cons-append, nil-append}
use kubebird.Prelude.Tests.{◌==◌, and-both}
use kubebird.Prelude.Text.{is_space, split_on, trim_space, trim_start, trim_end, contains}

-- No character is white space or the separator.
unfoldable pub is_word : ℕ → String → Bool
unfolding is_space
is_word sep [] = true
is_word sep (c ∷ s) = not (code c == sep) && (not (is_space (code c)) && is_word sep s)

negated : (b : Bool) → not b ≡ true → b ≡ false
negated true h = cc
negated false h = refl

module _ (sep : ℕ) (c : Char) (w : String) (h : is_word sep (c ∷ w) ≡ true) where
  other : (code c == sep) ≡ false
  unfolding is_word
  other = negated _ (and-both _ _ h).0

  solid : is_space (code c) ≡ false
  unfolding is_word
  solid = negated _ (and-both _ _ (and-both _ _ h).1).0

  tail : is_word sep w ≡ true
  unfolding is_word
  tail = (and-both _ _ (and-both _ _ h).1).1

pub split_on-word :
    (sep : ℕ) (w : String) → is_word sep w ≡ true → split_on sep w ≡ List.◌∷◌ w List.[]
unfolding split_on
split_on-word sep [] h = refl
split_on-word sep (c ∷ w) h = rw (other sep c w h, split_on-word sep w (tail sep c w h)) refl

pub split_on-word_then :
    (sep : ℕ) (c : Char) (w rest : String)
    → (code c == sep) ≡ true
    → is_word sep w ≡ true
    → split_on sep (w ++ (c ∷ rest)) ≡ List.◌∷◌ w (split_on sep rest)
unfolding split_on
split_on-word_then sep c [] rest e h = ap (split_on sep) (nil-append (c ∷ rest)) ∙ rw e refl
split_on-word_then sep c (d ∷ w) rest e h =
    ap (split_on sep) (cons-append d w (c ∷ rest))
    ∙ rw (other sep d w h, split_on-word_then sep c w rest e (tail sep d w h)) refl

trim_end-word : (sep : ℕ) (w : String) → is_word sep w ≡ true → trim_end w ≡ w
unfolding trim_end
trim_end-word sep [] h = refl
trim_end-word sep (c ∷ w) h = rw (solid sep c w h, trim_end-word sep w (tail sep c w h)) refl

pub trim_space-word : (sep : ℕ) (w : String) → is_word sep w ≡ true → trim_space w ≡ w
unfolding trim_space trim_start
trim_space-word sep [] h = trim_end-word sep [] h
trim_space-word sep (c ∷ w) h = rw (solid sep c w h) (trim_end-word sep (c ∷ w) h)

pub contains-append :
    (xs ys : List String) (x : String)
    → contains (List.◌++◌ xs ys) x ≡ (contains xs x || contains ys x)
unfolding contains
contains-append List.[] ys x = refl
contains-append (List.◌∷◌ t ts) ys x = grind (arith, contains-append ts ys x)
