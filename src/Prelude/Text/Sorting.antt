-- ===== src/Prelude/Text/Sorting.antt =====
-- What sorting a list of texts comes to: the same texts, each no greater than the next.
use Prim.Native.Nat.{Ordering, compare as compare_ℕ}
use Prim.Native.Nat.compare as compare_ℕ
use Prim.Native.Char.{code}
use Prim.Native.String
use Prim.Native.String.compare
use Prim.Native.String.{String, compare}
use kubebird.Prelude.{
  ℕ, zero, suc, Bool, true, false, ◌||◌, ◌=?◌, ◌≡◌, refl, sym, ap, ◌∙◌, List, [], ◌∷◌, Bool-cases,
  inl, inr,
}
use kubebird.Prelude.Text.{text_le, insert_sorted, sort, contains}

abbrev flip : Ordering → Ordering
flip Ordering.lt = Ordering.gt
flip Ordering.eq = Ordering.eq
flip Ordering.gt = Ordering.lt

flip-then : (o p : Ordering) → String.then (flip o) (flip p) ≡ flip (String.then o p)
flip-then Ordering.lt p = refl
flip-then Ordering.eq p = refl
flip-then Ordering.gt p = refl

numbers_flip : (m n : ℕ) → compare_ℕ n m ≡ flip (compare_ℕ m n)
numbers_flip zero zero = compare_ℕ.zero-zero ∙ sym (ap flip compare_ℕ.zero-zero)
numbers_flip zero (suc n) = compare_ℕ.suc-zero n ∙ sym (ap flip (compare_ℕ.zero-suc n))
numbers_flip (suc m) zero = compare_ℕ.zero-suc m ∙ sym (ap flip (compare_ℕ.suc-zero m))
numbers_flip (suc m) (suc n) =
    compare_ℕ.suc-suc n m ∙ numbers_flip m n ∙ sym (ap flip (compare_ℕ.suc-suc m n))

texts_flip : (s t : String) → compare t s ≡ flip (compare s t)
texts_flip String.[] String.[] = compare.nil-nil ∙ sym (ap flip compare.nil-nil)
texts_flip String.[] (String.◌∷◌ d t) = compare.cons-nil d t ∙ sym (ap flip (compare.nil-cons d t))
texts_flip (String.◌∷◌ c s) String.[] = compare.nil-cons c s ∙ sym (ap flip (compare.cons-nil c s))
texts_flip (String.◌∷◌ c s) (String.◌∷◌ d t) =
    compare.cons-cons d c t s
    ∙ ap (λ o. String.then o (compare t s)) (numbers_flip (code c) (code d))
    ∙ ap (String.then (flip (compare_ℕ (code c) (code d)))) (texts_flip s t)
    ∙ flip-then (compare_ℕ (code c) (code d)) (compare s t)
    ∙ sym (ap flip (compare.cons-cons c d s t))

at_most_by : Ordering → Bool
at_most_by Ordering.gt = false
at_most_by Ordering.lt = true
at_most_by Ordering.eq = true

flipped : (o : Ordering) → at_most_by o ≡ false → at_most_by (flip o) ≡ true
unfolding at_most_by
flipped Ordering.gt h = refl
flipped Ordering.lt h = cc
flipped Ordering.eq h = cc

by : (s t : String) → text_le s t ≡ at_most_by (compare s t)
unfolding at_most_by
by s t = via (compare s t)
  where
    via : (o : Ordering) → elim o [ Ordering.gt ↦ false | _ ↦ true ] ≡ at_most_by o
    via Ordering.gt = refl
    via Ordering.lt = refl
    via Ordering.eq = refl

text_le-total : (s t : String) → text_le s t ≡ false → text_le t s ≡ true
text_le-total s t h =
    by t s ∙ ap at_most_by (texts_flip s t) ∙ flipped (compare s t) (sym (by s t) ∙ h)

-- The text is no greater than the first of the list, if there is one.
abbrev Below : String → List String → Type 0
Below s [] = Unit
Below s (t ∷ ts) = text_le s t ≡ true

abbrev pub IsSorted : List String → Type 0
IsSorted [] = Unit
IsSorted (s ∷ ss) = Below s ss × IsSorted ss

insert_sorted-Below :
    (s t : String) (ts : List String)
    → Below t ts
    → text_le t s ≡ true
    → Below t (insert_sorted s ts)
unfolding insert_sorted
insert_sorted-Below s t [] b h = h
insert_sorted-Below s t (u ∷ us) b h = elim (Bool-cases (text_le s u)) [
  | inl e ↦ rw e h
  | inr e ↦ rw e b
]

insert_sorted-IsSorted :
    (s : String) (ts : List String) → IsSorted ts → IsSorted (insert_sorted s ts)
unfolding insert_sorted
insert_sorted-IsSorted s [] o = (tt, tt)
insert_sorted-IsSorted s (t ∷ ts) o = elim (Bool-cases (text_le s t)) [
  | inl e ↦ rw e ((e, o))
  | inr e ↦
      rw e ((insert_sorted-Below s t ts o.0 (text_le-total s t e), insert_sorted-IsSorted s ts o.1))
]

pub sort-IsSorted : (ss : List String) → IsSorted (sort ss)
unfolding sort
sort-IsSorted [] = tt
sort-IsSorted (s ∷ ss) = insert_sorted-IsSorted s (sort ss) (sort-IsSorted ss)

swapped : (a b c : Bool) → (a || (b || c)) ≡ (b || (a || c))
swapped true true c = refl
swapped true false c = refl
swapped false b c = refl

contains-insert_sorted :
    (x s : String) (ts : List String) → contains (insert_sorted s ts) x ≡ (s =? x || contains ts x)
unfolding insert_sorted contains
contains-insert_sorted x s [] = refl
contains-insert_sorted x s (t ∷ ts) = elim (Bool-cases (text_le s t)) [
  | inl e ↦ rw e refl
  | inr e ↦ rw (e, contains-insert_sorted x s ts) (swapped (t =? x) (s =? x) (contains ts x))
]

pub contains-sort : (x : String) (ss : List String) → contains (sort ss) x ≡ contains ss x
unfolding sort contains
contains-sort x [] = refl
contains-sort x (s ∷ ss) = rw (contains-insert_sorted x s (sort ss), contains-sort x ss) refl
