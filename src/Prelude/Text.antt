-- ===== src/Prelude/Text.antt =====
-- Go's strings: `==` and `++` are the library's, `<` and `>` compare bytes, which is the order of
-- the native `compare`.
use Prim.Native.Char.{code}
use Prim.Native.Nat.{ℕ, Ordering, compare as compare_ℕ}
use Prim.Native.String.compare
use Prim.Native.String.{String, compare, then as then_cmp}
use mathlib.Core.Path.{◌≡◌, refl, sym, ap, ◌∙◌}
use mathlib.Core.Logic.{◌⊎◌, inl, inr}
use mathlib.Core.Bool.{Bool, true, false}
use native.Mathlib.Omega.{arith}
use text.Mathlib.Text.{is_lt}
use text.Mathlib.TextEquality.{path_by_compare}
use text.Mathlib.TextPositions.{compare_refl}

abbrev pub str_lt : String → String → Bool
str_lt s t = is_lt (compare s t)

flip : Ordering → Ordering
flip Ordering.lt = Ordering.gt
flip Ordering.eq = Ordering.eq
flip Ordering.gt = Ordering.lt

compare_ℕ-swap : (m n : ℕ) → compare_ℕ n m ≡ flip (compare_ℕ m n)
unfolding flip
compare_ℕ-swap m n = ground arith

flip-then_cmp : (o p : Ordering) → flip (then_cmp o p) ≡ then_cmp (flip o) (flip p)
unfolding flip
flip-then_cmp Ordering.lt p = refl
flip-then_cmp Ordering.eq p = refl
flip-then_cmp Ordering.gt p = refl

compare-swap : (s t : String) → compare t s ≡ flip (compare s t)
unfolding flip
compare-swap String.[] String.[] = rw compare.nil-nil
compare-swap String.[] (String.◌∷◌ d t) = rw (compare.nil-cons, compare.cons-nil)
compare-swap (String.◌∷◌ c s) String.[] = rw (compare.nil-cons, compare.cons-nil)
compare-swap (String.◌∷◌ c s) (String.◌∷◌ d t) =
    rw
      (
        compare.cons-cons c d s t,
        compare.cons-cons d c t s,
        compare_ℕ-swap (code c) (code d),
        compare-swap s t,
      )
      (sym (flip-then_cmp (compare_ℕ (code c) (code d)) (compare s t)))

then_lt :
    (l m n : ℕ) (o p q : Ordering)
    → (is_lt o ≡ true → is_lt p ≡ true → is_lt q ≡ true)
    → is_lt (then_cmp (compare_ℕ l m) o) ≡ true
    → is_lt (then_cmp (compare_ℕ m n) p) ≡ true
    → is_lt (then_cmp (compare_ℕ l n) q) ≡ true
then_lt l m n o p q ih h k = ground arith

pub str_lt_trans : (s t u : String) → str_lt s t ≡ true → str_lt t u ≡ true → str_lt s u ≡ true
str_lt_trans String.[] t String.[] h k = elim_bad t h k
  where
    elim_bad :
        (t : String)
        → str_lt String.[] t ≡ true
        → str_lt t String.[] ≡ true
        → str_lt String.[] String.[] ≡ true
    elim_bad String.[] h k = h
    elim_bad (String.◌∷◌ d t) h k = cc (k, compare.cons-nil d t)
str_lt_trans String.[] t (String.◌∷◌ e u) h k = rw compare.nil-cons
str_lt_trans (String.◌∷◌ c s) String.[] u h k = cc (h, compare.cons-nil c s)
str_lt_trans (String.◌∷◌ c s) (String.◌∷◌ d t) String.[] h k = cc (k, compare.cons-nil d t)
str_lt_trans (String.◌∷◌ c s) (String.◌∷◌ d t) (String.◌∷◌ e u) h k =
    rw (compare.cons-cons c e s u) (
      then_lt (code c) (code d) (code e) (compare s t) (compare t u) (compare s u)
        (str_lt_trans s t u) (rw (compare.cons-cons c d s t) at h)
        (rw (compare.cons-cons d e t u) at k))

Ordering-cases : (o : Ordering) → (o ≡ Ordering.lt) ⊎ ((o ≡ Ordering.eq) ⊎ (o ≡ Ordering.gt))
Ordering-cases Ordering.lt = inl refl
Ordering-cases Ordering.eq = inr (inl refl)
Ordering-cases Ordering.gt = inr (inr refl)

pub str_lt_total : (s t : String) → (str_lt s t ≡ true) ⊎ ((s ≡ t) ⊎ (str_lt t s ≡ true))
unfolding flip
str_lt_total s t = elim (Ordering-cases (compare s t)) [
  | inl h ↦ inl (ap is_lt h)
  | inr (inl h) ↦ inr (inl (path_by_compare s t h))
  | inr (inr h) ↦ inr (inr (ap is_lt (compare-swap s t ∙ ap flip h)))
]

pub str_lt_irrefl : (s : String) → str_lt s s ≡ false
str_lt_irrefl s = ap is_lt (compare_refl s)

pub str_lt_asymm : (s t : String) → str_lt s t ≡ true → str_lt t s ≡ false
unfolding flip
str_lt_asymm s t h = ground (arith, compare-swap s t)

pub str_lt_neg_trans :
    (s t u : String) → str_lt s t ≡ false → str_lt t u ≡ false → str_lt s u ≡ false
str_lt_neg_trans s t u h k =
    ground (arith, str_lt_total s t, str_lt_total t u, str_lt_trans u t s, str_lt_asymm u s)
