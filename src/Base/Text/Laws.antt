-- ===== src/Base/Text/Laws.antt =====
-- Laws of the text functions.
use Prim.Native.Nat.{ℕ, zero, suc, ◌≤◌}
use mathlib.Core.Path.{◌≡◌, refl}
use mathlib.Core.Bool.{true, false, ◌&&◌, ◌||◌}
use mathlib.Core.List.{List, [], ◌∷◌, ◌++◌, reverse, reverse-cons, reverse-reverse}
use mathlib.Core.Option.{some}
use native.Mathlib.Omega.{arith}
use quish.Base.Compare.{◌==◌, leb}
use quish.Base.Lists.{length, all, All}
use quish.Base.Text.{
  Bytes, bytes_eq, contains, strip_prefix, split_once, leading_space, trailing_space, trim_loop,
  trim, space_width,
}

pub bytes_eq→eq : (a b : Bytes) → bytes_eq a b ≡ true → a ≡ b
bytes_eq→eq [] [] h = refl
bytes_eq→eq [] (_ ∷ _) h = cc
bytes_eq→eq (_ ∷ _) [] h = cc
bytes_eq→eq (a ∷ xs) (b ∷ ys) h = ground (arith, bytes_eq→eq xs ys)

pub bytes_eq_refl : (a : Bytes) → bytes_eq a a ≡ true
bytes_eq_refl [] = refl
bytes_eq_refl (a ∷ xs) = ground (arith, bytes_eq_refl xs)

pub strip_prefix-append : (p s : Bytes) → strip_prefix p (p ++ s) ≡ some s
strip_prefix-append [] s = refl
strip_prefix-append (c ∷ p) s = ground (arith, strip_prefix-append p s)

pub split_once-append :
    (c : ℕ) (l r : Bytes) → contains c l ≡ false → split_once c (l ++ c ∷ r) ≡ some (l, r)
split_once-append c [] r h = ground arith
split_once-append c (b ∷ l) r h = ground (arith, split_once-append c l r)

pub contains-append :
    (c : ℕ) (xs ys : Bytes) → contains c (xs ++ ys) ≡ (contains c xs || contains c ys)
contains-append c [] ys = refl
contains-append c (x ∷ xs) ys = ground (arith, contains-append c xs ys)

-- The visible characters of ASCII, of which HTTP credentials are made.
abbrev pub IsGraphic : ℕ → Type 0
IsGraphic c = (0x21 ≤ c) × (c ≤ 0x7e)

pub All-append {ℓ κ} :
    {A : Type ℓ} (P : A → Type κ) (xs ys : List A) → All P xs → All P ys → All P (xs ++ ys)
All-append P [] ys h k = k
All-append P (x ∷ xs) ys h k = (h.0, All-append P xs ys h.1 k)

pub All-reverse {ℓ κ} : {A : Type ℓ} (P : A → Type κ) (xs : List A) → All P xs → All P (reverse xs)
All-reverse P [] h = tt
All-reverse P (x ∷ xs) h =
    rw (reverse-cons x xs) (All-append P (reverse xs) (x ∷ []) (All-reverse P xs h.1) (h.0, tt))

space_width_first : (a b c : ℕ) → IsGraphic a → space_width a b c ≡ 0
unfolding space_width
space_width_first a b c h = ground arith

space_width_second : (a b c : ℕ) → IsGraphic b → (space_width a b c == 2) ≡ false
unfolding space_width
space_width_second a b c h = ground arith

space_width_third : (a b c : ℕ) → IsGraphic c → (space_width a b c == 3) ≡ false
unfolding space_width
space_width_third a b c h = ground arith

leading_space_graphic : (s : Bytes) → All IsGraphic s → leading_space s ≡ 0
unfolding leading_space
leading_space_graphic [] h = refl
leading_space_graphic (a ∷ []) h = space_width_first a 0 0 h.0
leading_space_graphic (a ∷ b ∷ []) h = space_width_first a b 0 h.0
leading_space_graphic (a ∷ b ∷ c ∷ s) h = space_width_first a b c h.0

trailing_space_graphic : (s : Bytes) → All IsGraphic s → trailing_space s ≡ 0
unfolding trailing_space
trailing_space_graphic [] h = refl
trailing_space_graphic (a ∷ []) h = space_width_first a 0 0 h.0
trailing_space_graphic (b ∷ a ∷ []) h =
    rw (space_width_first b 0 0 h.0) (rw (space_width_second a b 0 h.0))
trailing_space_graphic (c ∷ b ∷ a ∷ s) h =
    rw (space_width_first c 0 0 h.0)
      (rw (space_width_second b c 0 h.0) (rw (space_width_third a b c h.0)))

trim_loop_still : (space : Bytes → ℕ) (n : ℕ) (s : Bytes) → space s ≡ 0 → trim_loop space n s ≡ s
unfolding trim_loop
trim_loop_still space zero s h = refl
trim_loop_still space (suc n) s h = rw (h, trim_loop)

pub trim_graphic : (s : Bytes) → All IsGraphic s → trim s ≡ s
unfolding trim
trim_graphic s h = rw (trim_loop_still leading_space (length s) s (leading_space_graphic s h)) (
    rw
      (trim_loop_still trailing_space (length s) (reverse s)
        (trailing_space_graphic (reverse s) (All-reverse IsGraphic s h)))
      (reverse-reverse s))

-- `IsGraphic` by computation.
pub all_graphic→IsGraphic :
    (s : Bytes) → all (λ c. leb 0x21 c && leb c 0x7e) s ≡ true → All IsGraphic s
all_graphic→IsGraphic [] h = tt
all_graphic→IsGraphic (c ∷ s) h =
    ((ground arith, ground arith), all_graphic→IsGraphic s (ground arith))
