-- ===== src/Base/Text/Utf8.antt =====
-- `String::from_utf8`: the well-formed byte sequences of the Unicode standard, table 3-7.
use Prim.Native.Nat.{ℕ, zero, suc, ◌<◌}
use mathlib.Core.Path.{◌≡◌, refl}
use mathlib.Core.Bool.{◌&&◌}
use mathlib.Core.List.{[], ◌∷◌, ◌++◌}
use mathlib.Core.Option.{Option, none, some}
use native.Mathlib.Omega.{arith}
use quish.Base.Compare.{◌==◌, leb, ltb, if◌then◌else◌}
use quish.Base.Text.{Bytes}

-- Between two characters, or `suc n` bytes short of one, of which the next lies in a range.
pub data Scan : Type 0 where
  boundary : Scan
  inside : ℕ → ℕ → ℕ → Scan
  invalid : Scan

unfoldable pub lead : ℕ → Scan
lead a =
    if ltb a 0x80
    then boundary
    else if leb 0xc2 a && leb a 0xdf
    then inside 0 0x80 0xbf
    else if a == 0xe0
    then inside 1 0xa0 0xbf
    else if a == 0xed
    then inside 1 0x80 0x9f
    else if leb 0xe1 a && leb a 0xef
    then inside 1 0x80 0xbf
    else if a == 0xf0
    then inside 2 0x90 0xbf
    else if leb 0xf1 a && leb a 0xf3
    then inside 2 0x80 0xbf
    else if a == 0xf4
    then inside 2 0x80 0x8f
    else invalid

unfoldable pub scan_byte : Scan → ℕ → Scan
unfolding lead
scan_byte boundary a = lead a
scan_byte invalid a = invalid
scan_byte (inside zero lo hi) a = if leb lo a && leb a hi then boundary else invalid
scan_byte (inside (suc n) lo hi) a = if leb lo a && leb a hi then inside n 0x80 0xbf else invalid

unfoldable pub scan : Scan → Bytes → Scan
scan s [] = s
scan s (b ∷ bs) = scan (scan_byte s b) bs

abbrev pub IsUtf8 : Bytes → Type 0
IsUtf8 s = scan boundary s ≡ boundary

unfoldable pub from_utf8 : Bytes → Option Bytes
unfolding scan scan_byte
from_utf8 bs = elim (scan boundary bs) [
  | boundary ↦ some bs
  | inside n lo hi ↦ none
  | invalid ↦ none
]

scan-append : (s : Scan) (xs ys : Bytes) → scan s (xs ++ ys) ≡ scan (scan s xs) ys
unfolding scan
scan-append s [] ys = refl
scan-append s (x ∷ xs) ys = scan-append (scan_byte s x) xs ys

pub append-IsUtf8 : (xs ys : Bytes) → IsUtf8 xs → IsUtf8 ys → IsUtf8 (xs ++ ys)
append-IsUtf8 xs ys h k = rw (scan-append boundary xs ys) (rw h k)

pub ascii-IsUtf8 : (c : ℕ) (xs : Bytes) → c < 0x80 → IsUtf8 xs → IsUtf8 (c ∷ xs)
unfolding scan scan_byte lead
ascii-IsUtf8 c xs h k = ground arith

pub from_utf8-IsUtf8 : (s : Bytes) → IsUtf8 s → from_utf8 s ≡ some s
unfolding from_utf8
from_utf8-IsUtf8 s h = rw (h, from_utf8)
