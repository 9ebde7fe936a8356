-- ===== src/Base/Text.antt =====
-- Rust's `str` and `[u8]` as lists of bytes, with the methods that the program calls.
-- A `str` is such a list that is valid UTF-8. Offsets are byte offsets, as in Rust.
pub mod Laws
pub mod Lines
pub mod Utf8
use Prim.Native.Char.{code}
use Prim.Native.String.{String}
use Prim.Native.Nat.{ℕ, zero, suc, ◌+◌, ◌-◌, ◌*◌, ◌^◌}
use mathlib.Core.Bool.{Bool, true, false, ◌&&◌, ◌||◌}
use mathlib.Core.List.{List, [], ◌∷◌, reverse}
use mathlib.Core.Option.{Option, none, some}
use quish.Base.Compare.{◌==◌, leb, ltb, if◌then◌else◌}
use quish.Base.Lists.{length, drop, any}

abbrev pub Bytes : Type 0
Bytes = List ℕ

-- The bytes of an ASCII literal.
abbrev pub codes : String → Bytes
codes String.[] = []
codes (String.◌∷◌ c s) = code c ∷ codes s

-- `a == b` on strings and slices.
abbrev pub bytes_eq : Bytes → Bytes → Bool
bytes_eq [] [] = true
bytes_eq [] (_ ∷ _) = false
bytes_eq (_ ∷ _) [] = false
bytes_eq (a ∷ xs) (b ∷ ys) = (a == b) && bytes_eq xs ys

-- `s.contains(c)` for an ASCII `c`.
abbrev pub contains : ℕ → Bytes → Bool
contains c = any (λ b. b == c)

-- `s.strip_prefix(p)`.
abbrev pub strip_prefix : Bytes → Bytes → Option Bytes
strip_prefix [] s = some s
strip_prefix (_ ∷ _) [] = none
strip_prefix (p ∷ ps) (b ∷ bs) = if p == b then strip_prefix ps bs else none

-- `s.find(c)` for an ASCII `c`.
abbrev pub find : ℕ → Bytes → Option ℕ
find c [] = none
find c (b ∷ bs) =
    if b == c then some 0 else elim (find c bs) [ none ↦ none | some i ↦ some (suc i) ]

-- `s.split_once(c)` for an ASCII `c`.
abbrev pub split_once : ℕ → Bytes → Option (Bytes × Bytes)
split_once c [] = none
split_once c (b ∷ bs) =
    if b == c
    then some ([], bs)
    else elim (split_once c bs) [ none ↦ none | some (l, r) ↦ some (b ∷ l, r) ]

-- `s.rsplit_once(c)` for an ASCII `c`.
abbrev pub rsplit_once : ℕ → Bytes → Option (Bytes × Bytes)
rsplit_once c [] = none
rsplit_once c (b ∷ bs) = elim (rsplit_once c bs) [
  | none ↦ if b == c then some ([], bs) else none
  | some (l, r) ↦ some (b ∷ l, r)
]

-- How many bytes the white space at the front takes, 0 if there is none: U+0009 to U+000D, U+0020,
-- U+0085, U+00A0, U+1680, U+2000 to U+200A, U+2028, U+2029, U+202F, U+205F and U+3000.
pub space_width : ℕ → ℕ → ℕ → ℕ
space_width a b c =
    if (leb 9 a && leb a 13) || (a == 32)
    then 1
    else if (a == 0xc2) && ((b == 0x85) || (b == 0xa0))
    then 2
    else if ((a == 0xe1) && (b == 0x9a) && (c == 0x80))
        || ((a == 0xe2)
            && (b == 0x80)
            && (leb 0x80 c && leb c 0x8a || (c == 0xa8) || (c == 0xa9) || (c == 0xaf)))
        || ((a == 0xe2) && (b == 0x81) && (c == 0x9f))
        || ((a == 0xe3) && (b == 0x80) && (c == 0x80))
    then 3
    else 0

pub leading_space : Bytes → ℕ
leading_space [] = 0
leading_space (a ∷ []) = space_width a 0 0
leading_space (a ∷ b ∷ []) = space_width a b 0
leading_space (a ∷ b ∷ c ∷ _) = space_width a b c

-- The same at the end, on the reversed text: a space of one byte, of two, or of three.
pub trailing_space : Bytes → ℕ
trailing_space [] = 0
trailing_space (a ∷ []) = space_width a 0 0
trailing_space (b ∷ a ∷ []) =
    if space_width b 0 0 == 1 then 1 else if space_width a b 0 == 2 then 2 else 0
trailing_space (c ∷ b ∷ a ∷ _) =
    if space_width c 0 0 == 1
    then 1
    else if space_width b c 0 == 2
    then 2
    else if space_width a b c == 3
    then 3
    else 0

-- Drops spaces from the front until there is none; each round takes a byte at least.
pub trim_loop : (Bytes → ℕ) → ℕ → Bytes → Bytes
trim_loop space zero s = s
trim_loop space (suc fuel) s = elim (space s) [
  | zero ↦ s
  | suc n ↦ trim_loop space fuel (drop (suc n) s)
]

pub trim_start : Bytes → Bytes
unfolding trim_loop leading_space space_width
trim_start s = trim_loop leading_space (length s) s

pub trim_end : Bytes → Bytes
unfolding trim_loop trailing_space space_width
trim_end s = reverse (trim_loop trailing_space (length s) (reverse s))

-- `s.trim()`.
unfoldable pub trim : Bytes → Bytes
unfolding trim_start trim_end
trim s = trim_end (trim_start s)

-- `s.parse::<u32>()`: an optional `+`, one digit at least, no overflow.
abbrev pub u32_max : ℕ
u32_max = 2 ^ 32 - 1

pub digits_u32 : ℕ → Bytes → Option ℕ
digits_u32 acc [] = some acc
digits_u32 acc (c ∷ cs) =
    let acc' = acc * 10 + (c - b'0') in
    let rest = digits_u32 acc' cs in
    if leb b'0' c && leb c b'9' && leb acc' u32_max then rest else none

unfoldable pub parse_u32 : Bytes → Option ℕ
unfolding digits_u32
parse_u32 [] = none
parse_u32 (c ∷ cs) =
    if c == b'+'
    then elim cs [ [] ↦ none | d ∷ ds ↦ digits_u32 0 (d ∷ ds) ]
    else digits_u32 0 (c ∷ cs)
