-- ===== src/Base/Text/Lines.antt =====
-- `str::lines`, and texts that consist of whole lines.
use Prim.Native.Nat.{ℕ, ◌≤◌}
use mathlib.Core.Path.{◌≡◌, refl, sym, ap, ◌∙◌}
use mathlib.Core.List.{
  List, [], ◌∷◌, ◌++◌, reverse, reverse-cons, reverse-reverse, append-nil, append_assoc,
}
use native.Mathlib.Omega.{arith}
use quish.Base.Compare.{◌==◌, if◌then◌else◌}
use quish.Base.Lists.{All}
use quish.Base.Text.{Bytes}
use quish.Base.Text.Laws.{All-reverse}

-- `str::lines`: the pieces between line feeds, without a carriage return before one, and without
-- an empty piece at the end. `line` is the current piece, reversed.
unfoldable pub strip_cr : Bytes → Bytes
strip_cr [] = []
strip_cr (c ∷ rest) = if c == 13 then rest else c ∷ rest

unfoldable pub lines_loop : Bytes → Bytes → List Bytes
lines_loop line [] = elim line [ [] ↦ [] | c ∷ rest ↦ reverse (c ∷ rest) ∷ [] ]
lines_loop line (c ∷ s) =
    let ended = reverse (strip_cr line) ∷ lines_loop [] s in
    let longer = lines_loop (c ∷ line) s in if c == 10 then ended else longer

unfoldable pub lines : Bytes → List Bytes
unfolding lines_loop strip_cr
lines = lines_loop []

-- Printable ASCII, of which the texts are made that the program writes itself.
abbrev pub IsPrintable : ℕ → Type 0
IsPrintable c = (0x20 ≤ c) × (c ≤ 0x7e)

-- Lines, each with its line feed.
abbrev pub unlines : List Bytes → Bytes
unlines [] = []
unlines (l ∷ ls) = l ++ 10 ∷ unlines ls

strip_cr_printable : (s : Bytes) → All IsPrintable s → strip_cr s ≡ s
unfolding strip_cr
strip_cr_printable [] h = refl
strip_cr_printable (c ∷ s) h = ground arith

lines_loop_line :
    (line l rest : Bytes)
    → All IsPrintable l
    → lines_loop line (l ++ 10 ∷ rest) ≡ reverse (strip_cr (reverse l ++ line)) ∷ lines_loop [] rest
unfolding lines_loop
lines_loop_line line [] rest h = refl
lines_loop_line line (c ∷ l) rest h = rw (reverse-cons c l) (
    rw (append_assoc (reverse l) (c ∷ []) line)
      (ground (arith, lines_loop_line (c ∷ line) l rest h.1)))

pub lines-unlines : (ls : List Bytes) → All (All IsPrintable) ls → lines (unlines ls) ≡ ls
unfolding lines lines_loop
lines-unlines [] h = refl
lines-unlines (l ∷ ls) h =
    rw (lines_loop_line [] l (unlines ls) h.0, lines)
      (rw (append-nil (reverse l)) (
        rw (strip_cr_printable (reverse l) (All-reverse IsPrintable l h.0))
          (rw (reverse-reverse l) (ap (λ t. l ∷ t) (lines-unlines ls h.1)))))

pub unlines-append : (ls ms : List Bytes) → unlines (ls ++ ms) ≡ unlines ls ++ unlines ms
unlines-append [] ms = refl
unlines-append (l ∷ ls) ms =
    ap (λ t. l ++ 10 ∷ t) (unlines-append ls ms)
    ∙ sym (append_assoc l (10 ∷ unlines ls) (unlines ms))
