-- ===== src/Client/KnownHosts/File.antt =====
-- The file as a map from hosts to fingerprints: what `pin` and `remove_host_lines` do to it.
use quish.Base.{
  ◌≡◌, refl, sym, ap, ◌∙◌, inl, inr, Bool, false, not, Option, none, some, List, [], ◌∷◌, ◌++◌,
  arith, ◌==◌, if◌then◌else◌, Bool-cases, Option-cases, is_empty, retain, All,
}
use mathlib.Core.List.{append_assoc}
use quish.Base.Text.{Bytes, bytes_eq, split_once, contains}
use quish.Base.Text.Laws.{
  IsGraphic, All-append, trim_graphic, split_once-append, bytes_eq→eq, bytes_eq_refl,
}
use quish.Base.Text.Lines.{IsPrintable, unlines, lines-unlines, unlines-append}
use quish.Base.Text.Utf8.{IsUtf8, from_utf8-IsUtf8, ascii-IsUtf8, scan}
use quish.Client.KnownHosts.{
  lookup_lines, lookup, pin, is_match, join_lines, count_matches, remove_host_lines,
  remove_known_host,
}

-- A line as the program writes them.
abbrev pub IsLine : Bytes → Type 0
IsLine l = (is_empty l ≡ false) × All IsPrintable l

-- The file is absent or consists of such lines.
abbrev pub Holds : Option Bytes → List Bytes → Type 0
Holds none ls = ls ≡ []
Holds (some content) ls = (content ≡ unlines ls) × All IsLine ls

lines-IsPrintable : (ls : List Bytes) → All IsLine ls → All (All IsPrintable) ls
lines-IsPrintable [] h = tt
lines-IsPrintable (l ∷ ls) h = (h.0.1, lines-IsPrintable ls h.1)

printable-IsUtf8 : (s rest : Bytes) → All IsPrintable s → IsUtf8 rest → IsUtf8 (s ++ rest)
printable-IsUtf8 [] rest h k = k
printable-IsUtf8 (c ∷ s) rest h k =
    ascii-IsUtf8 c (s ++ rest) (omega (arith, h.0.1)) (printable-IsUtf8 s rest h.1 k)

unlines-IsUtf8 : (ls : List Bytes) → All (All IsPrintable) ls → IsUtf8 (unlines ls)
unlines-IsUtf8 [] h = unfold scan in refl
unlines-IsUtf8 (l ∷ ls) h =
    printable-IsUtf8 l (10 ∷ unlines ls) h.0
      (ascii-IsUtf8 10 (unlines ls) (omega arith) (unlines-IsUtf8 ls h.1))

pub lookup-Holds :
    (file : Option Bytes) (ls : List Bytes) (host : Bytes)
    → Holds file ls
    → lookup file host ≡ lookup_lines host ls
unfolding lookup
lookup-Holds none ls host h = rw h (unfold lookup_lines in refl)
lookup-Holds (some content) ls host (e, p) = rw e (
    rw (from_utf8-IsUtf8 (unlines ls) (unlines-IsUtf8 ls (lines-IsPrintable ls p)))
      (rw (lines-unlines ls (lines-IsPrintable ls p)) refl))

-- Pins.
abbrev pub record_of : Bytes → Bytes → Bytes
record_of host fp = host ++ b' ' ∷ fp

graphic-IsPrintable : (s : Bytes) → All IsGraphic s → All IsPrintable s
graphic-IsPrintable [] h = tt
graphic-IsPrintable (c ∷ s) h = ((omega (arith, h.0.0), h.0.1), graphic-IsPrintable s h.1)

record_of-IsLine :
    (host fp : Bytes) → All IsGraphic host → All IsGraphic fp → IsLine (record_of host fp)
record_of-IsLine [] fp g k = (refl, ((omega arith, omega arith), graphic-IsPrintable fp k))
record_of-IsLine (c ∷ host) fp g k = (
  refl,
  All-append IsPrintable (c ∷ host) (b' ' ∷ fp) (graphic-IsPrintable (c ∷ host) g)
      ((omega arith, omega arith), graphic-IsPrintable fp k),
)

pub pin-Holds :
    (file : Option Bytes) (ls : List Bytes) (host fp : Bytes)
    → All IsGraphic host
    → All IsGraphic fp
    → Holds file ls
    → Holds (some (pin file host fp)) (ls ++ record_of host fp ∷ [])
unfolding pin
pin-Holds none ls host fp g k h =
    rw h (sym (append_assoc host (b' ' ∷ fp) (10 ∷ [])), (record_of-IsLine host fp g k, tt))
pin-Holds (some content) ls host fp g k (e, p) = (
  rw (unlines-append ls (record_of host fp ∷ []))
      (rw e (ap (λ t. unlines ls ++ t) (sym (append_assoc host (b' ' ∷ fp) (10 ∷ []))))),
  All-append IsLine ls (record_of host fp ∷ []) p (record_of-IsLine host fp g k, tt),
)

join_lines_nonempty :
    (l : Bytes) (ls : List Bytes) → is_empty l ≡ false → is_empty (join_lines (l ∷ ls)) ≡ false
unfolding join_lines
join_lines_nonempty [] ls h = absurd (cc)
join_lines_nonempty (c ∷ l) [] h = refl
join_lines_nonempty (c ∷ l) (m ∷ ls) h = refl

join_lines-append :
    (l : Bytes) (ls : List Bytes) → join_lines (l ∷ ls) ++ 10 ∷ [] ≡ unlines (l ∷ ls)
unfolding join_lines
join_lines-append l [] = refl
join_lines-append l (m ∷ ls) =
    append_assoc l (10 ∷ join_lines (m ∷ ls)) (10 ∷ [])
    ∙ ap (λ t. l ++ 10 ∷ t) (join_lines-append m ls)

abbrev with_feed : Bytes → Bytes
with_feed body = if is_empty body then body else body ++ 10 ∷ []

join_lines-unlines : (ls : List Bytes) → All IsLine ls → with_feed (join_lines ls) ≡ unlines ls
join_lines-unlines [] h = unfold join_lines in refl
join_lines-unlines (l ∷ ls) h = rw (join_lines_nonempty l ls h.0.0) (join_lines-append l ls)

All-retain {ℓ κ} :
    {A : Type ℓ} (P : A → Type κ) (q : A → Bool) (xs : List A) → All P xs → All P (retain q xs)
All-retain P q [] h = tt
All-retain P q (x ∷ xs) h = elim (Bool-cases (q x)) [
  | inl e ↦ rw e (h.0, All-retain P q xs h.1)
  | inr e ↦ rw e (All-retain P q xs h.1)
]

count_zero :
    (host : Bytes) (ls : List Bytes)
    → count_matches host ls ≡ 0
    → retain (λ l. not (is_match host l)) ls ≡ ls
count_zero host [] h = refl
count_zero host (l ∷ ls) h = elim (Bool-cases (is_match host l)) [
  | inl e ↦ absurd (omega (arith, rw e at h))
  | inr e ↦ rw e (ap (λ t. l ∷ t) (count_zero host ls (rw e at h)))
]

pub remove_known_host-Holds :
    (file : Option Bytes) (ls : List Bytes) (host : Bytes)
    → Holds file ls
    → (after : Option Bytes) × (remove_known_host file host ≡ some after)
      × Holds after (retain (λ l. not (is_match host l)) ls)
unfolding remove_known_host remove_host_lines
remove_known_host-Holds none ls host h = (none, refl, rw h refl)
remove_known_host-Holds (some content) ls host (e, p) =
    let utf8 = from_utf8-IsUtf8 (unlines ls) (unlines-IsUtf8 ls (lines-IsPrintable ls p)) in
    let kept = All-retain IsLine (λ l. not (is_match host l)) ls p in
    elim (Bool-cases (count_matches host ls == 0)) [
      | inl none_removed ↦ (
        some content,
        rw e (rw utf8 (rw (lines-unlines ls (lines-IsPrintable ls p)) (rw none_removed refl))),
        (e ∙ ap unlines (sym (count_zero host ls (ground (arith, none_removed)))), kept),
      )
      | inr some_removed ↦ (
        some (unlines (retain (λ l. not (is_match host l)) ls)),
        rw e (
            rw utf8 (
              rw (lines-unlines ls (lines-IsPrintable ls p))
                (rw some_removed (ap (λ b. some (some b)) (join_lines-unlines _ kept))))),
        (refl, kept),
      )
    ]

contains_space_graphic : (s : Bytes) → All IsGraphic s → contains b' ' s ≡ false
contains_space_graphic [] h = refl
contains_space_graphic (c ∷ s) h = ground (arith, h.0, contains_space_graphic s h.1)

-- The first pin counts.
abbrev pub or_else : Option Bytes → Option Bytes → Option Bytes
or_else none o = o
or_else (some p) o = some p

pub lookup_lines-append :
    (x host fp : Bytes) (ls : List Bytes)
    → All IsGraphic host
    → All IsGraphic fp
    → lookup_lines x (ls ++ record_of host fp ∷ [])
      ≡ or_else (lookup_lines x ls) (if bytes_eq host x then some fp else none)
unfolding lookup_lines
lookup_lines-append x host fp [] g k =
    rw (split_once-append b' ' host fp (contains_space_graphic host g), lookup_lines)
      (rw (trim_graphic fp k) refl)
lookup_lines-append x host fp (l ∷ ls) g k = elim (Option-cases (split_once b' ' l)) [
  | inl e ↦ rw (e, lookup_lines) (lookup_lines-append x host fp ls g k)
  | inr ((h, f), e) ↦
      rw (e, lookup_lines)
        (elim (Bool-cases (bytes_eq h x)) [
          | inl q ↦ rw q refl
          | inr q ↦ rw q (lookup_lines-append x host fp ls g k)
        ])
]

pub lookup_lines-retain :
    (x host : Bytes) (ls : List Bytes)
    → lookup_lines x (retain (λ l. not (is_match host l)) ls)
      ≡ (if bytes_eq host x then none else lookup_lines x ls)
unfolding lookup_lines
lookup_lines-retain x host [] = ground arith
lookup_lines-retain x host (l ∷ ls) = elim (Option-cases (split_once b' ' l)) [
  | inl e ↦ ground (arith, e, lookup_lines-retain x host ls)
  | inr ((h, f), e) ↦ ground (
    arith,
    e,
    lookup_lines-retain x host ls,
    bytes_eq→eq h x,
    bytes_eq→eq h host,
    bytes_eq→eq host x,
    bytes_eq_refl host,
    bytes_eq_refl x,
  )
]
