-- ===== src/Client/KnownHosts/Tests.antt =====
-- Tests of the host keys.
use quish.Base.{◌≡◌, refl, true, false, none, some, List, [], ◌∷◌, ◌++◌, All}
use quish.Base.Text.Utf8.{from_utf8}
use quish.Base.Text.{Bytes, codes, trim}
use quish.Base.Text.Laws.{IsGraphic, all_graphic→IsGraphic}
use quish.Base.Text.Lines.{lines, lines_loop, strip_cr}
use quish.Client.KnownHosts.{Visit, lookup, remove_host_lines, join_lines, decide, answer_of}
use quish.Client.KnownHosts.Trust.{Event, visits, removes, replay, run, run_refines}

remove_keeps_others :
    remove_host_lines
      (codes "a:1 x" ++ 10 ∷ (codes "b:1 y" ++ 10 ∷ (codes "a:1 z" ++ 10 ∷ [])))
      (codes "a:1")
    ≡ (codes "b:1 y" ++ 10 ∷ [], 2)
unfolding remove_host_lines join_lines lines lines_loop strip_cr
remove_keeps_others = refl

decide_asks_again : decide (codes "fp" ∷ codes " YES " ∷ []) ≡ true
unfolding decide answer_of trim from_utf8
decide_asks_again = refl

abbrev first_visit : Visit
first_visit = record {
  webpki_ok = false;
  fingerprint = codes "ab12";
  terminal = some (codes "yes" ∷ []);
  writable = true;
}

-- A first connection, an impostor, and the host again without a terminal.
abbrev events : List Event
events =
    visits (codes "h:4433") first_visit
    ∷ visits (codes "h:4433") (record first_visit { fingerprint = codes "cd34" })
    ∷ visits (codes "h:4433") (record first_visit { terminal = none })
    ∷ removes (codes "other:1")
    ∷ []

IsGraphic-host : All IsGraphic (codes "h:4433")
IsGraphic-host = all_graphic→IsGraphic (codes "h:4433") refl

run_refines_example :
    ((run events none).0 ≡ (replay events (λ x. none)).0)
    × ((x : Bytes) → lookup (run events none).1 x ≡ (replay events (λ x. none)).1 x)
run_refines_example = run_refines events (
  (IsGraphic-host, all_graphic→IsGraphic (codes "ab12") refl),
  (
    (IsGraphic-host, all_graphic→IsGraphic (codes "cd34") refl),
    ((IsGraphic-host, all_graphic→IsGraphic (codes "ab12") refl), (tt, tt)),
  ),
)
