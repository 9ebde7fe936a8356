-- ===== src/Client/Copy/Download/Tests.antt =====
-- Downloads.
use quish.Base.{◌≡◌, refl, ◌≢◌, ◌⊎◌, true, none, some, List, [], ◌∷◌}
use quish.Base.Int.{pos}
use quish.Base.Text.{codes}
use quish.Proto.Message.{data_msg, exit_status}
use quish.Client.Copy.Download.{Files, set, Event, got, Answers, code, download_one}
use quish.Client.Copy.Download.Files.{payload, download_one-files}

abbrev disk : Files
disk p = none

abbrev fine : Answers
fine = record { opened = true; created = true; flushed = true; renamed = true; removed = true }

abbrev sent : List Event
sent =
    got (data_msg (codes "ab")) none
    ∷ got (data_msg (codes "c")) none
    ∷ got (exit_status (pos 0)) none
    ∷ []

download_one-files_example :
    (((download_one fine (codes ".f.part") (codes "f") sent disk).1 ≡ code (pos 0))
      × ((download_one fine (codes ".f.part") (codes "f") sent disk).0 (codes "f")
          ≡ set (codes "f") (some (payload sent)) disk (codes "f")))
    ⊎ (((download_one fine (codes ".f.part") (codes "f") sent disk).1 ≢ code (pos 0))
        × ((download_one fine (codes ".f.part") (codes "f") sent disk).0 (codes "f")
            ≡ disk (codes "f")))
download_one-files_example =
    download_one-files fine (codes ".f.part") (codes "f") sent disk (codes "f") refl
