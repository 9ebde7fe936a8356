-- ===== src/Session/FrameReader/Tests.antt =====
-- Tests of the frame reader.
use quish.Base.{◌≡◌, refl, List, [], ◌∷◌, ◌++◌}
use quish.Base.Text.{Bytes, codes}
use quish.Samples.{bytes_codec}
use quish.Proto.Frame.{encode, take_frame, to_be_bytes}
use quish.Session.FrameReader.{spawn_frame_reader}
use quish.Session.FrameReader.Stream.{chunks, spawn_frame_reader-Writes}

-- Two frames and half a prefix, cut within the first prefix and within the second body.
abbrev first_frame : Bytes
first_frame = 0 ∷ 0 ∷ 0 ∷ 2 ∷ codes "ls"

abbrev second_frame : Bytes
second_frame = 0 ∷ 0 ∷ 0 ∷ 3 ∷ codes "pwd"

abbrev cut_up : List Bytes
cut_up =
    (0 ∷ 0 ∷ [])
    ∷ (0 ∷ 2 ∷ codes "ls" ++ 0 ∷ 0 ∷ 0 ∷ 3 ∷ codes "p")
    ∷ (codes "wd" ++ 0 ∷ 0 ∷ [])
    ∷ []

spawn_frame_reader-Writes_example :
    spawn_frame_reader bytes_codec (record { recv = chunks cut_up; buf = [] })
    ≡ codes "ls" ∷ codes "pwd" ∷ []
unfolding encode to_be_bytes take_frame
spawn_frame_reader-Writes_example =
    spawn_frame_reader-Writes bytes_codec (codes "ls" ∷ codes "pwd" ∷ []) cut_up
      (first_frame ++ second_frame) (0 ∷ 0 ∷ [])
      (first_frame, second_frame, refl, refl, (second_frame, [], refl, refl, refl)) refl refl
