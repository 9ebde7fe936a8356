-- ===== src/Client/Copy/Upload/Tests.antt =====
-- Uploads to a server that makes a directory only below one that it has.
use quish.Base.{
  ℕ, min, ◌≡◌, refl, Bool, true, false, ◌||◌, none, some, List, [], ◌∷◌, arith, if◌then◌else◌,
  length, any, All,
}
use quish.Base.Int.{pos}
use quish.Base.Text.{Bytes, codes, bytes_eq, rsplit_once}
use quish.Proto.Message.{ChannelMessage}
use quish.Client.Copy.Upload.{Op, mkdir_one, upload_one, Outcome, code, send_chunks}
use quish.Client.Copy.Upload.Chunks.{IsRead, IsChunk, contents, send_chunks_whole}

abbrev top_dir : Bytes
top_dir = codes "r"

-- The directory of a path is there.
abbrev has_parent : List Bytes → Bytes → Bool
has_parent made path = elim (rsplit_once b'/' path) [
  | none ↦ false
  | some (dir, name) ↦ any (λ d. bytes_eq d dir) made
]

abbrev on_server : Op → List Bytes → Outcome × List Bytes
on_server (mkdir_one path mode) made =
    if bytes_eq path top_dir || has_parent made path
    then (code (pos 0), path ∷ made)
    else (code (pos 1), made)
on_server (upload_one file path) made =
    ((if has_parent made path then code (pos 0) else code (pos 1)), made)

abbrev IsMade : List Bytes → Bytes → Type 0
IsMade made path = any (λ d. bytes_eq d path) made ≡ true

abbrev read_two : Bytes → ℕ
read_two left = min 2 (length left)

read_two-IsRead : IsRead read_two
read_two-IsRead [] = (omega arith, omega arith, λ e. refl)
read_two-IsRead (b ∷ left) = (omega arith, omega arith, λ e. absurd (omega arith))

send_chunks_whole_example :
    (sent : List ChannelMessage) × (send_chunks read_two 4 (codes "abc") ≡ some sent)
    × (contents sent ≡ codes "abc")
    × All IsChunk sent
send_chunks_whole_example = send_chunks_whole read_two 4 (codes "abc") read_two-IsRead (omega arith)
