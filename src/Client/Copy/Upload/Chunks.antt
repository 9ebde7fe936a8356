-- ===== src/Client/Copy/Upload/Chunks.antt =====
-- quish-client/src/cp.rs: the data frames of an upload.
use quish.Base.{
  ℕ, zero, suc, ◌-◌, ◌≤◌, ◌<◌, min, ◌≡◌, sym, ap, ◌∙◌, inl, inr, true, false, some, List, [], ◌∷◌,
  ◌++◌, arith, ◌==◌, Bool-cases, length, take, drop, all, All, take-append-drop, length-take,
  length-drop,
}
use quish.Base.Text.{Bytes}
use quish.Proto.Message.{ChannelMessage, data_msg, data_err, resize, exit_status, signal}
use quish.Client.Copy.Upload.{buffer, send_chunks}

-- `file.read`: at least one byte while there is one, and no more than there are or the buffer holds.
abbrev pub IsRead : (Bytes → ℕ) → Type 0
IsRead read =
    (left : Bytes)
    → (read left ≤ length left) × (read left ≤ buffer) × ((read left ≡ 0) → left ≡ [])

-- The data that a server gets.
abbrev pub contents : List ChannelMessage → Bytes
contents [] = []
contents (data_msg d ∷ ms) = d ++ contents ms
contents (data_err d ∷ ms) = contents ms
contents (resize cols rows ∷ ms) = contents ms
contents (exit_status c ∷ ms) = contents ms
contents (signal s ∷ ms) = contents ms

abbrev pub IsChunk : ChannelMessage → Type 0
IsChunk (data_msg d) = length d ≤ buffer
IsChunk (data_err d) = ⊥
IsChunk (resize cols rows) = ⊥
IsChunk (exit_status c) = ⊥
IsChunk (signal s) = ⊥

rounds : (l n fuel : ℕ) → (n == 0) ≡ false → n ≤ l → l < suc fuel → l - n < fuel
rounds l n fuel e h k = ground arith

zero_read : (n : ℕ) → (n == 0) ≡ true → n ≡ 0
zero_read n e = ground arith

min_left : (n l b : ℕ) → n ≤ b → min n l ≤ b
min_left n l b h = omega arith

length-drop_read :
    (read : Bytes → ℕ) (fuel : ℕ) (left : Bytes)
    → IsRead read
    → (read left == 0) ≡ false
    → length left < suc fuel
    → length (drop (read left) left) < fuel
length-drop_read read fuel left ok n h =
    let (fits, _, _) = ok left in
    rw (length-drop (read left) left) (rounds (length left) (read left) fuel n fits h)

-- As many rounds as the file has bytes, and one more, reach its end, however the reads are cut:
-- every frame is data of at most 32 KiB, and together they are the file.
pub send_chunks_whole :
    (read : Bytes → ℕ) (fuel : ℕ) (left : Bytes)
    → IsRead read
    → length left < fuel
    → (sent : List ChannelMessage) × (send_chunks read fuel left ≡ some sent)
      × (contents sent ≡ left)
      × All IsChunk sent
unfolding send_chunks
send_chunks_whole read zero left ok h = absurd (omega arith)
send_chunks_whole read (suc fuel) left ok h = elim (Bool-cases (read left == 0)) [
  | inl e ↦ ([], rw (send_chunks, e), sym ((ok left).2 (zero_read (read left) e)), tt)
  | inr e ↦
      let (sent, same, all, small) =
        send_chunks_whole read fuel (drop (read left) left) ok
          (length-drop_read read fuel left ok e h) in
      (
        data_msg (take (read left) left) ∷ sent,
        rw (send_chunks, e) (rw same),
        ap (λ t. take (read left) left ++ t) all ∙ take-append-drop (read left) left,
        (
          rw (length-take (read left) left) (min_left (read left) (length left) buffer (ok left).1),
          small,
        ),
      )
]
