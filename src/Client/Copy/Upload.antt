-- ===== src/Client/Copy/Upload.antt =====
-- quish-client/src/cp.rs: `upload_one`, `mkdir_one`, `upload_tree` and `await_status`.
pub mod Chunks
pub mod Tree
mod Tests
use quish.Base.{
  ℕ, zero, suc, ◌+◌, ◌-◌, ◌*◌, ◌/◌, ◌%◌, ◌^◌, ◌≤◌, ◌<◌, min, ◌≡◌, refl, sym, ap, ◌∙◌, ◌≢◌, ◌↔◌, ◌⊎◌,
  inl, inr, Bool, true, false, not, ◌&&◌, ◌||◌, Option, none, some, List, [], ◌∷◌, ◌++◌, map,
  reverse, arith, ltb, leb, ◌==◌, if◌then◌else◌, ltb→lt, lt→ltb, ltb→ge, ge→ltb, leb→le, ==_iff,
  ==_refl, Bool-cases, Option-cases, ◌>>=◌, unwrap_or, is_some, length, get_elem?, get_or, take,
  drop, is_empty, any, all, retain, All, length-append, take-append_length, drop-append_length,
  take-append-drop, take-append_le, drop-append_le, length-take, length-drop,
}
use quish.Base.Int.{ℤ, pos, negsuc}
use quish.Base.Text.{Bytes, codes}
use quish.Proto.Message.{ChannelMessage, data_msg, data_err, resize, exit_status, signal}
use quish.Client.Copy.Walk.{WalkDir, Walk}

-- The 32 KiB buffer.
abbrev pub buffer : ℕ
buffer = 32 * 1024

-- The loop of reads: `read left` is how many bytes `file.read` returns when `left` is what the file
-- has left. `none` is a loop that is not over when the fuel is.
pub send_chunks : (Bytes → ℕ) → ℕ → Bytes → Option (List ChannelMessage)
send_chunks read zero left = none
send_chunks read (suc fuel) left =
    let n = read left in
    let rest = send_chunks read fuel (drop n left) in
    if n == 0 then some [] else (rest >>= λ sent. some (data_msg (take n left) ∷ sent))

-- `await_status`: the first exit status; `none` when the frames end first.
pub await_status : List ChannelMessage → Option ℤ
await_status [] = none
await_status (exit_status c ∷ ms) = some c
await_status (data_msg d ∷ ms) = await_status ms
await_status (data_err d ∷ ms) = await_status ms
await_status (resize cols rows ∷ ms) = await_status ms
await_status (signal s ∷ ms) = await_status ms

-- A channel of its own for each: a directory with its mode, or a local file to a remote path.
pub data Op : Type 0 where
  mkdir_one : Bytes → ℕ → Op
  upload_one : Bytes → Bytes → Op

-- The exit code, or an error.
pub data Outcome : Type 0 where
  code : ℤ → Outcome
  failed : Outcome

-- `remote_root/rel`.
abbrev pub below : Bytes → Bytes → Bytes
below root rel = root ++ b'/' ∷ rel

-- The operations that `upload_tree` goes through, in order; `local rel` is `local_root.join(rel)`.
pub tree_ops : (Bytes → Bytes) → Bytes → ℕ → Walk → List Op
tree_ops local root mode walk =
    mkdir_one root mode
    ∷ (map (λ d. mkdir_one (below root d.rel) d.mode) walk.dirs
        ++ map (λ f. upload_one (local f) (below root f)) walk.files)

-- An operation fails, or ends with a code; the first that does not end with 0 is the last.
-- `S` is what the operations change.
module _ {S : Type 0} (perform : Op → S → Outcome × S) where
  pub run_ops : List Op → S → Outcome × S
  run_ops [] s = (code (pos 0), s)
  run_ops (op ∷ ops) s =
      let (result, s') = perform op s in
      let rest = run_ops ops s' in
      elim result [
        | failed ↦ (failed, s')
        | code (pos zero) ↦ rest
        | code (pos (suc n)) ↦ (code (pos (suc n)), s')
        | code (negsuc n) ↦ (code (negsuc n), s')
      ]

  pub upload_tree : (Bytes → Bytes) → Bytes → ℕ → Walk → S → Outcome × S
  unfolding run_ops tree_ops
  upload_tree local root mode walk = run_ops (tree_ops local root mode walk)
