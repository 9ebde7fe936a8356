-- ===== src/Client/Copy/Download.antt =====
-- quish-client/src/cp.rs: `download_one`. The local files are a function of the path; what the
-- system and the connection answer is part of the input.
pub mod Files
mod Tests
use quish.Base.{
  ℕ, zero, suc, ◌+◌, ◌-◌, ◌*◌, ◌/◌, ◌%◌, ◌^◌, ◌≤◌, ◌<◌, min, ◌≡◌, refl, sym, ap, ◌∙◌, ◌≢◌, ◌↔◌, ◌⊎◌,
  inl, inr, Bool, true, false, not, ◌&&◌, ◌||◌, Option, none, some, List, [], ◌∷◌, ◌++◌, map,
  reverse, arith, ltb, leb, ◌==◌, if◌then◌else◌, ltb→lt, lt→ltb, ltb→ge, ge→ltb, leb→le, ==_iff,
  ==_refl, Bool-cases, Option-cases, ◌>>=◌, unwrap_or, is_some, length, get_elem?, get_or, take,
  drop, is_empty, any, all, retain, All, length-append, take-append_length, drop-append_length,
  take-append-drop, take-append_le, drop-append_le, length-take, length-drop,
}
use quish.Base.Int.{ℤ, pos, negsuc}
use quish.Base.Text.{Bytes, bytes_eq}
use quish.Proto.Message.{ChannelMessage, data_msg, data_err, resize, exit_status, signal}

abbrev pub Files : Type 0
Files = Bytes → Option Bytes

abbrev pub set : Bytes → Option Bytes → Files → Files
set path content files p = if bytes_eq p path then content else files p

-- `reader.next()`: a message, and for data after how many bytes the write failed, if it did; or an
-- error. The end of the events is the end of the stream.
pub data Event : Type 0 where
  got : ChannelMessage → Option ℕ → Event
  lost : Event

-- What the loop stopped at.
pub data Ended : Type 0 where
  status : ℤ → Ended
  closed transport_err : Ended

-- `file.write_all`.
abbrev pub append_file : Bytes → Bytes → Files → Files
append_file path d files = set path (some (unwrap_or (files path) [] ++ d)) files

pub receive : Bytes → List Event → Files → Files × Ended
receive temp [] files = (files, closed)
receive temp (lost ∷ es) files = (files, transport_err)
receive temp (got (data_msg d) none ∷ es) files = receive temp es (append_file temp d files)
receive temp (got (data_msg d) (some n) ∷ es) files =
    (append_file temp (take n d) files, transport_err)
receive temp (got (exit_status c) w ∷ es) files = (files, status c)
receive temp (got (data_err d) w ∷ es) files = receive temp es files
receive temp (got (resize cols rows) w ∷ es) files = receive temp es files
receive temp (got (signal s) w ∷ es) files = receive temp es files

-- Which of the calls succeed: the channel and its open, `File::create`, `flush`, `rename` and
-- `remove_file`.
pub record Answers : Type 0 where
  pub opened : Bool
  pub created : Bool
  pub flushed : Bool
  pub renamed : Bool
  pub removed : Bool

-- The exit code, or an error.
pub data Outcome : Type 0 where
  code : ℤ → Outcome
  failed : Outcome

-- `let _ = std::fs::remove_file(&temp_path)`.
abbrev pub remove_file : Answers → Bytes → Files → Files
remove_file a temp files = if a.removed then set temp none files else files

abbrev pub rename : Bytes → Bytes → Files → Files
rename temp path files = set temp none (set path (files temp) files)

-- After the loop.
pub conclude : Answers → Bytes → Bytes → Files × Ended → Files × Outcome
conclude a temp path (files, transport_err) = (remove_file a temp files, failed)
conclude a temp path (files, closed) = (remove_file a temp files, failed)
conclude a temp path (files, status (pos zero)) =
    if not a.flushed
    then (files, failed)
    else if not a.renamed
    then (files, failed)
    else (rename temp path files, code (pos 0))
conclude a temp path (files, status (pos (suc n))) = (remove_file a temp files, code (pos (suc n)))
conclude a temp path (files, status (negsuc n)) = (remove_file a temp files, code (negsuc n))

pub download_one : Answers → Bytes → Bytes → List Event → Files → Files × Outcome
unfolding receive conclude
download_one a temp path es files =
    if not a.opened
    then (files, failed)
    else if not a.created
    then (files, failed)
    else conclude a temp path (receive temp es (set temp (some []) files))
