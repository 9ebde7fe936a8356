-- ===== src/Client/Terminal/Output.antt =====
-- What the user sees of a channel.
use quish.Base.{
  ◌≡◌, refl, ap, ◌∙◌, Bool, true, false, Option, none, some, List, [], ◌∷◌, ◌++◌, if◌then◌else◌,
  All,
}
use quish.Base.Int.{ℤ, negsuc}
use quish.Base.Text.{Bytes}
use quish.Proto.Message.{int, quit, ChannelMessage, data_msg, data_err, resize, exit_status, signal}
use quish.Client.Terminal.{
  Event, frame, chunk, window, interrupt, quitting, Action, to_server, to_stdout, to_stderr, finish,
  End, waiting, exited, Pump, Step, send_frame, on_frame, step, go_on, run,
}

abbrev pub stdout_of : List Action → Bytes
stdout_of [] = []
stdout_of (to_server m ∷ actions) = stdout_of actions
stdout_of (to_stdout d ∷ actions) = d ++ stdout_of actions
stdout_of (to_stderr d ∷ actions) = stdout_of actions
stdout_of (finish ∷ actions) = stdout_of actions

abbrev pub stderr_of : List Action → Bytes
stderr_of [] = []
stderr_of (to_server m ∷ actions) = stderr_of actions
stderr_of (to_stdout d ∷ actions) = stderr_of actions
stderr_of (to_stderr d ∷ actions) = d ++ stderr_of actions
stderr_of (finish ∷ actions) = stderr_of actions

pub record Seen : Type 0 where
  pub end : End
  pub output : Bytes
  pub errors : Bytes

abbrev pub seen : End × List Action → Seen
seen (end, actions) = record { end = end; output = stdout_of actions; errors = stderr_of actions }

-- What the frames alone say: each stream in its order, until the status; -1 without one.
abbrev pub shown : List (Option ChannelMessage) → Seen
shown [] = record { end = waiting; output = []; errors = [] }
shown (none ∷ frames) = record { end = exited (negsuc 0); output = []; errors = [] }
shown (some (data_msg d) ∷ frames) =
    let rest = shown frames in record rest { output = d ++ rest.output }
shown (some (data_err d) ∷ frames) =
    let rest = shown frames in record rest { errors = d ++ rest.errors }
shown (some (resize cols rows) ∷ frames) = shown frames
shown (some (exit_status code) ∷ frames) = record { end = exited code; output = []; errors = [] }
shown (some (signal s) ∷ frames) = shown frames

abbrev pub frames_of : List Event → List (Option ChannelMessage)
frames_of [] = []
frames_of (frame m s ∷ es) = m ∷ frames_of es
frames_of (chunk c s ∷ es) = frames_of es
frames_of (window c r s ∷ es) = frames_of es
frames_of (interrupt s ∷ es) = frames_of es
frames_of (quitting s ∷ es) = frames_of es

abbrev pub succeeds : Event → Bool
succeeds (frame m s) = s
succeeds (chunk c s) = s
succeeds (window c r s) = s
succeeds (interrupt s) = s
succeeds (quitting s) = s

closing_seen :
    (b : Bool) (code : ℤ)
    → seen (exited code, (if b then finish ∷ [] else []))
      ≡ record { end = exited code; output = []; errors = [] }
closing_seen true code = refl
closing_seen false code = refl

module _ (interactive : Bool) where
  -- What is seen after one step and the events that follow.
  abbrev after : List Event → Step → Seen
  after es st = seen (go_on st.0.0 st.0.1 st.1 (run interactive es st.1))

  either :
      (b : Bool) (es : List Event) (st st' : Step) {t : Seen}
      → after es st ≡ t
      → after es st' ≡ t
      → after es (if b then st else st') ≡ t
  either true es st st' h h' = h
  either false es st st' h h' = h'

  finishing :
      (b : Bool) (es : List Event) (p : Pump)
      → after es ((waiting, (if b then finish ∷ [] else [])), p) ≡ seen (run interactive es p)
  finishing true es p = refl
  finishing false es p = refl

  sending :
      (msg : ChannelMessage) (s : Bool) (p : Pump) (es : List Event)
      → s ≡ true
      → after es (send_frame msg s p) ≡ seen (run interactive es p)
  unfolding send_frame
  sending msg true p es h = either p.can_send es _ _ refl refl
  sending msg false p es h = absurd (cc)

  -- While no write fails, what the user sees and the status that the client exits with are those
  -- of the frames alone, in their order: the input, the resizes and the interrupts that come in
  -- between change nothing of it.
  pub run-shown :
      (es : List Event) (p : Pump)
      → All (λ e. succeeds e ≡ true) es
      → seen (run interactive es p) ≡ shown (frames_of es)
  unfolding run step on_frame
  run-shown [] p h = refl
  run-shown (frame none s ∷ es) p (h, hs) = closing_seen p.can_send (negsuc 0)
  run-shown (frame (some (data_msg d)) s ∷ es) p (h, hs) =
      rw h (ap (λ (x : Seen). record x { output = d ++ x.output }) (run-shown es p hs))
  run-shown (frame (some (data_err d)) s ∷ es) p (h, hs) =
      rw h (ap (λ (x : Seen). record x { errors = d ++ x.errors }) (run-shown es p hs))
  run-shown (frame (some (resize cols rows)) s ∷ es) p (h, hs) = run-shown es p hs
  run-shown (frame (some (exit_status code)) s ∷ es) p (h, hs) = closing_seen p.can_send code
  run-shown (frame (some (signal x)) s ∷ es) p (h, hs) = run-shown es p hs
  run-shown (chunk none s ∷ es) p (h, hs) =
      let next : Pump = record { can_send = false; stdin_done = true } in
      either p.stdin_done es _ _ (run-shown es p hs)
        (finishing p.can_send es next ∙ run-shown es next hs)
  run-shown (chunk (some b) s ∷ es) p (h, hs) =
      either p.stdin_done es _ _ (run-shown es p hs)
        (sending (data_msg b) s p es h ∙ run-shown es p hs)
  run-shown (window cols rows s ∷ es) p (h, hs) =
      either interactive es _ _ (sending (resize cols rows) s p es h ∙ run-shown es p hs)
        (run-shown es p hs)
  run-shown (interrupt s ∷ es) p (h, hs) =
      either interactive es _ _ (run-shown es p hs)
        (sending (signal int) s p es h ∙ run-shown es p hs)
  run-shown (quitting s ∷ es) p (h, hs) =
      either interactive es _ _ (run-shown es p hs)
        (sending (signal quit) s p es h ∙ run-shown es p hs)
