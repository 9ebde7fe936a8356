-- ===== src/Client/Terminal/Tests.antt =====
-- Tests of the pump of a terminal.
-- A command whose input is empty: an interrupt after that is not sent.
use quish.Base.{◌≡◌, refl, inl, true, false, none, some, List, [], ◌∷◌}
use quish.Base.Int.{pos}
use quish.Proto.Message.{int, data_msg, exit_status, signal}
use quish.Client.Terminal.{
  Event, frame, chunk, interrupt, to_server, to_stdout, finish, waiting, exited, send_frame,
  on_frame, step, run, started,
}
use quish.Client.Terminal.Output.{seen, shown, frames_of, run-shown}
use quish.Client.Terminal.Closed.{sent, run-sent}

abbrev exec_events : List Event
exec_events =
    chunk none true
    ∷ frame (some (data_msg (65 ∷ []))) true
    ∷ interrupt true
    ∷ frame (some (data_msg (66 ∷ []))) true
    ∷ frame (some (exit_status (pos 3))) true
    ∷ []

swallowed :
    run false exec_events started
    ≡ (exited (pos 3), finish ∷ to_stdout (65 ∷ []) ∷ to_stdout (66 ∷ []) ∷ [])
unfolding run step send_frame on_frame
swallowed = refl

-- Before that, it is.
forwarded : run false (interrupt true ∷ []) started ≡ (waiting, to_server (signal int) ∷ [])
unfolding run step send_frame
forwarded = refl

run-sent_example :
    sent (run false (interrupt true ∷ (chunk none true ∷ interrupt true ∷ [])) started).1
    ≡ sent (run false (interrupt true ∷ []) started).1
run-sent_example =
    run-sent false (interrupt true ∷ []) (interrupt true ∷ []) true started (inl refl)

run-shown_example : seen (run false exec_events started) ≡ shown (frames_of exec_events)
run-shown_example = run-shown false exec_events started (refl, (refl, (refl, (refl, (refl, tt)))))
