-- ===== src/Session/Pump/Shell.antt =====
-- What a client has received when `pump_shell` says that the output is drained, and what the shell
-- has been given.
use quish.Base.{
  ◌≡◌, refl, inl, inr, Bool, true, false, not, none, some, List, [], ◌∷◌, ◌++◌, arith,
  if◌then◌else◌, Bool-cases,
}
use quish.Base.Text.{Bytes}
use quish.Proto.Message.{data_msg, data_err, resize, exit_status, signal}
use quish.Session.Pump.Streams.{out_chunks, out_received, input_chunks, input_written}
use quish.Session.Pump.{
  drained, delivered, gone, broken, Event, out, err, frame, Pump, started, shell_step, shell_frame,
  run, pump_shell,
}

run_out :
    (es : List Event) (p : Pump)
    → (run shell_step es p).0 ≡ drained
    → out_received (run shell_step es p).1 ≡ out_chunks es
unfolding run shell_step shell_frame
run_out [] p h = absurd (cc)
run_out (out (some b) delivered ∷ es) p h = ground (arith, h, run_out es p)
run_out (out (some b) gone ∷ es) p h = absurd (cc)
run_out (out (some b) broken ∷ es) p h = absurd (cc)
run_out (out none s ∷ es) p h = refl
run_out (err o s ∷ es) p h = run_out es p h
run_out (frame none ∷ es) p h =
    ground (arith, h, run_out es p, run_out es (record p { frames_done = true; in_open = false }))
run_out (frame (some (data_msg d)) ∷ es) p h = ground (arith, h, run_out es p)
run_out (frame (some (data_err d)) ∷ es) p h = ground (arith, h, run_out es p)
run_out (frame (some (resize c r)) ∷ es) p h = ground (arith, h, run_out es p)
run_out (frame (some (exit_status c)) ∷ es) p h = ground (arith, h, run_out es p)
run_out (frame (some (signal c)) ∷ es) p h = ground (arith, h, run_out es p)

Given : Bool → List Bytes → List Bytes → Type 0
Given done input written = (rest : List Bytes) × ((if done then [] else input) ≡ written ++ rest)

run_input :
    (es : List Event) (p : Pump)
    → p.in_open ≡ not p.frames_done
    → Given p.frames_done (input_chunks es) (input_written (run shell_step es p).1)
unfolding run shell_step shell_frame Given
run_input [] p h = (_, refl)
run_input (out (some b) delivered ∷ es) p h = run_input es p h
run_input (out (some b) gone ∷ es) p h = (_, refl)
run_input (out (some b) broken ∷ es) p h = (_, refl)
run_input (out none s ∷ es) p h = (_, refl)
run_input (err o s ∷ es) p h = run_input es p h
run_input (frame none ∷ es) p h = elim (Bool-cases p.frames_done) [
  | inl e ↦ let (rest, given) = run_input es p h in (rest, ground (arith, e, given))
  | inr e ↦
      let (rest, given) = run_input es (record p { frames_done = true; in_open = false }) refl in
      (rest, ground (arith, e, given))
]
run_input (frame (some (data_msg d)) ∷ es) p h =
    let (rest, given) = run_input es p h in (rest, ground (arith, h, given))
run_input (frame (some (data_err d)) ∷ es) p h =
    let (rest, given) = run_input es p h in (rest, ground (arith, h, given))
run_input (frame (some (resize c r)) ∷ es) p h =
    let (rest, given) = run_input es p h in (rest, ground (arith, h, given))
run_input (frame (some (exit_status c)) ∷ es) p h =
    let (rest, given) = run_input es p h in (rest, ground (arith, h, given))
run_input (frame (some (signal c)) ∷ es) p h =
    let (rest, given) = run_input es p h in (rest, ground (arith, h, given))

-- If the pump ends with the output drained, the client has received every chunk of the terminal's
-- output, in order and nothing else, whatever it sent meanwhile.
pub pump_shell_drained :
    (es : List Event) → (pump_shell es).0 ≡ drained → out_received (pump_shell es).1 ≡ out_chunks es
unfolding pump_shell
pump_shell_drained es h = run_out es started h

-- However the pump ends, what the shell got on its standard input is a first part of the data that
-- the client sent before its frames ended, in order and nothing else.
pub pump_shell_input :
    (es : List Event)
    → (rest : List Bytes) × (input_chunks es ≡ input_written (pump_shell es).1 ++ rest)
unfolding pump_shell Given
pump_shell_input es = run_input es started refl
