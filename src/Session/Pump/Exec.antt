-- ===== src/Session/Pump/Exec.antt =====
-- What a client has received when `pump_exec` says that the output is drained.
use quish.Base.{◌≡◌, Bool, true, false, none, some, List, [], ◌∷◌, arith, if◌then◌else◌}
use quish.Base.Text.{Bytes}
use quish.Proto.Message.{data_msg, data_err, resize, exit_status, signal}
use quish.Session.Pump.Streams.{out_chunks, err_chunks, out_received, err_received}
use quish.Session.Pump.{
  drained, delivered, gone, broken, Event, out, err, frame, Pump, started, exec_step, exec_frame,
  run, pump_exec,
}

abbrev expected : Bool → List Bytes → List Bytes
expected done chunks = if done then [] else chunks

run_out :
    (es : List Event) (p : Pump)
    → (run exec_step es p).0 ≡ drained
    → out_received (run exec_step es p).1 ≡ expected p.out_done (out_chunks es)
unfolding run exec_step exec_frame
run_out [] p h = absurd (cc)
run_out (out (some b) delivered ∷ es) p h = ground (arith, h, run_out es p)
run_out (out (some b) gone ∷ es) p h = ground (arith, h, run_out es p)
run_out (out (some b) broken ∷ es) p h = ground (arith, h, run_out es p)
run_out (out none s ∷ es) p h =
    ground (arith, h, run_out es p, run_out es (record p { out_done = true }))
run_out (err (some b) delivered ∷ es) p h = ground (arith, h, run_out es p)
run_out (err (some b) gone ∷ es) p h = ground (arith, h, run_out es p)
run_out (err (some b) broken ∷ es) p h = ground (arith, h, run_out es p)
run_out (err none s ∷ es) p h =
    ground (arith, h, run_out es p, run_out es (record p { err_done = true }))
run_out (frame none ∷ es) p h =
    ground (arith, h, run_out es p, run_out es (record p { frames_done = true; in_open = false }))
run_out (frame (some (data_msg d)) ∷ es) p h = ground (arith, h, run_out es p)
run_out (frame (some (data_err d)) ∷ es) p h = ground (arith, h, run_out es p)
run_out (frame (some (resize c r)) ∷ es) p h = ground (arith, h, run_out es p)
run_out (frame (some (exit_status c)) ∷ es) p h = ground (arith, h, run_out es p)
run_out (frame (some (signal c)) ∷ es) p h = ground (arith, h, run_out es p)

run_err :
    (es : List Event) (p : Pump)
    → (run exec_step es p).0 ≡ drained
    → err_received (run exec_step es p).1 ≡ expected p.err_done (err_chunks es)
unfolding run exec_step exec_frame
run_err [] p h = absurd (cc)
run_err (out (some b) delivered ∷ es) p h = ground (arith, h, run_err es p)
run_err (out (some b) gone ∷ es) p h = ground (arith, h, run_err es p)
run_err (out (some b) broken ∷ es) p h = ground (arith, h, run_err es p)
run_err (out none s ∷ es) p h =
    ground (arith, h, run_err es p, run_err es (record p { out_done = true }))
run_err (err (some b) delivered ∷ es) p h = ground (arith, h, run_err es p)
run_err (err (some b) gone ∷ es) p h = ground (arith, h, run_err es p)
run_err (err (some b) broken ∷ es) p h = ground (arith, h, run_err es p)
run_err (err none s ∷ es) p h =
    ground (arith, h, run_err es p, run_err es (record p { err_done = true }))
run_err (frame none ∷ es) p h =
    ground (arith, h, run_err es p, run_err es (record p { frames_done = true; in_open = false }))
run_err (frame (some (data_msg d)) ∷ es) p h = ground (arith, h, run_err es p)
run_err (frame (some (data_err d)) ∷ es) p h = ground (arith, h, run_err es p)
run_err (frame (some (resize c r)) ∷ es) p h = ground (arith, h, run_err es p)
run_err (frame (some (exit_status c)) ∷ es) p h = ground (arith, h, run_err es p)
run_err (frame (some (signal c)) ∷ es) p h = ground (arith, h, run_err es p)

-- If the pump ends with the output drained, the client has received every chunk of both streams,
-- each stream in its order and nothing else, whatever the client sent meanwhile.
pub pump_exec_drained :
    (es : List Event)
    → (pump_exec es).0 ≡ drained
    → (out_received (pump_exec es).1 ≡ out_chunks es)
      × (err_received (pump_exec es).1 ≡ err_chunks es)
unfolding pump_exec
pump_exec_drained es h = (run_out es started h, run_err es started h)
