-- ===== src/Session/Pump/Forward/Drained.antt =====
-- What goes through a forward.
use quish.Base.{◌≡◌, Bool, true, false, none, some, List, [], ◌∷◌, arith, if◌then◌else◌}
use quish.Base.Text.{Bytes}
use quish.Proto.Message.{data_msg, data_err, resize, exit_status, signal}
use quish.Session.Pump.Streams.{out_received, input_written}
use quish.Session.Pump.{drained, delivered, gone, broken, Pump, started, run}
use quish.Session.Pump.Forward.{
  Event, from_client, from_service, forward_data, forward_frame, forward_step, pump_forward,
}

-- The chunks of the service up to its end.
abbrev pub service_chunks : List Event → List Bytes
service_chunks [] = []
service_chunks (from_service (some b) s ∷ es) = b ∷ service_chunks es
service_chunks (from_service none s ∷ es) = []
service_chunks (from_client m taken ∷ es) = service_chunks es

-- The data of the client up to the end of its frames or the first write that failed.
abbrev pub client_chunks : List Event → List Bytes
client_chunks [] = []
client_chunks (from_client none taken ∷ es) = []
client_chunks (from_client (some (data_msg d)) true ∷ es) = d ∷ client_chunks es
client_chunks (from_client (some (data_msg d)) false ∷ es) = []
client_chunks (_ ∷ es) = client_chunks es

abbrev expected : Bool → List Bytes → List Bytes
expected done chunks = if done then [] else chunks

run_both :
    (es : List Event) (p : Pump)
    → (run forward_step es p).0 ≡ drained
    → (out_received (run forward_step es p).1 ≡ expected p.out_done (service_chunks es))
      × (input_written (run forward_step es p).1 ≡ expected p.frames_done (client_chunks es))
unfolding run forward_step forward_frame forward_data
run_both [] p h = absurd (cc)
run_both (from_service (some b) delivered ∷ es) p h = ground (arith, h, run_both es p)
run_both (from_service (some b) gone ∷ es) p h = ground (arith, h, run_both es p)
run_both (from_service (some b) broken ∷ es) p h = ground (arith, h, run_both es p)
run_both (from_service none s ∷ es) p h =
    ground (arith, h, run_both es p, run_both es (record p { out_done = true }))
run_both (from_client none taken ∷ es) p h =
    ground (arith, h, run_both es p, run_both es (record p { frames_done = true }))
run_both (from_client (some (data_msg d)) true ∷ es) p h = ground (arith, h, run_both es p)
run_both (from_client (some (data_msg d)) false ∷ es) p h =
    ground (arith, h, run_both es p, run_both es (record p { frames_done = true }))
run_both (from_client (some (data_err d)) t ∷ es) p h = ground (arith, h, run_both es p)
run_both (from_client (some (resize c r)) t ∷ es) p h = ground (arith, h, run_both es p)
run_both (from_client (some (exit_status c)) t ∷ es) p h = ground (arith, h, run_both es p)
run_both (from_client (some (signal c)) t ∷ es) p h = ground (arith, h, run_both es p)

-- If both directions of a forward come to their end, each side has received every chunk of the
-- other, in order and nothing else: the client all that the service sent, and the service all that
-- the client sent up to the first write that it refused.
pub pump_forward_drained :
    (es : List Event)
    → (pump_forward es).0 ≡ drained
    → (out_received (pump_forward es).1 ≡ service_chunks es)
      × (input_written (pump_forward es).1 ≡ client_chunks es)
unfolding pump_forward
pump_forward_drained es h = run_both es started h
