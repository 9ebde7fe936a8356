-- ===== src/Session/Pump/Forward/Tests.antt =====
-- Tests of the pump of a forward.
use quish.Base.{◌≡◌, refl, true, false, none, some, List, [], ◌∷◌}
use quish.Base.Text.{codes}
use quish.Proto.Message.{data_msg}
use quish.Session.Pump.Streams.{out_received, input_written}
use quish.Session.Pump.{delivered, run}
use quish.Session.Pump.Forward.{
  Event, from_client, from_service, pump_forward, forward_step, forward_frame, forward_data,
}

-- The client sends twice, of which the service refuses the second, and the service answers.
abbrev a_forward : List Event
a_forward =
    from_client (some (data_msg (codes "q"))) true
    ∷ from_service (some (codes "r")) delivered
    ∷ from_client (some (data_msg (codes "x"))) false
    ∷ from_service none delivered
    ∷ []

refused_write :
    (out_received (pump_forward a_forward).1 ≡ codes "r" ∷ [])
    × (input_written (pump_forward a_forward).1 ≡ codes "q" ∷ [])
unfolding pump_forward run forward_step forward_frame forward_data
refused_write = (refl, refl)
