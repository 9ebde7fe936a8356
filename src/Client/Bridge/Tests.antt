-- ===== src/Client/Bridge/Tests.antt =====
-- Tests of a bridge.
use quish.Base.{◌≡◌, refl, Bool, true, Option, none, some, List, [], ◌∷◌, map}
use quish.Base.Text.{Bytes, codes}
use quish.Proto.Message.{data_msg}
use quish.Session.Pump.{delivered, run}
use quish.Session.Pump.Streams.{out_received, input_written}
use quish.Session.Pump.Forward.{
  Event, from_client, from_service, pump_forward, forward_step, forward_frame, forward_data,
}
use quish.Client.Bridge.{up, down}
use quish.Client.Bridge.Forwarded.{pump_forward-up}

abbrev reads : List (Option Bytes × Bool)
reads = (some (codes "q"), true) ∷ (none, true) ∷ []

-- The server gets a question, and its service answers and closes.
abbrev a_forward : List Event
a_forward =
    from_client (some (data_msg (codes "q"))) true
    ∷ from_service (some (codes "r")) delivered
    ∷ from_client none true
    ∷ from_service none delivered
    ∷ []

pump_forward-up_example :
    (input_written (pump_forward a_forward).1 ≡ codes "q" ∷ [])
    × (down (map (λ d. (data_msg d, true)) (out_received (pump_forward a_forward).1))
        ≡ codes "r" ∷ [])
unfolding pump_forward run forward_step forward_frame forward_data up
pump_forward-up_example =
    pump_forward-up reads a_forward refl refl (refl, (refl, (refl, (refl, tt))))
