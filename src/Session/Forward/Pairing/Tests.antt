-- ===== src/Session/Forward/Pairing/Tests.antt =====
-- Tests of the pairing of sockets and data channels.
use quish.Base.{List, [], ◌∷◌, arith}
use quish.Session.Pump.{delivered}
use quish.Session.Forward.{initial}
use quish.Session.Forward.Listen.{accepted}
use quish.Session.Forward.Pairing.{
  Event, listener, data_channel, World, run, IsPaired, run-IsPaired,
}

abbrev nothing : World
nothing = record { park = initial; accepted_by = []; bridged_to = [] }

-- Connection 8 asks for the socket of connection 7, which then takes it, and asks again.
abbrev events : List Event
events =
    listener 7 (accepted 41 delivered) ∷ data_channel 8 1 ∷ data_channel 7 1 ∷ data_channel 7 1 ∷ []

run-IsPaired_example : IsPaired 7 41 (run nothing events)
unfolding initial
run-IsPaired_example = run-IsPaired 7 41 nothing events (omega arith)
