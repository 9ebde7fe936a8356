-- ===== src/Session/Pump/Tests.antt =====
-- Tests of the pumps.
use quish.Base.{◌≡◌, refl, none, some, List, [], ◌∷◌}
use quish.Base.Text.{codes}
use quish.Proto.Message.{data_msg, resize, signal, int}
use quish.Session.Pump.Streams.{out_received, err_received}
use quish.Session.Pump.{
  client_gone, delivered, gone, to_signal, Event, out, err, frame, run, exec_step, exec_frame,
  pump_exec,
}
use quish.Session.Pump.Exec.{pump_exec_drained}

-- Both streams with the client's input and an interrupt between them.
abbrev a_command : List Event
a_command =
    out (some (codes "a")) delivered
    ∷ frame (some (data_msg (codes "in")))
    ∷ err (some (codes "e")) delivered
    ∷ frame none
    ∷ err none delivered
    ∷ out (some (codes "b")) delivered
    ∷ out none delivered
    ∷ []

abbrev a_shell : List Event
a_shell =
    out (some (codes "$ ")) delivered
    ∷ frame (some (resize 80 24))
    ∷ frame (some (data_msg (codes "exit")))
    ∷ frame none
    ∷ frame (some (data_msg (codes "late")))
    ∷ out none delivered
    ∷ []

client_hangs_up :
    pump_exec (frame (some (signal int)) ∷ out (some (codes "a")) gone ∷ a_command)
    ≡ (client_gone, to_signal int ∷ [])
unfolding pump_exec run exec_step exec_frame
client_hangs_up = refl

pump_exec_drained_example :
    (out_received (pump_exec a_command).1 ≡ codes "a" ∷ codes "b" ∷ [])
    × (err_received (pump_exec a_command).1 ≡ codes "e" ∷ [])
unfolding pump_exec run exec_step exec_frame
pump_exec_drained_example = pump_exec_drained a_command refl
