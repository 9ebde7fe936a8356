-- ===== src/Session/Pump/Streams.antt =====
-- What goes through a pump, read off the events alone, and off what the pump did.
use quish.Base.{none, some, List, [], ◌∷◌}
use quish.Base.Text.{Bytes}
use quish.Proto.Message.{data_msg, data_err}
use quish.Session.Pump.{Action, to_client, to_stdin, Event, out, err, frame}

-- The chunks of a stream up to its end, read off the events alone.
abbrev pub out_chunks : List Event → List Bytes
out_chunks [] = []
out_chunks (out (some b) s ∷ es) = b ∷ out_chunks es
out_chunks (out none s ∷ es) = []
out_chunks (err o s ∷ es) = out_chunks es
out_chunks (frame m ∷ es) = out_chunks es

abbrev pub err_chunks : List Event → List Bytes
err_chunks [] = []
err_chunks (err (some b) s ∷ es) = b ∷ err_chunks es
err_chunks (err none s ∷ es) = []
err_chunks (out o s ∷ es) = err_chunks es
err_chunks (frame m ∷ es) = err_chunks es

-- What the client received of each stream.
abbrev pub out_received : List Action → List Bytes
out_received [] = []
out_received (to_client (data_msg b) ∷ xs) = b ∷ out_received xs
out_received (_ ∷ xs) = out_received xs

abbrev pub err_received : List Action → List Bytes
err_received [] = []
err_received (to_client (data_err b) ∷ xs) = b ∷ err_received xs
err_received (_ ∷ xs) = err_received xs

-- The data that the client sent before its frames ended, and what came to the child.
abbrev pub input_chunks : List Event → List Bytes
input_chunks [] = []
input_chunks (frame none ∷ es) = []
input_chunks (frame (some (data_msg d)) ∷ es) = d ∷ input_chunks es
input_chunks (_ ∷ es) = input_chunks es

abbrev pub input_written : List Action → List Bytes
input_written [] = []
input_written (to_stdin d ∷ xs) = d ∷ input_written xs
input_written (_ ∷ xs) = input_written xs
