-- ===== src/Client/Bridge/Forwarded.antt =====
-- A bridge of the client and `pump_forward` of the server at the two ends of a channel.
use quish.Base.{◌≡◌, refl, ap, ◌∙◌, Bool, true, false, Option, none, some, List, [], ◌∷◌, map, All}
use quish.Base.Text.{Bytes}
use quish.Proto.Message.{ChannelMessage, data_msg, data_err, resize, exit_status, signal}
use quish.Session.Pump.{drained}
use quish.Session.Pump.Streams.{out_received, input_written}
use quish.Session.Pump.Forward.{Event, from_client, from_service, pump_forward}
use quish.Session.Pump.Forward.Drained.{service_chunks, client_chunks, pump_forward_drained}
use quish.Client.Bridge.{up, down}

-- What the local socket gave until its end, or until a frame could not be sent.
abbrev pub read_chunks : List (Option Bytes × Bool) → List Bytes
read_chunks [] = []
read_chunks ((none, s) ∷ reads) = []
read_chunks ((some d, true) ∷ reads) = d ∷ read_chunks reads
read_chunks ((some d, false) ∷ reads) = []

-- The frames that reach the server, and whether its service takes all data.
abbrev pub frames_in : List Event → List ChannelMessage
frames_in [] = []
frames_in (from_client none t ∷ es) = []
frames_in (from_client (some m) t ∷ es) = m ∷ frames_in es
frames_in (from_service o s ∷ es) = frames_in es

abbrev pub is_taken : Event → Bool
is_taken (from_client m t) = t
is_taken (from_service o s) = true

abbrev data_of : List ChannelMessage → List Bytes
data_of [] = []
data_of (data_msg d ∷ ms) = d ∷ data_of ms
data_of (data_err d ∷ ms) = data_of ms
data_of (resize c r ∷ ms) = data_of ms
data_of (exit_status c ∷ ms) = data_of ms
data_of (signal x ∷ ms) = data_of ms

data_of-up : (reads : List (Option Bytes × Bool)) → data_of (up reads) ≡ read_chunks reads
unfolding up
data_of-up [] = refl
data_of-up ((none, s) ∷ reads) = refl
data_of-up ((some d, true) ∷ reads) = ap (λ t. d ∷ t) (data_of-up reads)
data_of-up ((some d, false) ∷ reads) = refl

client_chunks-data_of :
    (es : List Event) → All (λ e. is_taken e ≡ true) es → client_chunks es ≡ data_of (frames_in es)
client_chunks-data_of [] h = refl
client_chunks-data_of (from_client none t ∷ es) h = refl
client_chunks-data_of (from_client (some (data_msg d)) true ∷ es) (h, hs) =
    ap (λ t. d ∷ t) (client_chunks-data_of es hs)
client_chunks-data_of (from_client (some (data_msg d)) false ∷ es) (h, hs) = absurd (cc)
client_chunks-data_of (from_client (some (data_err d)) t ∷ es) (h, hs) = client_chunks-data_of es hs
client_chunks-data_of (from_client (some (resize c r)) t ∷ es) (h, hs) = client_chunks-data_of es hs
client_chunks-data_of (from_client (some (exit_status c)) t ∷ es) (h, hs) =
    client_chunks-data_of es hs
client_chunks-data_of (from_client (some (signal x)) t ∷ es) (h, hs) = client_chunks-data_of es hs
client_chunks-data_of (from_service o s ∷ es) (h, hs) = client_chunks-data_of es hs

down-data : (chunks : List Bytes) → down (map (λ d. (data_msg d, true)) chunks) ≡ chunks
unfolding down
down-data [] = refl
down-data (d ∷ chunks) = ap (λ t. d ∷ t) (down-data chunks)

-- A forward whose two directions come to their end, where the server gets the frames that the
-- client's bridge sent and both sockets take what they are given: the service gets the chunks of
-- the local socket, and the local socket those of the service, each in order and nothing else.
pub pump_forward-up :
    (reads : List (Option Bytes × Bool)) (es : List Event)
    → (pump_forward es).0 ≡ drained
    → frames_in es ≡ up reads
    → All (λ e. is_taken e ≡ true) es
    → (input_written (pump_forward es).1 ≡ read_chunks reads)
      × (down (map (λ d. (data_msg d, true)) (out_received (pump_forward es).1))
          ≡ service_chunks es)
pump_forward-up reads es h f t =
    let (received, written) = pump_forward_drained es h in
    (
      written ∙ client_chunks-data_of es t ∙ ap data_of f ∙ data_of-up reads,
      down-data (out_received (pump_forward es).1) ∙ received,
    )
