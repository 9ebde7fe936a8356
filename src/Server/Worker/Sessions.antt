-- ===== src/Server/Worker/Sessions.antt =====
-- quish-server/src/worker.rs on quish-server/src/monitor.rs: what becomes of the session of a
-- channel, while other channels use the same monitor and the control channel may fail.
use quish.Base.{
  ℕ, ◌≡◌, refl, ap, ◌∙◌, ◌⊎◌, inl, inr, Bool, true, false, Option, none, some, List, [], ◌∷◌, map,
  ==_refl, if◌then◌else◌,
}
use quish.Proto.Message.{Signal}
use quish.Server.Monitor.{Request, Response, State, Host, Child}
use quish.Server.Monitor.Requests.{Recv, handle, serve}
use quish.Server.Monitor.Requests.Alive.{handle-reap-sessions}
use quish.Server.Worker.{ChannelOpen, done, Channel, World, serve_open}
use quish.Server.Worker.Requests.{Session, AllReaped, calls, serve_open-AllReaped}

-- One call of the channel. The lock is taken for each call, so the monitor may serve any requests
-- of the other channels before it; then the call may not reach the monitor, or its answer may be
-- lost. `host` is the system at the call.
pub record Turn : Type 0 where
  pub others : List Recv
  pub host : Host
  pub reaches : Bool
  pub answered : Bool

-- The monitor with the calls to come; with none left the control channel is closed.
pub record Shared : Type 0 where
  pub state : State
  pub turns : List Turn

abbrev pub taken : Turn → List Turn → Request → State → Option (Response × List ℕ) × Shared
taken t ts req st =
    let out = handle t.host req st in
    if t.reaches
    then (
      (if t.answered then some (out.reply, out.fds) else none),
      record { state = out.state; turns = ts },
    )
    else (none, record { state = st; turns = ts })

abbrev pub ask_from : List Turn → Request → State → Option (Response × List ℕ) × Shared
ask_from [] req st = (none, record { state = st; turns = [] })
ask_from (t ∷ ts) req st = taken t ts req (serve t.others st).1

abbrev pub ask : Request → Shared → Option (Response × List ℕ) × Shared
ask req m = ask_from m.turns req m.state

-- The next call reaches the monitor.
abbrev pub reached : List Turn → Bool
reached [] = false
reached (t ∷ ts) = t.reaches

gone : (o : Option Child) → ((c : Child) → o ≡ some c → ⊥) → o ≡ none
gone none h = refl
gone (some c) h = absurd (h c refl)

reaped_none :
    (host : Host) (id : ℕ) (st : State)
    → (handle host (Request.reap id) st).state.sessions id ≡ none
reaped_none host id st =
    gone _ (λ c e. absurd (cc (==_refl id, (handle-reap-sessions host id st id c e).0)))

ask-reap :
    (turns : List Turn) (id : ℕ) (st : State)
    → reached turns ≡ true
    → (ask_from turns (Request.reap id) st).1.state.sessions id ≡ none
ask-reap [] id st h = absurd (cc)
ask-reap (t ∷ ts) id st h = rw h (reaped_none t.host id (serve t.others st).1)

-- No request, and the monitor as it was; or a session, which the monitor does not have any more, if
-- the reaping reached it.
abbrev pub SessionEnded : World Shared → World Shared → Type 0
SessionEnded w w' =
    ((w'.requests ≡ w.requests) × (w'.monitor ≡ w.monitor))
    ⊎ ((req : Request) × (id : ℕ) × (ss : List Signal) × Session ask req id ss w w'
        × (reached (calls ask (req ∷ map (λ s. Request.signal id s) ss) w.monitor).turns ≡ true
            → w'.monitor.state.sessions id ≡ none))

ended : (w w' : World Shared) → AllReaped ask w w' → SessionEnded w w'
ended w w' (inl same) = inl same
ended w w' (inr (req, id, ss, session)) =
    let last = calls ask (req ∷ map (λ s. Request.signal id s) ss) w.monitor in
    inr (
      req,
      id,
      ss,
      session,
      λ r. ap (λ (m : Shared). m.state.sessions id) session.2 ∙ ask-reap last.turns id last.state r,
    )

-- When a channel of any kind is served without an error, whatever requests of other channels the
-- monitor serves between its calls and whichever of its calls fail, it made no request and left the
-- monitor as it was, or it made one that was answered with a session and its descriptors, then only
-- signals for that session, and last the session's reaping; if the reaping reached the monitor,
-- the monitor has no child under that number afterwards.
pub serve_open-SessionEnded :
    (conn_id : ℕ) (o : ChannelOpen) (ch : Channel) (w : World Shared)
    → (serve_open ask conn_id o ch w).0 ≡ done
    → SessionEnded w (serve_open ask conn_id o ch w).1
serve_open-SessionEnded conn_id o ch w h =
    ended w (serve_open ask conn_id o ch w).1 (serve_open-AllReaped ask conn_id o ch w h)
