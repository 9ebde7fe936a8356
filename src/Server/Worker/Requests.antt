-- ===== src/Server/Worker/Requests.antt =====
-- quish-server/src/worker.rs: the requests that a channel makes of the monitor.
use mathlib.Core.Option.{some-injective}
use mathlib.Core.List.{append_assoc, append-nil}
use quish.Base.Int.{ℤ}
use quish.Base.{
  ℕ, ◌≡◌, refl, sym, ap, ◌∙◌, ◌⊎◌, inl, inr, Option, none, some, List, [], ◌∷◌, ◌++◌, ◌==◌, map,
  length, Bool-cases, Option-cases,
}
use quish.Base.Text.{Bytes}
use quish.Proto.Message.{Signal}
use quish.Server.Monitor.{Request, Response, verdict, challenged, spawned, exited, failed, closed}
use quish.Session.Pump.{
  End, waiting, drained, client_gone, failed, delivered, gone, broken, Sent, pump_shell, pump_exec,
}
use quish.Server.Worker.{
  ChannelOpen, shell, exec, forward, read_file, write_file, mk_dir, remote_forward_listen,
  remote_forward_data, spawn_arg_ok, Outcome, done, Channel, World, frames_of, signals_of,
  send_chunks, session_of, call_monitor, reap, send_signals, send_frames, send_status, settle,
  run_shell, run_exec, run_transfer, run_transfer_write, spawn, bounded, serve_open,
}

pub Sent-cases : (s : Sent) → (s ≡ delivered) ⊎ ((s ≡ gone) ⊎ (s ≡ broken))
Sent-cases delivered = inl refl
Sent-cases gone = inr (inl refl)
Sent-cases broken = inr (inr refl)

module _ {ℓ} {M : Type ℓ} (call : Request → M → Option (Response × List ℕ) × M) where
  send_status-requests :
      (ch : Channel) (code : ℤ) (w : World M) → (send_status call ch code w).1.requests ≡ w.requests
  unfolding send_status
  send_status-requests ch code w = elim (Sent-cases ch.status) [
    | inl e ↦ rw (send_status, e)
    | inr (inl e) ↦ rw (send_status, e)
    | inr (inr e) ↦ rw (send_status, e)
  ]

  send_status-monitor :
      (ch : Channel) (code : ℤ) (w : World M) → (send_status call ch code w).1.monitor ≡ w.monitor
  unfolding send_status
  send_status-monitor ch code w = elim (Sent-cases ch.status) [
    | inl e ↦ rw (send_status, e)
    | inr (inl e) ↦ rw (send_status, e)
    | inr (inr e) ↦ rw (send_status, e)
  ]

  -- The monitor after these requests.
  abbrev pub calls : List Request → M → M
  calls [] m = m
  calls (r ∷ rs) m = calls rs (call r m).1

  settle-monitor :
      (ch : Channel) (id : ℕ) (end : End) (w : World M)
      → (settle call ch id end w).0 ≡ done
      → (settle call ch id end w).1.monitor ≡ (call (Request.reap id) w.monitor).1
  unfolding settle reap call_monitor
  settle-monitor ch id waiting w h = absurd (cc)
  settle-monitor ch id failed w h = absurd (cc)
  settle-monitor ch id drained w h = send_status-monitor ch _ _
  settle-monitor ch id client_gone w h = refl

  send_signals-monitor :
      (id : ℕ) (ss : List Signal) (w : World M)
      → (send_signals call id ss w).monitor ≡ calls (map (λ s. Request.signal id s) ss) w.monitor
  unfolding send_signals call_monitor
  send_signals-monitor id [] w = refl
  send_signals-monitor id (s ∷ ss) w =
      send_signals-monitor id ss (call_monitor call (Request.signal id s) w).1

  settle-requests :
      (ch : Channel) (id : ℕ) (end : End) (w : World M)
      → (settle call ch id end w).0 ≡ done
      → (settle call ch id end w).1.requests ≡ w.requests ++ Request.reap id ∷ []
  unfolding settle reap call_monitor
  settle-requests ch id waiting w h = absurd (cc)
  settle-requests ch id failed w h = absurd (cc)
  settle-requests ch id drained w h = send_status-requests ch _ _
  settle-requests ch id client_gone w h = refl

  send_signals-requests :
      (id : ℕ) (ss : List Signal) (w : World M)
      → (send_signals call id ss w).requests ≡ w.requests ++ map (λ s. Request.signal id s) ss
  unfolding send_signals call_monitor
  send_signals-requests id [] w = sym (append-nil w.requests)
  send_signals-requests id (s ∷ ss) w =
      send_signals-requests id ss (call_monitor call (Request.signal id s) w).1
      ∙ append_assoc w.requests (Request.signal id s ∷ []) (map (λ t. Request.signal id t) ss)

  -- What a session adds to the requests: its signals, and its reaping as the last one.
  abbrev Reaps : (ℕ → World M → Outcome × World M) → Type ℓ
  Reaps body =
      (id : ℕ) (w : World M)
      → (body id w).0 ≡ done
      → (ss : List Signal) × ((body id w).1.requests
          ≡ w.requests ++ (map (λ s. Request.signal id s) ss ++ Request.reap id ∷ []))
        × ((body id w).1.monitor
            ≡ (call (Request.reap id) (calls (map (λ s. Request.signal id s) ss) w.monitor)).1)

  run_shell-Reaps : (ch : Channel) → Reaps (run_shell call ch)
  unfolding run_shell
  run_shell-Reaps ch id w h = elim (Bool-cases ch.cloned) [
    | inl e ↦ (
      [],
      rw (run_shell, e)
          (settle-requests ch id (pump_shell ch.events).0
            (send_frames call (frames_of (pump_shell ch.events).1) w) (rw (run_shell, e) at h)),
      rw (run_shell, e)
          (settle-monitor ch id (pump_shell ch.events).0
            (send_frames call (frames_of (pump_shell ch.events).1) w) (rw (run_shell, e) at h)),
    )
    | inr e ↦ absurd (cc (rw (run_shell, e) at h))
  ]

  run_exec-Reaps : (ch : Channel) → Reaps (run_exec call ch)
  unfolding run_exec
  run_exec-Reaps ch id w h =
      let (end, actions) = pump_exec ch.events in
      let sent = send_frames call (frames_of actions) w in
      let ss = signals_of actions in
      (
        ss,
        settle-requests ch id end (send_signals call id ss sent) h
            ∙ ap (λ rs. rs ++ Request.reap id ∷ []) (send_signals-requests id ss sent)
            ∙ append_assoc w.requests (map (λ s. Request.signal id s) ss) (Request.reap id ∷ []),
        settle-monitor ch id end (send_signals call id ss sent) h
            ∙ ap (λ m. (call (Request.reap id) m).1) (send_signals-monitor id ss sent),
      )

  run_transfer-Reaps : (ch : Channel) → Reaps (run_transfer call ch)
  unfolding run_transfer
  run_transfer-Reaps ch id w h =
      let (end, frames) = send_chunks ch.chunks in
      (
        [],
        settle-requests ch id end (send_frames call frames w) h,
        settle-monitor ch id end (send_frames call frames w) h,
      )

  run_transfer_write-Reaps : (ch : Channel) → Reaps (run_transfer_write call ch)
  unfolding run_transfer_write reap call_monitor
  run_transfer_write-Reaps ch id w h = ([], send_status-requests ch _ _, send_status-monitor ch _ _)

  session_of-spawned :
      (count id : ℕ) (r : Option (Response × List ℕ))
      → session_of count r ≡ some id
      → (fds : List ℕ) × (r ≡ some (spawned id, fds))
  unfolding session_of
  session_of-spawned count id none h = absurd (cc)
  session_of-spawned count id (some (spawned j, fds)) h = elim (Bool-cases (length fds == count)) [
    | inl f ↦ (fds, ap (λ k. some (spawned k, fds)) (some-injective j id (rw f at h)))
    | inr f ↦ absurd (cc (rw f at h))
  ]
  session_of-spawned count id (some (verdict b, fds)) h = absurd (cc)
  session_of-spawned count id (some (challenged c, fds)) h = absurd (cc)
  session_of-spawned count id (some (exited c, fds)) h = absurd (cc)
  session_of-spawned count id (some (failed, fds)) h = absurd (cc)
  session_of-spawned count id (some (closed, fds)) h = absurd (cc)

  -- The request `req` was answered with the session `id`; it, the signals and the reaping were
  -- made, in this order, and the monitor is as the last of these calls left it.
  abbrev pub Session : Request → ℕ → List Signal → World M → World M → Type ℓ
  Session req id ss w w' =
      ((fds : List ℕ) × ((call req w.monitor).0 ≡ some (spawned id, fds)))
      × (w'.requests
          ≡ w.requests ++ (req ∷ map (λ s. Request.signal id s) ss ++ Request.reap id ∷ []))
      × (w'.monitor
          ≡ (call (Request.reap id) (calls (req ∷ map (λ s. Request.signal id s) ss) w.monitor)).1)

  abbrev pub AllReaped : World M → World M → Type ℓ
  AllReaped w w' =
      ((w'.requests ≡ w.requests) × (w'.monitor ≡ w.monitor))
      ⊎ ((req : Request) × (id : ℕ) × (ss : List Signal) × Session req id ss w w')

  spawn-AllReaped :
      (req : Request) (count : ℕ) (body : ℕ → World M → Outcome × World M) (w : World M)
      → Reaps body
      → (spawn call req count body w).0 ≡ done
      → AllReaped w (spawn call req count body w).1
  unfolding spawn call_monitor
  spawn-AllReaped req count body w reaps h =
      let w1 = (call_monitor call req w).1 in
      elim (Option-cases (session_of count (call req w.monitor).0)) [
        | inl e ↦ absurd (cc (rw (spawn, e) at h))
        | inr (id, e) ↦
            let (ss, same, left) = reaps id w1 (rw (spawn, e) at h) in
            inr (
              req,
              id,
              ss,
              (
                session_of-spawned count id (call req w.monitor).0 e,
                rw (spawn, e)
                    (same
                      ∙ append_assoc w.requests (req ∷ [])
                          (map (λ s. Request.signal id s) ss ++ Request.reap id ∷ [])),
                rw (spawn, e) left,
              ),
            )
      ]

  bounded-AllReaped :
      (arg : Bytes) (w : World M) (served : Outcome × World M)
      → (served.0 ≡ done → AllReaped w served.1)
      → (bounded call arg w served).0 ≡ done
      → AllReaped w (bounded call arg w served).1
  bounded-AllReaped arg w served f h = elim (Bool-cases (spawn_arg_ok arg)) [
    | inl e ↦ rw e (f (rw e at h))
    | inr e ↦ rw e (inl (refl, refl))
  ]

  -- A channel that is served without an error makes no request, or one that starts a session, the
  -- signals for it, and last its reaping.
  pub serve_open-AllReaped :
      (conn_id : ℕ) (o : ChannelOpen) (ch : Channel) (w : World M)
      → (serve_open call conn_id o ch w).0 ≡ done
      → AllReaped w (serve_open call conn_id o ch w).1
  unfolding serve_open
  serve_open-AllReaped conn_id (shell t c r) ch w h =
      bounded-AllReaped t w _ (spawn-AllReaped _ 1 (run_shell call ch) w (run_shell-Reaps ch)) h
  serve_open-AllReaped conn_id (exec command) ch w h =
      bounded-AllReaped command w _ (spawn-AllReaped _ 3 (run_exec call ch) w (run_exec-Reaps ch)) h
  serve_open-AllReaped conn_id (forward host port) ch w h =
      bounded-AllReaped host w _ (λ e. inl (refl, refl)) h
  serve_open-AllReaped conn_id (remote_forward_listen bind port) ch w h =
      bounded-AllReaped bind w _ (λ e. inl (refl, refl)) h
  serve_open-AllReaped conn_id (remote_forward_data conn_ref) ch w h = inl (refl, refl)
  serve_open-AllReaped conn_id (read_file path) ch w h =
      bounded-AllReaped path w _
        (spawn-AllReaped _ 1 (run_transfer call ch) w (run_transfer-Reaps ch)) h
  serve_open-AllReaped conn_id (write_file path mode) ch w h =
      bounded-AllReaped path w _
        (spawn-AllReaped _ 2 (run_transfer_write call ch) w (run_transfer_write-Reaps ch)) h
  serve_open-AllReaped conn_id (mk_dir path mode) ch w h =
      bounded-AllReaped path w _
        (spawn-AllReaped _ 1 (run_transfer call ch) w (run_transfer-Reaps ch)) h
