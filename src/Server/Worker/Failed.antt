-- ===== src/Server/Worker/Failed.antt =====
-- quish-server/src/worker.rs: a channel that comes to an error after its session was started.
use quish.Base.{ℕ, ◌≡◌, inl, inr, true, Option, some, List, [], ◌∷◌, ◌++◌, Bool-cases}
use quish.Base.Text.{Bytes}
use quish.Server.Monitor.{Request, Response}
use quish.Session.Pump.{failed, pump_shell}
use quish.Server.Worker.{
  shell, spawn_arg_ok, error, Channel, World, session_of, call_monitor, settle, run_shell, spawn,
  serve_open,
}

module _ {ℓ} {M : Type ℓ} (call : Request → M → Option (Response × List ℕ) × M) where
  -- A shell whose pump fails, because a frame could not be sent, ends with an error, and the only
  -- request that was made is the one that started its session: the session is not reaped.
  pub serve_open_failed :
      (conn_id id : ℕ) (t : Bytes) (cols rows : ℕ) (ch : Channel) (w : World M)
      → spawn_arg_ok t ≡ true
      → session_of 1 (call (Request.spawn_shell conn_id t) w.monitor).0 ≡ some id
      → (pump_shell ch.events).0 ≡ failed
      → ((serve_open call conn_id (shell t cols rows) ch w).0 ≡ error)
        × ((serve_open call conn_id (shell t cols rows) ch w).1.requests
            ≡ w.requests ++ Request.spawn_shell conn_id t ∷ [])
  unfolding serve_open spawn run_shell settle call_monitor
  serve_open_failed conn_id id t cols rows ch w fits e f = elim (Bool-cases ch.cloned) [
    | inl c ↦ (
      rw fits (rw (spawn, e) (rw (run_shell, c) (rw f))),
      rw fits (rw (spawn, e) (rw (run_shell, c) (rw f))),
    )
    | inr c ↦
        (rw fits (rw (spawn, e) (rw (run_shell, c))), rw fits (rw (spawn, e) (rw (run_shell, c))))
  ]
