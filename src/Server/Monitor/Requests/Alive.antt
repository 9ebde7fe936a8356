-- ===== src/Server/Monitor/Requests/Alive.antt =====
-- quish-server/src/monitor.rs: which sessions the monitor has after a request.
use quish.Base.{
  ℕ, ◌≡◌, refl, sym, ap, ◌∙◌, ◌≢◌, inl, inr, false, Option, none, some, List, ◌==◌, ==_iff,
  Bool-cases, Option-cases,
}
use quish.Auth.Types.{Verdict, allow, deny}
use quish.Base.Text.{Bytes}
use quish.Base.Table
use quish.Base.Table.{Table}
use quish.Server.Monitor.{
  shell, exec, transfer, transfer_write, mkdir, Request, Response, verdict, challenged, spawned,
  exited, failed, closed, Signal, Host, State, Child, PamSession, Job, alloc, forget_session,
}
use quish.Server.Monitor.Requests.{
  on_verdict, on_authenticate, on_close, Out, spawned_as, spawn_failed, on_spawn_login,
  on_spawn_transfer, close_pam, on_reap, on_signal, handle,
}

-- A reply that names a session.
abbrev pub Keeps : State → Out → ℕ → Type 0
Keeps st out id = (k : ℕ) → (id == k) ≡ false → out.state.sessions k ≡ st.sessions k

spawned_id : Response → ℕ
spawned_id (spawned id) = id
spawned_id (verdict b) = 0
spawned_id (challenged c) = 0
spawned_id (exited c) = 0
spawned_id failed = 0
spawned_id closed = 0

spawned_as-Keeps :
    (user : Bytes) (job : Job) (conn_id : ℕ) (pam : Option PamSession) (child : Child)
    (fds : List ℕ) (st : State) (id : ℕ)
    → (spawned_as user job conn_id pam child fds st).reply ≡ spawned id
    → Keeps st (spawned_as user job conn_id pam child fds st) id
unfolding spawned_as alloc spawned_id
spawned_as-Keeps user job conn_id none child fds st id h k n = rw (ap spawned_id h) (rw n)
spawned_as-Keeps user job conn_id (some g) child fds st id h k n = rw (ap spawned_id h) (rw n)

spawn_failed_unnamed :
    (pam : Option PamSession) (st : State) (id : ℕ) → (spawn_failed pam st).reply ≢ spawned id
unfolding spawn_failed
spawn_failed_unnamed none st id = cc
spawn_failed_unnamed (some g) st id = cc

spawn_login-Keeps :
    (host : Host) (conn_id : ℕ) (job : Job) (st : State) (id : ℕ)
    → (on_spawn_login host conn_id job st).reply ≡ spawned id
    → Keeps st (on_spawn_login host conn_id job st) id
unfolding on_spawn_login
spawn_login-Keeps host conn_id job st id h = elim (Option-cases (st.users conn_id)) [
  | inl e ↦ absurd (cc (rw (e, on_spawn_login) at h))
  | inr (user, e) ↦ elim (Option-cases (host.spawn user job (host.open_session user))) [
    | inl f ↦ absurd (
        spawn_failed_unnamed (host.open_session user) st id
          (rw (f, on_spawn_login) at (rw (e, on_spawn_login) at h)))
    | inr ((child, fds), f) ↦ λ k n.
        rw (e, on_spawn_login)
          (rw (f, on_spawn_login)
            (spawned_as-Keeps user job conn_id (host.open_session user) child fds st id
              (rw (f, on_spawn_login) at (rw (e, on_spawn_login) at h)) k n))
  ]
]

spawn_transfer-Keeps :
    (host : Host) (conn_id : ℕ) (job : Job) (st : State) (id : ℕ)
    → (on_spawn_transfer host conn_id job st).reply ≡ spawned id
    → Keeps st (on_spawn_transfer host conn_id job st) id
unfolding on_spawn_transfer
spawn_transfer-Keeps host conn_id job st id h = elim (Option-cases (st.users conn_id)) [
  | inl e ↦ absurd (cc (rw (e, on_spawn_transfer) at h))
  | inr (user, e) ↦ elim (Option-cases (host.spawn user job none)) [
    | inl f ↦ absurd (cc (rw (f, on_spawn_transfer) at (rw (e, on_spawn_transfer) at h)))
    | inr ((child, fds), f) ↦ λ k n.
        rw (e, on_spawn_transfer)
          (rw (f, on_spawn_transfer)
            (spawned_as-Keeps user job conn_id none child fds st id
              (rw (f, on_spawn_transfer) at (rw (e, on_spawn_transfer) at h)) k n))
  ]
]

verdict_unnamed :
    (host : Host) (conn : ℕ) (st : State) (v : Verdict) (id : ℕ)
    → (on_verdict host conn st v).reply ≢ spawned id
unfolding on_verdict
verdict_unnamed host conn st (allow u) id = cc
verdict_unnamed host conn st (Verdict.challenge s ps) id = cc
verdict_unnamed host conn st deny id = cc

reap_unnamed :
    (host : Host) (sid : ℕ) (st : State) (id : ℕ) → (on_reap host sid st).reply ≢ spawned id
unfolding on_reap
reap_unnamed host sid st id h = elim (Option-cases (st.sessions sid)) [
  | inl e ↦ absurd (cc (rw (e, on_reap) at h))
  | inr (child, e) ↦ absurd (cc (rw (e, on_reap) at h))
]

-- A request that is answered by a new session changes no other.
pub handle-Keeps :
    (host : Host) (req : Request) (st : State) (id : ℕ)
    → (handle host req st).reply ≡ spawned id
    → Keeps st (handle host req st) id
unfolding handle on_authenticate on_close on_signal
handle-Keeps host (Request.authenticate conn a p b answer) st id h =
    absurd (verdict_unnamed host conn _ _ id h)
handle-Keeps host (Request.spawn_shell conn t) st id h =
    spawn_login-Keeps host conn (shell t) st id h
handle-Keeps host (Request.spawn_exec conn c) st id h = spawn_login-Keeps host conn (exec c) st id h
handle-Keeps host (Request.reap sid) st id h = absurd (reap_unnamed host sid st id h)
handle-Keeps host (Request.close conn) st id h = absurd (cc h)
handle-Keeps host (Request.signal sid s) st id h = absurd (cc h)
handle-Keeps host (Request.spawn_transfer conn p) st id h =
    spawn_transfer-Keeps host conn (transfer p) st id h
handle-Keeps host (Request.spawn_transfer_write conn p m) st id h =
    spawn_transfer-Keeps host conn (transfer_write p m) st id h
handle-Keeps host (Request.spawn_mkdir conn p m) st id h =
    spawn_transfer-Keeps host conn (mkdir p m) st id h

absent_other :
    (t : Table Child) (id k : ℕ) (c : Child) → t id ≡ none → t k ≡ some c → (id == k) ≡ false
absent_other t id k c e h = elim (Bool-cases (id == k)) [
  | inl same ↦ absurd (cc (sym e ∙ ap t ((==_iff id k).0 same) ∙ h))
  | inr other ↦ other
]

removed_other :
    (t : Table Child) (id k : ℕ) (c : Child)
    → Table.remove id t k ≡ some c
    → ((id == k) ≡ false) × (t k ≡ some c)
removed_other t id k c h = elim (Bool-cases (id == k)) [
  | inl same ↦ absurd (cc (rw same at h))
  | inr other ↦ (other, rw other at h)
]

-- After a reaping the session is gone, and no other is new.
pub handle-reap-sessions :
    (host : Host) (id : ℕ) (st : State) (k : ℕ) (c : Child)
    → (handle host (Request.reap id) st).state.sessions k ≡ some c
    → ((id == k) ≡ false) × (st.sessions k ≡ some c)
unfolding handle on_reap forget_session close_pam
handle-reap-sessions host id st k c h = elim (Option-cases (st.sessions id)) [
  | inl e ↦ (absent_other st.sessions id k c e (rw (on_reap, e) at h), rw (on_reap, e) at h)
  | inr (child, e) ↦ removed_other st.sessions id k c (rw (on_reap, e) at h)
]

pub handle_signal-state :
    (host : Host) (id : ℕ) (s : Signal) (st : State)
    → (handle host (Request.signal id s) st).state ≡ st
unfolding handle on_signal
handle_signal-state host id s st = refl
