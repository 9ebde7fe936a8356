-- ===== src/Server/Monitor/Requests/Starts.antt =====
-- For whom a request starts a process.
use quish.Base.{
  ℕ, ◌≡◌, refl, ap, ◌∙◌, ◌⊎◌, inl, inr, Option, none, some, List, [], ◌∷◌, ◌++◌, Option-cases,
}
use quish.Base.Table
use quish.Base.Table.{Table}
use quish.Base.Text.{Bytes}
use quish.Auth.Types.{Verdict, allow, deny}
use quish.Server.Monitor.{
  Signal, Request, Child, PamSession, Job, shell, exec, transfer, transfer_write, mkdir, Effect,
  started, pam_closed, Host, State, reap_child, killpg, kill, waited, forget_session, take_conn,
}
use quish.Server.Monitor.Requests.{
  reap_removed, on_verdict, answer_challenge, on_authenticate, spawn_failed, on_spawn_login,
  on_spawn_transfer, close_pam, on_reap, close_sessions, on_close, on_signal, handle,
}
use quish.Server.Monitor.Requests.Users.{closing}

-- The connection for which a request asks to start a process, if it does.
abbrev pub asks : Request → Option ℕ
asks (Request.authenticate c a p b ans) = none
asks (Request.spawn_shell c t) = some c
asks (Request.spawn_exec c cmd) = some c
asks (Request.reap s) = none
asks (Request.close c) = none
asks (Request.signal s sig) = none
asks (Request.spawn_transfer c p) = some c
asks (Request.spawn_transfer_write c p m) = some c
asks (Request.spawn_mkdir c p m) = some c

-- An effect list starts something as this user.
abbrev pub StartsAs : Bytes → List Effect → Type 0
StartsAs user [] = ⊥
StartsAs user (started u job child ∷ es) = (u ≡ user) ⊎ StartsAs user es
StartsAs user (_ ∷ es) = StartsAs user es

StartsAs-append :
    (user : Bytes) (xs ys : List Effect)
    → StartsAs user (xs ++ ys)
    → StartsAs user xs ⊎ StartsAs user ys
StartsAs-append user [] ys h = inr h
StartsAs-append user (started u job child ∷ xs) ys (inl e) = inl (inl e)
StartsAs-append user (started u job child ∷ xs) ys (inr h) = elim (StartsAs-append user xs ys h) [
  | inl l ↦ inl (inr l)
  | inr r ↦ inr r
]
StartsAs-append user (killpg c k ∷ xs) ys h = StartsAs-append user xs ys h
StartsAs-append user (kill c k ∷ xs) ys h = StartsAs-append user xs ys h
StartsAs-append user (waited c ∷ xs) ys h = StartsAs-append user xs ys h
StartsAs-append user (pam_closed p ∷ xs) ys h = StartsAs-append user xs ys h

reap_child-starts :
    (host : Host) (child : Child) (user : Bytes) → ¬ StartsAs user (reap_child host child).1
unfolding reap_child
reap_child-starts host child user h = elim (Option-cases (host.try_wait child)) [
  | inl e ↦ rw (e, reap_child) at h
  | inr (code, e) ↦ rw (e, reap_child) at h
]

close_pam-starts : (sid : ℕ) (st : State) (user : Bytes) → ¬ StartsAs user (close_pam sid st).1
unfolding close_pam
close_pam-starts sid st user h = elim (Option-cases (st.pam_sessions sid)) [
  | inl e ↦ rw (e, close_pam) at h
  | inr (guard, e) ↦ rw (e, close_pam) at h
]

on_verdict-starts :
    (host : Host) (conn : ℕ) (st : State) (v : Verdict) (user : Bytes)
    → ¬ StartsAs user (on_verdict host conn st v).effects
unfolding on_verdict
on_verdict-starts host conn st (allow u) user h = h
on_verdict-starts host conn st (Verdict.challenge s ps) user h = h
on_verdict-starts host conn st deny user h = h

spawn_failed-starts :
    (pam : Option PamSession) (st : State) (user : Bytes)
    → ¬ StartsAs user (spawn_failed pam st).effects
unfolding spawn_failed
spawn_failed-starts none st user h = h
spawn_failed-starts (some guard) st user h = h

alone :
    (u user : Bytes) (job : Job) (child : Child)
    → StartsAs user (started u job child ∷ [])
    → u ≡ user
alone u user job child (inl e) = e
alone u user job child (inr h) = absurd h

on_spawn_login-starts :
    (host : Host) (conn : ℕ) (job : Job) (st : State) (user : Bytes)
    → StartsAs user (on_spawn_login host conn job st).effects
    → st.users conn ≡ some user
unfolding on_spawn_login
on_spawn_login-starts host conn job st user h = elim (Option-cases (st.users conn)) [
  | inl e ↦ absurd (rw (e, on_spawn_login) at h)
  | inr (u, e) ↦ elim (Option-cases (host.spawn u job (host.open_session u))) [
    | inl f ↦ absurd (
        spawn_failed-starts (host.open_session u) st user
          (rw (f, on_spawn_login) at (rw (e, on_spawn_login) at h)))
    | inr ((child, fds), f) ↦
        e
        ∙ ap some (alone u user job child (rw (f, on_spawn_login) at (rw (e, on_spawn_login) at h)))
  ]
]

on_spawn_transfer-starts :
    (host : Host) (conn : ℕ) (job : Job) (st : State) (user : Bytes)
    → StartsAs user (on_spawn_transfer host conn job st).effects
    → st.users conn ≡ some user
unfolding on_spawn_transfer
on_spawn_transfer-starts host conn job st user h = elim (Option-cases (st.users conn)) [
  | inl e ↦ absurd (rw (e, on_spawn_transfer) at h)
  | inr (u, e) ↦ elim (Option-cases (host.spawn u job none)) [
    | inl f ↦ absurd (rw (f, on_spawn_transfer) at (rw (e, on_spawn_transfer) at h))
    | inr ((child, fds), f) ↦
        e
        ∙ ap some
            (alone u user job child (rw (f, on_spawn_transfer) at (rw (e, on_spawn_transfer) at h)))
  ]
]

on_reap-starts :
    (host : Host) (sid : ℕ) (st : State) (user : Bytes)
    → ¬ StartsAs user (on_reap host sid st).effects
unfolding on_reap
on_reap-starts host sid st user h = elim (Option-cases (st.sessions sid)) [
  | inl e ↦ rw (e, on_reap) at h
  | inr (child, e) ↦
      elim (StartsAs-append user (reap_child host child).1 (close_pam sid (forget_session sid st)).1
        (rw (e, on_reap) at h)) [
          | inl l ↦ reap_child-starts host child user l
          | inr r ↦ close_pam-starts sid (forget_session sid st) user r
        ]
]

killed-starts :
    (host : Host) (o : Option Child) (user : Bytes) → ¬ StartsAs user (reap_removed host o)
unfolding reap_removed
killed-starts host none user h = h
killed-starts host (some child) user h = reap_child-starts host child user h

close_sessions-starts :
    (host : Host) (sids : List ℕ) (st : State) (user : Bytes)
    → ¬ StartsAs user (close_sessions host sids st).1
unfolding close_sessions
close_sessions-starts host [] st user h = h
close_sessions-starts host (sid ∷ sids) st user h =
    let st₁ = record st { sessions = Table.remove sid st.sessions } in
    elim (StartsAs-append user (reap_removed host (st.sessions sid)) _ h) [
      | inl l ↦ killed-starts host (st.sessions sid) user l
      | inr r ↦ elim (StartsAs-append user (close_pam sid st₁).1 _ r) [
        | inl l ↦ close_pam-starts sid st₁ user l
        | inr r' ↦ close_sessions-starts host sids (close_pam sid st₁).0 user r'
      ]
    ]

on_signal-starts :
    (sid : ℕ) (sig : Signal) (st : State) (user : Bytes)
    → ¬ StartsAs user (on_signal sid sig st).effects
unfolding on_signal
on_signal-starts sid sig st user h = elim (Option-cases (st.sessions sid)) [
  | inl e ↦ rw (e, on_signal) at h
  | inr (child, e) ↦ rw (e, on_signal) at h
]

-- A process is started only for a connection that has an identity, and as that identity.
pub handle_starts :
    (host : Host) (req : Request) (st : State) (user : Bytes)
    → StartsAs user (handle host req st).effects
    → (c : ℕ) × (asks req ≡ some c) × (st.users c ≡ some user)
unfolding handle on_authenticate on_close
handle_starts host (Request.authenticate c a p b ans) st user h =
    absurd (on_verdict-starts host c (answer_challenge host c ans st).1 _ user h)
handle_starts host (Request.spawn_shell c t) st user h =
    (c, refl, on_spawn_login-starts host c (shell t) st user h)
handle_starts host (Request.spawn_exec c t) st user h =
    (c, refl, on_spawn_login-starts host c (exec t) st user h)
handle_starts host (Request.reap sid) st user h = absurd (on_reap-starts host sid st user h)
handle_starts host (Request.close c) st user h =
    absurd (close_sessions-starts host (take_conn c st.conn_sessions).0 (closing c st) user h)
handle_starts host (Request.signal sid s) st user h = absurd (on_signal-starts sid s st user h)
handle_starts host (Request.spawn_transfer c p) st user h =
    (c, refl, on_spawn_transfer-starts host c (transfer p) st user h)
handle_starts host (Request.spawn_transfer_write c p m) st user h =
    (c, refl, on_spawn_transfer-starts host c (transfer_write p m) st user h)
handle_starts host (Request.spawn_mkdir c p m) st user h =
    (c, refl, on_spawn_transfer-starts host c (mkdir p m) st user h)
