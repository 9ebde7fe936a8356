-- ===== src/Server/Monitor/Requests/Tracked.antt =====
-- The tables of sessions agree: no process and no PAM session is forgotten.
-- A live session is listed under a connection, and a PAM session has a live one.
use quish.Base.{
  ℕ, ◌+◌, ◌%◌, ◌^◌, ◌≡◌, refl, sym, ap, inl, inr, true, false, not, Option, none, some, List, [],
  ◌∷◌, ◌++◌, arith, ◌==◌, ==_iff, ==_refl, Bool-cases, Option-cases, unwrap_or, is_some, retain,
}
use quish.Base.Table
use quish.Base.Table.{Table}
use quish.Base.Text.{Bytes}
use quish.Auth.Types.{Verdict, allow, challenge, deny}
use quish.Proto.Message.{ChallengeAnswer}
use quish.Server.Monitor.{
  Request, Job, shell, exec, transfer, transfer_write, mkdir, PamSession, Child, Host, State, alloc,
  forget, forget_session, index_insert, init,
}
use quish.Server.Monitor.Requests.{
  on_verdict, answer_challenge, on_authenticate, spawned_as, spawn_failed, on_spawn_login,
  on_spawn_transfer, close_pam, on_reap, on_close, on_signal, handle, Recv, msg, bad, hung_up,
  serve,
}
use quish.Server.Monitor.Requests.Teardown.{lists, sessions_of, on_close_lem}

abbrev pub IsTracked : State → ℕ → Type 0
IsTracked st sid =
    (is_some (st.sessions sid) ≡ true → (conn : ℕ) × (lists (sessions_of conn st) sid ≡ true))
    × (is_some (st.pam_sessions sid) ≡ true → is_some (st.sessions sid) ≡ true)

abbrev pub Tracked : State → Type 0
Tracked st = (sid : ℕ) → IsTracked st sid

lists-append_left : (xs ys : List ℕ) (s : ℕ) → lists xs s ≡ true → lists (xs ++ ys) s ≡ true
lists-append_left [] ys s h = absurd (cc)
lists-append_left (x ∷ xs) ys s h = ground (arith, h, lists-append_left xs ys s)

lists-append_last : (xs : List ℕ) (s : ℕ) → lists (xs ++ s ∷ []) s ≡ true
lists-append_last [] s = ground arith
lists-append_last (x ∷ xs) s = ground (arith, lists-append_last xs s)

lists-retain :
    (xs : List ℕ) (r s : ℕ)
    → (r == s) ≡ false
    → lists xs s ≡ true
    → lists (retain (λ x. not (x == r)) xs) s ≡ true
lists-retain [] r s n h = absurd (cc)
lists-retain (x ∷ xs) r s n h = ground (arith, n, h, lists-retain xs r s n)

-- A session that starts.
listed_still :
    (conn_id id conn sid : ℕ) (st : State)
    → lists (sessions_of conn st) sid ≡ true
    → lists (unwrap_or (index_insert conn_id id st.conn_sessions conn) []) sid ≡ true
unfolding index_insert
listed_still conn_id id conn sid st h = elim (Bool-cases (conn_id == conn)) [
  | inr e ↦ rw (index_insert, e) h
  | inl e ↦
      let same = (==_iff conn_id conn).0 e in
      rw (index_insert, e)
        (lists-append_left (sessions_of conn_id st) (id ∷ []) sid (rw (sym same) at h))
]

listed_new :
    (conn_id id : ℕ) (st : State)
    → lists (unwrap_or (index_insert conn_id id st.conn_sessions conn_id) []) id ≡ true
unfolding index_insert
listed_new conn_id id st =
    rw (index_insert, ==_refl conn_id) (lists-append_last (sessions_of conn_id st) id)

alloc-Tracked :
    (conn_id : ℕ) (child : Child) (st : State) → Tracked st → Tracked (alloc conn_id child st).1
unfolding alloc
alloc-Tracked conn_id child st t sid =
    let id : ℕ = (st.next_session + 1) % 2 ^ 64 in
    let (live, pam) = t sid in
    elim (Bool-cases (id == sid)) [
      | inl e ↦
          let same = (==_iff id sid).0 e in
          (λ h. (conn_id, rw (sym same) (listed_new conn_id id st)), λ h. rw (alloc, e) refl)
      | inr e ↦ (
        λ h.
            let (conn, l) = live (rw (alloc, e) at h) in
            (conn, listed_still conn_id id conn sid st l),
        λ h. rw (alloc, e) (pam h),
      )
    ]

alloc_live :
    (conn_id : ℕ) (child : Child) (st : State) (sid : ℕ)
    → ((st.next_session + 1) % 2 ^ 64 == sid) ≡ true
    → is_some ((alloc conn_id child st).1.sessions sid) ≡ true
unfolding alloc
alloc_live conn_id child st sid e = rw (alloc, e) refl

guarded :
    (conn_id : ℕ) (guard : PamSession) (child : Child) (st : State) (sid : ℕ)
    → ((st.next_session + 1) % 2 ^ 64 == sid) ≡ false
    → is_some (
        Table.insert
          ((st.next_session + 1) % 2 ^ 64)
          guard
          (alloc conn_id child st).1.pam_sessions
          sid)
      ≡ true
    → is_some ((alloc conn_id child st).1.pam_sessions sid) ≡ true
guarded conn_id guard child st sid e h = rw e at h

spawn_failed-Tracked :
    (pam : Option PamSession) (st : State) → Tracked st → Tracked (spawn_failed pam st).state
unfolding spawn_failed
spawn_failed-Tracked none st t = t
spawn_failed-Tracked (some guard) st t = t

spawned_as-Tracked :
    (user : Bytes) (job : Job) (conn_id : ℕ) (pam : Option PamSession) (child : Child)
    (fds : List ℕ) (st : State)
    → Tracked st
    → Tracked (spawned_as user job conn_id pam child fds st).state
unfolding spawned_as alloc
spawned_as-Tracked user job conn_id none child fds st t sid = alloc-Tracked conn_id child st t sid
spawned_as-Tracked user job conn_id (some guard) child fds st t sid =
    let id : ℕ = (st.next_session + 1) % 2 ^ 64 in
    let (live, pam) = alloc-Tracked conn_id child st t sid in
    (
      live,
      λ h. elim (Bool-cases (id == sid)) [
        | inl e ↦ alloc_live conn_id child st sid e
        | inr e ↦ pam (guarded conn_id guard child st sid e h)
      ],
    )

spawn_login-Tracked :
    (host : Host) (conn_id : ℕ) (job : Job) (st : State)
    → Tracked st
    → Tracked (on_spawn_login host conn_id job st).state
unfolding on_spawn_login
spawn_login-Tracked host conn_id job st t = elim (Option-cases (st.users conn_id)) [
  | inl e ↦ rw (on_spawn_login, e) t
  | inr (user, e) ↦ elim (Option-cases (host.spawn user job (host.open_session user))) [
    | inl e' ↦ rw (on_spawn_login, e, e') (spawn_failed-Tracked (host.open_session user) st t)
    | inr ((child, fds), e') ↦
        rw (on_spawn_login, e, e')
          (spawned_as-Tracked user job conn_id (host.open_session user) child fds st t)
  ]
]

spawn_transfer-Tracked :
    (host : Host) (conn_id : ℕ) (job : Job) (st : State)
    → Tracked st
    → Tracked (on_spawn_transfer host conn_id job st).state
unfolding on_spawn_transfer
spawn_transfer-Tracked host conn_id job st t = elim (Option-cases (st.users conn_id)) [
  | inl e ↦ rw (on_spawn_transfer, e) t
  | inr (user, e) ↦ elim (Option-cases (host.spawn user job none)) [
    | inl e' ↦ rw (on_spawn_transfer, e, e') t
    | inr ((child, fds), e') ↦
        rw (on_spawn_transfer, e, e') (spawned_as-Tracked user job conn_id none child fds st t)
  ]
]

-- A session that ends.
listed_others :
    (r sid conn : ℕ) (st : State)
    → (r == sid) ≡ false
    → lists (sessions_of conn st) sid ≡ true
    → lists (unwrap_or (forget r st.conn_sessions conn) []) sid ≡ true
unfolding forget
listed_others r sid conn st n h = elim (Option-cases (st.conn_sessions conn)) [
  | inl e ↦ absurd (cc (rw e at h))
  | inr (sids, e) ↦ rw (forget, e) (lists-retain sids r sid n (rw e at h))
]

reaped-Tracked : (r : ℕ) (st : State) → Tracked st → Tracked (close_pam r (forget_session r st)).0
unfolding close_pam forget_session
reaped-Tracked r st t sid =
    let (live, pam) = t sid in
    elim (Bool-cases (r == sid)) [
      | inl e ↦ (
        λ h. absurd (cc (rw (close_pam, forget_session, e) at h)),
        λ h. absurd (cc (rw (close_pam, forget_session, e) at h)),
      )
      | inr e ↦ (
        λ h.
            let (conn, l) = live (rw (close_pam, forget_session, e) at h) in
            (conn, listed_others r sid conn st e l),
        λ h. rw (close_pam, forget_session, e) (pam (rw (close_pam, forget_session, e) at h)),
      )
    ]

reap-Tracked : (host : Host) (r : ℕ) (st : State) → Tracked st → Tracked (on_reap host r st).state
unfolding on_reap
reap-Tracked host r st t = elim (Option-cases (st.sessions r)) [
  | inl e ↦ rw (on_reap, e) t
  | inr (child, e) ↦ rw (on_reap, e) (reaped-Tracked r st t)
]

close_listed :
    (host : Host) (conn other sid : ℕ) (st : State)
    → lists (sessions_of conn st) sid ≡ false
    → lists (sessions_of other st) sid ≡ true
    → lists (sessions_of other (on_close host conn st).state) sid ≡ true
close_listed host conn other sid st n h =
    let (_, _, index, _, _) = on_close_lem host conn st other sid in
    elim (Bool-cases (conn == other)) [
      | inl e ↦
          let same = (==_iff conn other).0 e in
          absurd (cc (n, h, ap (λ c. lists (sessions_of c st) sid) same))
      | inr e ↦ rw (index, e) h
    ]

close-Tracked :
    (host : Host) (conn : ℕ) (st : State) → Tracked st → Tracked (on_close host conn st).state
close-Tracked host conn st t sid =
    let (live, pam) = t sid in
    elim (Bool-cases (lists (sessions_of conn st) sid)) [
      | inl e ↦
          let (_, _, _, s, p) = on_close_lem host conn st conn sid in
          (λ h. absurd (cc (rw (s, e) at h)), λ h. absurd (cc (rw (p, e) at h)))
      | inr e ↦
          let (_, _, _, s, p) = on_close_lem host conn st conn sid in
          (
            λ h.
                let (other, l) = live (rw (s, e) at h) in
                (other, close_listed host conn other sid st e l),
            λ h. rw (s, e) (pam (rw (p, e) at h)),
          )
    ]

verdict-Tracked :
    (host : Host) (conn : ℕ) (st : State) (v : Verdict)
    → Tracked st
    → Tracked (on_verdict host conn st v).state
unfolding on_verdict
verdict-Tracked host conn st (allow user) t = t
verdict-Tracked host conn st (challenge state prompts) t = t
verdict-Tracked host conn st deny t = t

answered-Tracked :
    (host : Host) (conn : ℕ) (answer : Option ChallengeAnswer) (st : State)
    → Tracked st
    → Tracked (answer_challenge host conn answer st).1
unfolding answer_challenge
answered-Tracked host conn none st t = t
answered-Tracked host conn (some ans) st t = t

handle-Tracked :
    (host : Host) (req : Request) (st : State) → Tracked st → Tracked (handle host req st).state
unfolding handle on_authenticate on_signal
handle-Tracked host (Request.authenticate conn a p b answer) st t =
    verdict-Tracked host conn _ _ (answered-Tracked host conn answer st t)
handle-Tracked host (Request.spawn_shell conn x) st t = spawn_login-Tracked host conn (shell x) st t
handle-Tracked host (Request.spawn_exec conn c) st t = spawn_login-Tracked host conn (exec c) st t
handle-Tracked host (Request.reap sid) st t = reap-Tracked host sid st t
handle-Tracked host (Request.close conn) st t = close-Tracked host conn st t
handle-Tracked host (Request.signal sid s) st t = t
handle-Tracked host (Request.spawn_transfer conn p) st t =
    spawn_transfer-Tracked host conn (transfer p) st t
handle-Tracked host (Request.spawn_transfer_write conn p m) st t =
    spawn_transfer-Tracked host conn (transfer_write p m) st t
handle-Tracked host (Request.spawn_mkdir conn p m) st t =
    spawn_transfer-Tracked host conn (mkdir p m) st t

pub init-Tracked : Tracked init
unfolding init
init-Tracked sid = (λ h. absurd (cc), λ h. absurd (cc))

-- Through any run of requests and bad frames, every session with a process stays listed under a
-- connection, whose `Close` reaps it, and no PAM session is kept without such a process, also when
-- the ids of sessions wrap around.
pub serve-IsTracked :
    (rs : List Recv) (st : State) → Tracked st → (sid : ℕ) → IsTracked (serve rs st).1 sid
unfolding serve
serve-IsTracked [] st t = t
serve-IsTracked (hung_up ∷ rs) st t = t
serve-IsTracked (bad ∷ rs) st t = serve-IsTracked rs st t
serve-IsTracked (msg host req ∷ rs) st t =
    serve-IsTracked rs (handle host req st).state (handle-Tracked host req st t)
