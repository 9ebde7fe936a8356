-- ===== src/Server/Monitor/Requests.antt =====
-- quish-server/src/monitor.rs: `serve_control`, one function for each request, and the loop.
pub mod Identity
pub mod Starts
pub mod Users
pub mod Teardown
pub mod Alive
pub mod Tracked
mod Tests
use quish.Base.{ℕ, true, false, Option, none, some, List, [], ◌∷◌, ◌++◌, unwrap_or}
use quish.Base.Table
use quish.Base.Table.{Table}
use quish.Base.Text.{Bytes, codes}
use quish.Auth.Types.{ChallengeResponse, Verdict, allow, deny}
use quish.Server.Challenges
use quish.Server.Monitor.{
  Signal, int, quit, term, ChallengeAnswer, Request, Response, verdict, challenged, spawned, exited,
  failed, closed, Child, PamSession, Job, shell, exec, transfer, transfer_write, mkdir, KillSignal,
  sigint, sigquit, sigterm, Effect, started, killpg, pam_closed, Host, State, take_conn, alloc,
  forget_session, reap_child,
}

-- The state after a request, the reply with the descriptors that it passes, and the effects.
pub record Out : Type 0 where
  pub state : State
  pub reply : Response
  pub fds : List ℕ
  pub effects : List Effect

abbrev pub replied : State → Response → List Effect → Out
replied st r es = record { state = st; reply = r; fds = []; effects = es }

-- `Request::Authenticate`. The parked challenge is taken before the registry is asked.
pub on_verdict : Host → ℕ → State → Verdict → Out
on_verdict host conn_id st (allow user) =
    replied (record st { users = Table.insert conn_id user st.users }) (verdict true) []
on_verdict host conn_id st (Verdict.challenge state prompts) =
    replied (record st { challenges = Challenges.insert conn_id state host.now st.challenges })
      (challenged (record { token = state.token; prompts = prompts })) []
on_verdict host conn_id st deny = replied st (verdict false) []

pub answer_challenge : Host → ℕ → Option ChallengeAnswer → State → Option ChallengeResponse × State
answer_challenge host conn_id none st = (none, st)
answer_challenge host conn_id (some ans) st =
    let (parked, rest) = Challenges.take conn_id ans.token host.now st.challenges in
    (
      elim parked [
        | none ↦ none
        | some state ↦ some (record { state = state; responses = ans.responses })
      ],
      record st { challenges = rest },
    )

pub on_authenticate : Host → ℕ → Option Bytes → Bytes → Bytes → Option ChallengeAnswer → State → Out
unfolding answer_challenge on_verdict
on_authenticate host conn_id authorization peer binding answer st =
    let (resumed, st') = answer_challenge host conn_id answer st in
    on_verdict host conn_id st' (
      host.registry_verdict authorization (record {
        peer_addr = unwrap_or (host.parse_addr peer) (codes "0.0.0.0:0");
        channel_binding = binding;
        challenge = resumed;
      }))

-- What a spawned child leads to, for every kind of job. The guard of a PAM session is kept under
-- the session's id; `alloc` comes first.
unfoldable pub spawned_as : Bytes → Job → ℕ → Option PamSession → Child → List ℕ → State → Out
spawned_as user job conn_id pam child fds st =
    let (id, st') = alloc conn_id child st in
    record {
      state = elim pam [
        | none ↦ st'
        | some guard ↦ record st' { pam_sessions = Table.insert id guard st'.pam_sessions }
      ];
      reply = spawned id;
      fds = fds;
      effects = started user job child ∷ [];
    }

-- A guard that no session took is dropped, which closes it.
pub spawn_failed : Option PamSession → State → Out
spawn_failed none st = replied st failed []
spawn_failed (some guard) st = replied st failed (pam_closed guard ∷ [])

-- `SpawnShell` and `SpawnExec`: for an authenticated connection only, after opening a PAM session.
unfoldable pub on_spawn_login : Host → ℕ → Job → State → Out
unfolding spawned_as spawn_failed
on_spawn_login host conn_id job st = elim (st.users conn_id) [
  | none ↦ replied st failed []
  | some user ↦
      let pam = host.open_session user in
      elim (host.spawn user job pam) [
        | some (child, fds) ↦ spawned_as user job conn_id pam child fds st
        | none ↦ spawn_failed pam st
      ]
]

-- `SpawnTransfer`, `SpawnTransferWrite` and `SpawnMkdir`: no PAM session.
unfoldable pub on_spawn_transfer : Host → ℕ → Job → State → Out
unfolding spawned_as
on_spawn_transfer host conn_id job st = elim (st.users conn_id) [
  | none ↦ replied st failed []
  | some user ↦ elim (host.spawn user job none) [
    | some (child, fds) ↦ spawned_as user job conn_id none child fds st
    | none ↦ replied st failed []
  ]
]

unfoldable pub close_pam : ℕ → State → State × List Effect
close_pam session_id st = (
  record st { pam_sessions = Table.remove session_id st.pam_sessions },
  elim (st.pam_sessions session_id) [ none ↦ [] | some guard ↦ pam_closed guard ∷ [] ],
)

unfoldable pub on_reap : Host → ℕ → State → Out
unfolding close_pam
on_reap host session_id st = elim (st.sessions session_id) [
  | none ↦ replied st failed []
  | some child ↦
      let (code, killed) = reap_child host child in
      let (st', pam) = close_pam session_id (forget_session session_id st) in
      replied st' (exited code) (killed ++ pam)
]

-- `if let Some(child) = st.sessions.remove(&sid) { reap_child(child) }`.
pub reap_removed : Host → Option Child → List Effect
reap_removed host none = []
reap_removed host (some child) = (reap_child host child).1

-- The loop of `Close` over the sessions of the connection.
pub close_sessions : Host → List ℕ → State → State × List Effect
unfolding close_pam reap_removed
close_sessions host [] st = (st, [])
close_sessions host (sid ∷ sids) st =
    let killed = reap_removed host (st.sessions sid) in
    let (st', pam) = close_pam sid (record st { sessions = Table.remove sid st.sessions }) in
    let (st'', rest) = close_sessions host sids st' in (st'', killed ++ (pam ++ rest))

pub on_close : Host → ℕ → State → Out
unfolding close_sessions
on_close host conn_id st =
    let (sids, index) = take_conn conn_id st.conn_sessions in
    let (st', effects) = close_sessions host sids (record st {
      users = Table.remove conn_id st.users;
      challenges = Challenges.clear conn_id st.challenges;
      conn_sessions = index;
    }) in
    replied st' closed effects

pub signal_number : Signal → KillSignal
signal_number int = sigint
signal_number quit = sigquit
signal_number term = sigterm

pub on_signal : ℕ → Signal → State → Out
unfolding signal_number
on_signal session_id sig st = replied st closed (elim (st.sessions session_id) [
  | none ↦ []
  | some child ↦ killpg child (signal_number sig) ∷ []
])

unfoldable pub handle : Host → Request → State → Out
handle host (Request.authenticate conn_id authorization peer binding answer) =
    on_authenticate host conn_id authorization peer binding answer
handle host (Request.spawn_shell conn_id t) = on_spawn_login host conn_id (shell t)
handle host (Request.spawn_exec conn_id command) = on_spawn_login host conn_id (exec command)
handle host (Request.reap session_id) = on_reap host session_id
handle host (Request.close conn_id) = on_close host conn_id
handle host (Request.signal session_id sig) = on_signal session_id sig
handle host (Request.spawn_transfer conn_id path) = on_spawn_transfer host conn_id (transfer path)
handle host (Request.spawn_transfer_write conn_id path mode) =
    on_spawn_transfer host conn_id (transfer_write path mode)
handle host (Request.spawn_mkdir conn_id path mode) =
    on_spawn_transfer host conn_id (mkdir path mode)

-- `ipc::ctrl_recv`: a request that decodes, one that does not, or the end.
pub data Recv : Type 0 where
  msg : Host → Request → Recv
  bad : Recv
  hung_up : Recv

-- The loop: what the monitor replied, in order, and its last state. A bad frame is skipped.
unfoldable pub serve : List Recv → State → List Out × State
serve [] st = ([], st)
serve (hung_up ∷ rs) st = ([], st)
serve (bad ∷ rs) st = serve rs st
serve (msg host req ∷ rs) st =
    let out = handle host req st in let (outs, last) = serve rs out.state in (out ∷ outs, last)
