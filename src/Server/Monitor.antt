-- ===== src/Server/Monitor.antt =====
-- quish-server/src/monitor.rs: `State`, `SessionIndex` and the requests of `serve_control`, with
-- the types of quish-server/src/ipc.rs. Processes, PAM and the registry are parameters.
pub mod Requests
use quish.Base.{
  ℕ, zero, suc, ◌+◌, ◌-◌, ◌*◌, ◌/◌, ◌%◌, ◌^◌, ◌≤◌, ◌<◌, min, ◌≡◌, refl, sym, ap, ◌∙◌, ◌≢◌, ◌↔◌, ◌⊎◌,
  inl, inr, Bool, true, false, not, ◌&&◌, ◌||◌, Option, none, some, List, [], ◌∷◌, ◌++◌, map,
  reverse, arith, ltb, leb, ◌==◌, if◌then◌else◌, ltb→lt, lt→ltb, ltb→ge, ge→ltb, leb→le, ==_iff,
  ==_refl, Bool-cases, Option-cases, ◌>>=◌, unwrap_or, is_some, length, get_elem?, get_or, take,
  drop, any, all, retain, All, length-append, take-append_length, drop-append_length,
  take-append-drop, take-append_le, drop-append_le, length-take, length-drop,
}
use quish.Base.Int.{ℤ, pos, negsuc}
use quish.Base.Table
use quish.Base.Table.{Table}
use quish.Base.Text.{Bytes}
use quish.Auth.Types.{
  Prompt, ChallengeState, ChallengeResponse, ConnInfo, Verdict, allow, challenge, deny,
}
use quish.Server.Challenges.{ChallengeStore}
pub use quish.Proto.Message.{Signal, int, quit, term, Challenge, ChallengeAnswer}

-- `ipc::Request`: connection or session first.
pub data Request : Type 0 where
  authenticate : ℕ → Option Bytes → Bytes → Bytes → Option ChallengeAnswer → Request
  spawn_shell : ℕ → Bytes → Request
  spawn_exec : ℕ → Bytes → Request
  reap : ℕ → Request
  close : ℕ → Request
  signal : ℕ → Signal → Request
  spawn_transfer : ℕ → Bytes → Request
  spawn_transfer_write : ℕ → Bytes → ℕ → Request
  spawn_mkdir : ℕ → Bytes → ℕ → Request

pub data Response : Type 0 where
  verdict : Bool → Response
  challenged : Challenge → Response
  spawned : ℕ → Response
  exited : ℤ → Response
  failed closed : Response

-- A child by its process id, an open PAM session by a handle, a file descriptor by its number.
abbrev pub Child : Type 0
Child = ℕ

abbrev pub PamSession : Type 0
PamSession = ℕ

-- What the monitor starts for a user.
pub data Job : Type 0 where
  shell : Bytes → Job
  exec : Bytes → Job
  transfer : Bytes → Job
  transfer_write : Bytes → ℕ → Job
  mkdir : Bytes → ℕ → Job

pub data KillSignal : Type 0 where
  sighup sigkill sigint sigquit sigterm : KillSignal

-- What a request does outside the monitor's memory, in order.
pub data Effect : Type 0 where
  started : Bytes → Job → Child → Effect
  killpg : Child → KillSignal → Effect
  kill : Child → KillSignal → Effect
  waited : Child → Effect
  pam_closed : PamSession → Effect

-- The system under the monitor, as it answers during one request. `spawn` gives the child and the
-- descriptors for the worker, or fails; `open_session` is `none` if it fails and in builds without
-- PAM. `try_wait` is the exit code of a child that has exited, `wait` that of one that was killed.
pub record Host : Type 0 where
  pub now : ℕ
  pub parse_addr : Bytes → Option Bytes
  pub registry_verdict : Option Bytes → ConnInfo → Verdict
  pub open_session : Bytes → Option PamSession
  pub spawn : Bytes → Job → Option PamSession → Option (Child × List ℕ)
  pub try_wait : Child → Option ℤ
  pub wait : Child → ℤ

-- `SessionIndex` is the table `conn_sessions` with the three functions below.
pub record State : Type 0 where
  pub users : Table Bytes
  pub sessions : Table Child
  pub conn_sessions : Table (List ℕ)
  pub challenges : ChallengeStore
  pub next_session : ℕ
  pub pam_sessions : Table PamSession

unfoldable pub init : State
init = record {
  users = Table.empty;
  sessions = Table.empty;
  conn_sessions = Table.empty;
  challenges = Table.empty;
  next_session = 0;
  pam_sessions = Table.empty;
}

-- `SessionIndex::insert`, `take_conn` and `forget`.
unfoldable pub index_insert : ℕ → ℕ → Table (List ℕ) → Table (List ℕ)
index_insert conn_id session_id t =
    Table.insert conn_id (unwrap_or (t conn_id) [] ++ session_id ∷ []) t

pub take_conn : ℕ → Table (List ℕ) → List ℕ × Table (List ℕ)
take_conn conn_id t = (unwrap_or (t conn_id) [], Table.remove conn_id t)

unfoldable pub forget : ℕ → Table (List ℕ) → Table (List ℕ)
forget session_id t conn_id = elim (t conn_id) [
  | none ↦ none
  | some sids ↦ some (retain (λ s. not (s == session_id)) sids)
]

-- `State::alloc` and `State::forget_session`. The counter is a `u64`.
unfoldable pub alloc : ℕ → Child → State → ℕ × State
unfolding index_insert
alloc conn_id child st =
    let id = (st.next_session + 1) % 2 ^ 64 in
    (
      id,
      record st {
        next_session = id;
        sessions = Table.insert id child st.sessions;
        conn_sessions = index_insert conn_id id st.conn_sessions;
      },
    )

unfoldable pub forget_session : ℕ → State → State
unfolding forget
forget_session session_id st = record st {
  sessions = Table.remove session_id st.sessions;
  conn_sessions = forget session_id st.conn_sessions;
}

-- The exit code and what was done to get it: nothing to a child that has exited already.
unfoldable pub reap_child : Host → Child → ℤ × List Effect
reap_child host child = elim (host.try_wait child) [
  | some code ↦ (code, [])
  | none ↦ (
    host.wait child,
    killpg child sighup
        ∷ kill child sighup
        ∷ killpg child sigkill
        ∷ kill child sigkill
        ∷ waited child
        ∷ [],
  )
]
