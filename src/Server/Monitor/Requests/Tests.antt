-- ===== src/Server/Monitor/Requests/Tests.antt =====
-- Tests of the monitor: a login, a shell, and the end of the connection.
use quish.Base.{ℕ, ◌≡◌, refl, inl, Option, none, some, List, [], ◌∷◌, ◌==◌, if◌then◌else◌}
use quish.Base.Int.{negsuc}
use quish.Base.Text.{Bytes, codes}
use quish.Auth.Types.{ConnInfo, Verdict, allow, deny}
use quish.Server.Monitor.{Request, Host, State, init, take_conn}
use quish.Server.Monitor.Requests.{
  Recv, msg, bad, serve, handle, on_verdict, answer_challenge, on_authenticate, on_spawn_login,
  spawned_as, spawn_failed, on_close,
}
use quish.Server.Monitor.Requests.Starts.{asks}
use quish.Server.Monitor.Requests.Identity.{Vouched, serve_starts-Vouched}
use quish.Server.Monitor.Requests.Tracked.{IsTracked, init-Tracked, serve-IsTracked}
use quish.Server.Monitor.Requests.Teardown.{lists, sessions_of, on_close_lem}

-- A registry that admits one header, and children that run until they are killed.
abbrev admit_ann : Option Bytes → ConnInfo → Verdict
admit_ann none conn = deny
admit_ann (some header) conn = allow (codes "ann")

abbrev host : Host
host = record {
  now = 0;
  parse_addr = λ a. none;
  registry_verdict = admit_ann;
  open_session = λ user. some 5;
  spawn = λ user job pam. some (70, 8 ∷ []);
  try_wait = λ child. none;
  wait = λ child. negsuc 0;
}

abbrev login : Request
login = Request.authenticate 3 (some (codes "Basic x")) (codes "10.0.0.1:4") [] none

abbrev before : List Recv
before = bad ∷ msg host login ∷ msg host (Request.close 2) ∷ []

abbrev with_shell : State
with_shell = (serve (msg host login ∷ msg host (Request.spawn_shell 3 []) ∷ []) init).1

serve_starts-Vouched_example :
    (c : ℕ) × (asks (Request.spawn_shell 3 []) ≡ some c) × Vouched c (codes "ann") before
unfolding init serve handle on_authenticate answer_challenge on_verdict on_spawn_login spawned_as
    spawn_failed on_close take_conn
serve_starts-Vouched_example =
    serve_starts-Vouched before host (Request.spawn_shell 3 []) (codes "ann") (inl refl)

on_close_lem_example :
    let out = (on_close host 3 with_shell).state in
    (out.users 3 ≡ (if 3 == 3 then none else with_shell.users 3))
    × (out.challenges 3 ≡ (if 3 == 3 then none else with_shell.challenges 3))
    × (out.conn_sessions 3 ≡ (if 3 == 3 then none else with_shell.conn_sessions 3))
    × (out.sessions 1
        ≡ (if lists (sessions_of 3 with_shell) 1 then none else with_shell.sessions 1))
    × (out.pam_sessions 1
        ≡ (if lists (sessions_of 3 with_shell) 1 then none else with_shell.pam_sessions 1))
on_close_lem_example = on_close_lem host 3 with_shell 3 1

serve-IsTracked_example : IsTracked with_shell 1
serve-IsTracked_example =
    serve-IsTracked (msg host login ∷ msg host (Request.spawn_shell 3 []) ∷ []) init init-Tracked 1
