-- ===== src/Server/Worker/Tests.antt =====
-- Channels on a monitor that has one user.
use quish.Base.{◌≡◌, refl, true, none, some, [], ◌∷◌}
use quish.Base.Int.{pos}
use quish.Base.Table
use quish.Base.Text.{codes}
use quish.Auth.Types.{deny}
use quish.Proto.Message.{data_msg, exit_status}
use quish.Server.Monitor.Requests.{
  msg, handle, serve, on_spawn_login, on_spawn_transfer, spawned_as, on_reap, close_pam,
}
use quish.Server.Monitor.{
  alloc, index_insert, forget_session, forget, reap_child, Request, Host, init,
}
use quish.Session.Pump.{failed, delivered, broken, out, pump_shell, shell_step, run}
use quish.Server.Worker.{shell, read_file, done, error, Channel, World, serve_open, session_of}
use quish.Server.Worker.Sessions.{Turn, Shared, ask, SessionEnded, serve_open-SessionEnded}
use quish.Server.Worker.Failed.{serve_open_failed}

abbrev host : Host
host = record {
  now = 0;
  parse_addr = λ s. none;
  registry_verdict = λ a c. deny;
  open_session = λ u. none;
  spawn = λ u j p. some (7, 3 ∷ []);
  try_wait = λ c. some (pos 0);
  wait = λ c. pos 0;
}

-- A call that works, and one before which another channel reaps its session 9.
abbrev alone : Turn
alone = record { others = []; host = host; reaches = true; answered = true }

abbrev second : Turn
second = record alone { others = msg host (Request.reap 9) ∷ [] }

abbrev world : World Shared
world = record {
  monitor = record {
    state = record init {
      users = Table.insert 1 (codes "al") Table.empty;
      sessions = Table.insert 9 5 Table.empty;
    };
    turns = alone ∷ second ∷ [];
  };
  requests = [];
  frames = [];
  written = [];
}

abbrev channel : Channel
channel = record {
  cloned = true;
  events = out (some (codes "x")) broken ∷ [];
  chunks = (codes "x", delivered) ∷ [];
  upload = [];
  status = delivered;
  finished = true;
  forwarded = done;
}

abbrev served : World Shared
served = (serve_open ask 1 (read_file (codes "f")) channel world).1

file_read : (serve_open ask 1 (read_file (codes "f")) channel world).0 ≡ done
unfolding serve_open handle on_spawn_transfer spawned_as alloc index_insert serve
file_read = refl

-- The client gets the file and the exit code.
file_frames : served.frames ≡ data_msg (codes "x") ∷ exit_status (pos 0) ∷ []
unfolding serve_open handle on_spawn_transfer spawned_as alloc index_insert on_reap reap_child
    close_pam forget_session forget init serve
file_frames = refl

-- The session 1 of the channel, and the session 9 of the other one, are gone.
both_gone : (served.monitor.state.sessions 1 ≡ none) × (served.monitor.state.sessions 9 ≡ none)
unfolding serve_open handle on_spawn_transfer spawned_as alloc index_insert on_reap reap_child
    close_pam forget_session forget init serve
both_gone = (refl, refl)

serve_open-SessionEnded_example : SessionEnded world served
serve_open-SessionEnded_example =
    serve_open-SessionEnded 1 (read_file (codes "f")) channel world file_read

shell_spawned : session_of 1 (ask (Request.spawn_shell 1 (codes "xterm")) world.monitor).0 ≡ some 1
unfolding session_of handle on_spawn_login spawned_as alloc index_insert serve init
shell_spawned = refl

pump_failed : (pump_shell channel.events).0 ≡ failed
unfolding pump_shell run shell_step
pump_failed = refl

serve_open_failed_example :
    ((serve_open ask 1 (shell (codes "xterm") 80 24) channel world).0 ≡ error)
    × ((serve_open ask 1 (shell (codes "xterm") 80 24) channel world).1.requests
        ≡ Request.spawn_shell 1 (codes "xterm") ∷ [])
serve_open_failed_example =
    serve_open_failed ask 1 1 (codes "xterm") 80 24 channel world refl shell_spawned pump_failed
