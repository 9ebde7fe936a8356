-- ===== src/Server/PrivDrop/Tests.antt =====
-- Tests of the privilege drop.
-- A kernel that refuses root to a process that asks for it, and allows all else.
use quish.Base.{
  ◌≡◌, refl, ◌≢◌, true, false, not, Option, none, some, [], ◌∷◌, map, ◌==◌, if◌then◌else◌, any, All,
}
use quish.Base.Text.{Bytes, codes}
use quish.Server.PrivDrop.{setuid, Kernel, Env, User, drop_to_worker, drop_to_user}
use quish.Server.PrivDrop.Session.{exec_shell, run_session_helper, argv_of, envp_of, helper_env}
use quish.Server.PrivDrop.Triples.{listed, creds, Guarded}
use quish.Base.Text.{bytes_eq, parse_u32}
use quish.Samples.{unary_base64}
use quish.Server.PamEnv.{records_of, split_lines, decode_blob, decode_pam_env}
use quish.Server.PrivDrop.Session.{entry, pam_entries}
use quish.Server.PrivDrop.Guarded.{them, Names}
use quish.Server.PrivDrop.Helper.{run_session_helper-Guarded}
use quish.Server.PrivDrop.Dropped.{worker_log, drop_to_worker_done}
use quish.Server.PrivDrop.Environment.{getenv, getenv-envp_of}
use quish.Server.PrivDrop.Seccomp.{worker_syscalls}

abbrev kernel : Kernel
kernel log (setuid uid) = not (uid == 0)
kernel log c = true

-- The environment of an exec channel.
abbrev env : Env
env key =
    if bytes_eq key (codes "QUISH_SESS_UID")
    then some (codes "7")
    else if bytes_eq key (codes "QUISH_SESS_GID")
    then some (codes "8")
    else if bytes_eq key (codes "QUISH_SESS_USER")
    then some (codes "al")
    else if bytes_eq key (codes "QUISH_SESS_HOME")
    then some (codes "/h")
    else if bytes_eq key (codes "QUISH_SESS_SHELL")
    then some (codes "/bin/sh")
    else if bytes_eq key (codes "QUISH_SESS_COMMAND")
    then some (codes "id")
    else none

-- The same with a terminal.
abbrev tty_env : Env
tty_env key = if bytes_eq key (codes "QUISH_SESS_TTY") then some (codes "/p") else env key

names : Names (some (codes "/p")) kernel (codes "al") 7 8 tty_env
unfolding Names parse_u32
names = (refl, refl, refl)

run_session_helper-Guarded_example :
    Guarded
      (some (codes "/p"))
      (them (some (codes "/p")) kernel (codes "al") 7 8)
      (run_session_helper kernel unary_base64 tty_env []).1
run_session_helper-Guarded_example =
    run_session_helper-Guarded (some (codes "/p")) kernel unary_base64 (codes "al") 7 8 tty_env
      names refl

-- The command does run.
succeeds : (run_session_helper kernel unary_base64 tty_env []).0 ≡ some tt
unfolding run_session_helper exec_shell drop_to_user parse_u32 argv_of envp_of pam_entries
succeeds = refl

abbrev passwd : Bytes → Option User
passwd name = some (record { uid = 9; gid = 10 })

worker_starts : (drop_to_worker kernel passwd (codes "/var") (codes "quish") []).0 ≡ some tt
unfolding drop_to_worker
worker_starts = refl

drop_to_worker_done_example :
    (u : User) × (passwd (codes "quish") ≡ some u)
    × (u.uid ≢ 0)
    × ((drop_to_worker kernel passwd (codes "/var") (codes "quish") []).1
        ≡ worker_log (codes "/var") u)
    × (creds (worker_log (codes "/var") u)
        ≡ record { uid = u.uid; gid = u.gid; groups = listed (u.gid ∷ []) })
drop_to_worker_done_example =
    drop_to_worker_done kernel passwd (codes "/var") (codes "quish") worker_starts

-- PAM's environment tries to move the home, and adds a variable.
abbrev encoded : Bytes
encoded = unary_base64.encode (codes "HOME=/x\nA=b=c\n")

whole_env :
    envp_of unary_base64
      (some encoded)
      (helper_env (codes "/h") (codes "al") (codes "/s") (codes "t"))
    ≡ some
        (codes "A=b=c" ∷ map entry (helper_env (codes "/h") (codes "al") (codes "/s") (codes "t")))
unfolding envp_of pam_entries decode_pam_env decode_blob records_of split_lines
whole_env = rw (envp_of, decode_pam_env, unary_base64.decode-encode (codes "HOME=/x\nA=b=c\n")) refl

getenv-envp_of_example :
    All
      (λ p.
        getenv p.0 (
          codes "A=b=c" ∷ map entry (helper_env (codes "/h") (codes "al") (codes "/s") (codes "t")))
        ≡ some p.1)
      (helper_env (codes "/h") (codes "al") (codes "/s") (codes "t"))
getenv-envp_of_example =
    getenv-envp_of unary_base64 (some encoded) (codes "/h") (codes "al") (codes "/s") (codes "t")
      whole_env

-- The worker may neither open files nor run programs.
filtered :
    (any (bytes_eq (codes "openat")) worker_syscalls ≡ false)
    × (any (bytes_eq (codes "execve")) worker_syscalls ≡ false)
filtered = (refl, refl)
