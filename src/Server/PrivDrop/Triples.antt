-- ===== src/Server/PrivDrop/Triples.antt =====
-- The credentials of a process after the calls it made, which started as root.
use quish.Base.{
  ℕ, ◌≡◌, ◌∙◌, Bool, true, false, not, Option, none, some, List, [], ◌∷◌, if◌then◌else◌,
}
use quish.Base.Text.{Bytes, bytes_eq}
use quish.Server.PrivDrop.{
  Call, chroot, chdir, reopen_tty, is_dir, setgroups, initgroups, setgid, setuid, set_no_new_privs,
  set_pdeathsig, setsid, dup2_stdin, dup2_stdout, dup2_stderr, open_read, open_write, mkdir, fstat,
  is_file, already_exists, copy, flush, execve, Log, Kernel, Action, ◌>>=◌, or_fail, ensure, ask,
  call, try_call,
}

pub data Groups : Type 0 where
  of_root : Groups
  listed : List ℕ → Groups
  of_user : Bytes → ℕ → Groups

pub record Creds : Type 0 where
  pub uid : ℕ
  pub gid : ℕ
  pub groups : Groups

abbrev pub effect : Call → Creds → Creds
effect (chroot p) k = k
effect (chdir p) k = k
effect (reopen_tty p) k = k
effect (is_dir p) k = k
effect (setgroups gs) k = record k { groups = listed gs }
effect (initgroups user gid) k = record k { groups = of_user user gid }
effect (setgid gid) k = record k { gid = gid }
effect (setuid uid) k = record k { uid = uid }
effect set_no_new_privs k = k
effect set_pdeathsig k = k
effect setsid k = k
effect dup2_stdin k = k
effect dup2_stdout k = k
effect dup2_stderr k = k
effect (open_read p) k = k
effect (open_write p m) k = k
effect (mkdir p m) k = k
effect fstat k = k
effect is_file k = k
effect already_exists k = k
effect copy k = k
effect flush k = k
effect (execve p a e) k = k

abbrev pub creds : Log → Creds
creds [] = record { uid = 0; gid = 0; groups = of_root }
creds ((c, b) ∷ log) = if b then effect c (creds log) else creds log

-- The calls that open, make or read a file, run a program or move to a directory, but for the
-- opening of the session's own terminal.
abbrev pub touches : Option Bytes → Call → Bool
touches tty (chroot p) = true
touches tty (chdir p) = true
touches tty (reopen_tty p) = elim tty [ none ↦ true | some t ↦ not (bytes_eq p t) ]
touches tty (is_dir p) = true
touches tty (setgroups gs) = false
touches tty (initgroups user gid) = false
touches tty (setgid gid) = false
touches tty (setuid uid) = false
touches tty set_no_new_privs = false
touches tty set_pdeathsig = false
touches tty setsid = false
touches tty dup2_stdin = false
touches tty dup2_stdout = false
touches tty dup2_stderr = false
touches tty (open_read p) = true
touches tty (open_write p m) = true
touches tty (mkdir p m) = true
touches tty fstat = true
touches tty is_file = true
touches tty already_exists = true
touches tty copy = true
touches tty flush = true
touches tty (execve p a e) = true

module _ (tty : Option Bytes) (who : Creds) where
  -- Every such call was made with these credentials.
  abbrev pub Guarded : Log → Type 0
  Guarded [] = Unit {0}
  Guarded ((c, b) ∷ log) = (touches tty c ≡ true → creds log ≡ who) × Guarded log

  abbrev pub On : (Creds → Type 0) → Log → Type 0
  On P log = P (creds log) × Guarded log

  abbrev pub As : Log → Type 0
  As = On (λ k. k ≡ who)

  -- What an action ends with: a result where Q holds, or an error.
  abbrev pub Ends : (A : Type 0) → (Log → Type 0) → Option A × Log → Type 0
  Ends A Q (none, log) = Guarded log
  Ends A Q (some a, log) = Q log

  pub record Triple (A : Type 0) (P : Log → Type 0) (m : Action A) (Q : Log → Type 0) : Type 0 where
    pub holds : (log : Log) → P log → Ends A Q (m log)

  bind_next :
      {A B : Type 0} {Q R : Log → Type 0} (f : A → Action B) (r : Option A × Log)
      → Ends A Q r
      → ((a : A) → Triple B Q (f a) R)
      → Ends B R (elim r.0 [ none ↦ (none, r.1) | some a ↦ f a r.1 ])
  bind_next f (none, log) h k = h
  bind_next f (some a, log) h k = (k a).holds log h

  pub bind-Triple :
      {A B : Type 0} {P Q R : Log → Type 0} {m : Action A} {f : A → Action B}
      → Triple A P m Q
      → ((a : A) → Triple B Q (f a) R)
      → Triple B P (m >>= f) R
  bind-Triple {m = m} {f = f} h k = record {
    holds = λ log p. bind_next f (m log) (h.holds log p) k;
  }

  pub or_fail-Triple :
      {A : Type 0} (P : Creds → Type 0) (o : Option A) → Triple A (On P) (or_fail o) (On P)
  or_fail-Triple P none = record { holds = λ log h. h.1 }
  or_fail-Triple P (some a) = record { holds = λ log h. h }

  pub ensure-Triple : (P : Creds → Type 0) (b : Bool) → Triple (Unit {0}) (On P) (ensure b) (On P)
  ensure-Triple P true = record { holds = λ log h. h }
  ensure-Triple P false = record { holds = λ log h. h.1 }

  module _ (kernel : Kernel) where
    -- A call that changes the credentials and touches nothing.
    switched :
        (P Q : Creds → Type 0) (c : Call) (b : Bool) (log : Log)
        → touches tty c ≡ false
        → ((k : Creds) → P k → Q (effect c k))
        → On P log
        → Ends (Unit {0}) (On Q) ((if b then some tt else none), (c, b) ∷ log)
    switched P Q c true log e f (p, g) = (f (creds log) p, ((λ t. absurd (cc)), g))
    switched P Q c false log e f (p, g) = ((λ t. absurd (cc)), g)

    pub call-On :
        (P Q : Creds → Type 0) (c : Call)
        → touches tty c ≡ false
        → ((k : Creds) → P k → Q (effect c k))
        → Triple (Unit {0}) (On P) (call kernel c) (On Q)
    call-On P Q c e f = record { holds = λ log h. switched P Q c (kernel log c) log e f h }

    -- A call with these credentials that leaves them alone.
    after :
        (c : Call) (b : Bool) (log : Log)
        → ((k : Creds) → effect c k ≡ k)
        → As log
        → As ((c, b) ∷ log)
    after c true log e (h, g) = (e (creds log) ∙ h, ((λ t. h), g))
    after c false log e (h, g) = (h, ((λ t. h), g))

    pub ask-As : (c : Call) → ((k : Creds) → effect c k ≡ k) → Triple Bool As (ask kernel c) As
    ask-As c e = record { holds = λ log h. after c (kernel log c) log e h }

    pub try_call-As :
        (c : Call) → ((k : Creds) → effect c k ≡ k) → Triple (Unit {0}) As (try_call kernel c) As
    try_call-As c e = record { holds = λ log h. after c (kernel log c) log e h }

    settled :
        (b : Bool) (log : Log) → As log → Ends (Unit {0}) As ((if b then some tt else none), log)
    settled true log h = h
    settled false log h = h.1

    pub call-As :
        (c : Call) → ((k : Creds) → effect c k ≡ k) → Triple (Unit {0}) As (call kernel c) As
    call-As c e = record {
      holds = λ log h.
          settled (kernel log c) ((c, kernel log c) ∷ log) (after c (kernel log c) log e h);
    }
