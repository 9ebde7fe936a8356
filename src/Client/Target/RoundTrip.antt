-- ===== src/Client/Target/RoundTrip.antt =====
-- quish-client/src/main.rs: `parse_target` on `[user@]host[:port][/path]`.
use mathlib.Core.List.{append-nil, append_assoc}
use quish.Base.{
  ℕ, ◌≡◌, refl, sym, ap, ◌∙◌, ◌⊎◌, inl, inr, false, Option, none, some, [], ◌∷◌, ◌++◌, arith, ◌==◌,
  ==_refl, Bool-cases, is_empty,
}
use quish.Base.Text.{Bytes, codes, contains, strip_prefix, split_once, rsplit_once}
use quish.Base.Text.Laws.{contains-append, split_once-append}
use quish.Client.Copy.Spec.RoundTrip.{
  IsHost, print_user, print_host, contains-bracketed, strip_bracket,
}
use quish.Client.Target.{
  parse_u16, TargetError, and_then, some_port, bracketed, host_port, user_rest, before_path,
  from_parts, from_user, parse_target,
}

pub split_once_absent : (c : ℕ) (s : Bytes) → contains c s ≡ false → split_once c s ≡ none
split_once_absent c [] h = refl
split_once_absent c (b ∷ s) h = ground (arith, split_once_absent c s)

rsplit_once_absent : (c : ℕ) (s : Bytes) → contains c s ≡ false → rsplit_once c s ≡ none
rsplit_once_absent c [] h = refl
rsplit_once_absent c (b ∷ s) h = ground (arith, rsplit_once_absent c s)

rsplit_once-append :
    (c : ℕ) (l r : Bytes) → contains c r ≡ false → rsplit_once c (l ++ c ∷ r) ≡ some (l, r)
rsplit_once-append c [] r h = rw (rsplit_once_absent c r h) (rw (==_refl c))
rsplit_once-append c (b ∷ l) r h = rw (rsplit_once-append c l r h)

-- A port as its text and its number.
abbrev pub IsPort : Option (Bytes × ℕ) → Type 0
IsPort none = Unit {0}
IsPort (some (text, n)) =
    (parse_u16 text ≡ some n) × (contains b':' text ≡ false) × (contains b'/' text ≡ false)

abbrev pub print_port : Option (Bytes × ℕ) → Bytes
print_port none = []
print_port (some (text, n)) = b':' ∷ text

abbrev pub print_path : Option Bytes → Bytes
print_path none = []
print_path (some p) = b'/' ∷ p

-- Without a user the path and the port have no `@`, which would end one.
abbrev pub IsUnambiguous : Option Bytes → Option (Bytes × ℕ) → Option Bytes → Type 0
IsUnambiguous none port path = contains b'@' (print_port port ++ print_path path) ≡ false
IsUnambiguous (some u) port path = contains b'@' u ≡ false

pub print_target : Option Bytes → Bytes → Option (Bytes × ℕ) → Option Bytes → Bytes
print_target user host port path =
    print_user user (print_host host ++ (print_port port ++ print_path path))

abbrev pub number : Option (Bytes × ℕ) → Option ℕ
number none = none
number (some (text, n)) = some n

some_port_read : (text : Bytes) (n : ℕ) → parse_u16 text ≡ some n → some_port text ≡ inr (some n)
some_port_read text n e = rw (some_port, e)

port_read :
    {B : Type 0} (text : Bytes) (n : ℕ) (f : Option ℕ → TargetError ⊎ B)
    → parse_u16 text ≡ some n
    → and_then (some_port text) f ≡ f (some n)
port_read text n f e = ap (λ r. and_then r f) (some_port_read text n e)

strip_none :
    (h : Bytes) → contains b'[' h ≡ false → is_empty h ≡ false → strip_prefix (codes "[") h ≡ none
strip_none [] h e = cc
strip_none (c ∷ h) o e = ground arith

host_port-bracketed :
    (host : Bytes) (port : Option (Bytes × ℕ))
    → contains b']' host ≡ false
    → IsPort port
    → bracketed (host ++ b']' ∷ print_port port) ≡ inr (host, number port)
unfolding bracketed
host_port-bracketed host none h k = rw (bracketed, split_once-append b']' host [] h)
host_port-bracketed host (some (text, n)) h (e, _, _) =
    rw (bracketed, split_once-append b']' host (b':' ∷ text) h) (port_read text n _ e)

host_port-portless :
    (host : Bytes)
    → contains b'[' host ≡ false
    → is_empty host ≡ false
    → contains b':' host ≡ false
    → host_port host ≡ inr (host, none)
unfolding host_port
host_port-portless host opening full c =
    rw (host_port, strip_none host opening full) (rw (rsplit_once_absent b':' host c))

host_port-plain :
    (host : Bytes) (port : Option (Bytes × ℕ))
    → IsHost host
    → contains b':' host ≡ false
    → IsPort port
    → host_port (host ++ print_port port) ≡ inr (host, number port)
unfolding host_port
host_port-plain host none (full, at, slash, opening, closing) c k =
    rw (append-nil host) (host_port-portless host opening full c)
host_port-plain host (some (text, n)) (full, at, slash, opening, closing) c (e, d, _) =
    rw (host_port, strip_bracket host (b':' ∷ text) opening full)
      (rw (rsplit_once-append b':' host text d) (rw c (port_read text n _ e)))

host_port_read :
    (host : Bytes) (port : Option (Bytes × ℕ))
    → IsHost host
    → IsPort port
    → host_port (print_host host ++ print_port port) ≡ inr (host, number port)
unfolding host_port
host_port_read host port (full, at, slash, opening, closing) k =
    elim (Bool-cases (contains b':' host)) [
      | inl c ↦
          rw (host_port, c)
            (rw (append_assoc host (b']' ∷ []) (print_port port))
              (host_port-bracketed host port closing k))
      | inr c ↦ rw c (host_port-plain host port (full, at, slash, opening, closing) c k)
    ]

abbrev pub path_text : Option Bytes → Option Bytes
path_text none = none
path_text (some p) = some (b'/' ∷ p)

print_host_lacks :
    (c : ℕ) (host : Bytes)
    → contains c host ≡ false
    → (b'[' == c) ≡ false
    → (b']' == c) ≡ false
    → contains c (print_host host) ≡ false
print_host_lacks c host h o k = elim (Bool-cases (contains b':' host)) [
  | inl e ↦ rw e (rw o (contains-bracketed c host h k))
  | inr e ↦ rw e h
]

-- A `/` begins the path.
hostport_slash :
    (host : Bytes) (port : Option (Bytes × ℕ))
    → IsHost host
    → IsPort port
    → contains b'/' (print_host host ++ print_port port) ≡ false
hostport_slash host none hh k =
    rw (contains-append b'/' (print_host host) []) (rw (print_host_lacks b'/' host hh.2 refl refl))
hostport_slash host (some (text, n)) hh (_, _, d) =
    rw (contains-append b'/' (print_host host) (b':' ∷ text))
      (rw (print_host_lacks b'/' host hh.2 refl refl) d)

before_path_read :
    (hp : Bytes) (path : Option Bytes)
    → contains b'/' hp ≡ false
    → before_path (hp ++ print_path path) ≡ (hp, path_text path)
before_path_read hp none h = rw (append-nil hp) (rw (before_path, split_once_absent b'/' hp h))
before_path_read hp (some p) h = rw (before_path, split_once-append b'/' hp p h)

-- Before the user and the path, and between them, there is the host with its port.
user_rest_read :
    (user : Option Bytes) (host : Bytes) (port : Option (Bytes × ℕ)) (path : Option Bytes)
    → IsHost host
    → IsUnambiguous user port path
    → user_rest (print_target user host port path)
      ≡ (user, print_host host ++ (print_port port ++ print_path path))
unfolding print_target
user_rest_read none host port path hh h = rw (
  user_rest,
  split_once_absent b'@' (print_host host ++ (print_port port ++ print_path path)) (
      rw (contains-append b'@' (print_host host) (print_port port ++ print_path path))
        (rw (print_host_lacks b'@' host hh.1 refl refl) h)),
)
user_rest_read (some u) host port path hh h = rw (
  user_rest,
  split_once-append b'@' u (print_host host ++ (print_port port ++ print_path path)) h,
)

from_parts_read :
    (user : Option Bytes) (host : Bytes) (port : Option (Bytes × ℕ)) (path : Option Bytes)
    → is_empty host ≡ false
    → host_port (print_host host ++ print_port port) ≡ inr (host, number port)
    → from_parts user (print_host host ++ print_port port, path)
      ≡ inr (record { user = user; host = host; port = number port; path = path })
unfolding from_parts
from_parts_read user host port path full e = rw (from_parts, e) (rw full)

-- A target of a host, with or without user, port and path, is read back as these parts: the host
-- is in brackets when it contains a `:`, and without a user no `@` follows.
pub parse_target-print_target :
    (user : Option Bytes) (host : Bytes) (port : Option (Bytes × ℕ)) (path : Option Bytes)
    → IsHost host
    → IsPort port
    → IsUnambiguous user port path
    → parse_target (print_target user host port path)
      ≡ inr (record { user = user; host = host; port = number port; path = path_text path })
unfolding parse_target
parse_target-print_target user host port path hh hp h =
    let hostport = print_host host ++ print_port port in
    ap from_user (user_rest_read user host port path hh h)
    ∙ ap (λ r. from_parts user (before_path r))
        (sym (append_assoc (print_host host) (print_port port) (print_path path)))
    ∙ ap (from_parts user) (before_path_read hostport path (hostport_slash host port hh hp))
    ∙ from_parts_read user host port (path_text path) hh.0 (host_port_read host port hh hp)
