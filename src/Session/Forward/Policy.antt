-- ===== src/Session/Forward/Policy.antt =====
-- A forward reaches and listens on loopback addresses alone.
use quish.Base.{ℕ, ◌≤◌, ◌≡◌, refl, Bool, true, Option, none, some, List, [], ◌∷◌, arith}
use quish.Session.Forward.{
  SocketAddr, is_loopback, loopback_only, forward_target, remote_bind_allowed, listen_target,
}

-- If a forward connects, forwarding is on, and every address of the name, so also the one that it
-- connects to, is a loopback address.
pub forward_target_loopback :
    (allow_forward : Bool) (resolved : Option (List SocketAddr)) (target : SocketAddr)
    → forward_target allow_forward resolved ≡ some target
    → (allow_forward ≡ true)
      × (is_loopback target.ip ≡ true)
      × (addrs : List SocketAddr) × (resolved ≡ some addrs)
      × (loopback_only addrs ≡ true)
unfolding forward_target
forward_target_loopback allow_forward none target h = absurd (cc)
forward_target_loopback allow_forward (some []) target h = absurd (ground (arith, h))
forward_target_loopback allow_forward (some (a ∷ rest)) target h =
    (ground (arith, h), ground (arith, h), a ∷ rest, refl, ground (arith, h))

-- If a remote forward listens, remote forwarding is on, the port is not privileged, and the address
-- is a loopback address.
pub listen_target_loopback :
    (allow_remote_forward : Bool) (port : ℕ) (resolved : Option (List SocketAddr))
    (target : SocketAddr)
    → listen_target allow_remote_forward port resolved ≡ some target
    → (allow_remote_forward ≡ true) × (1024 ≤ port) × (is_loopback target.ip ≡ true)
unfolding listen_target remote_bind_allowed
listen_target_loopback allow_remote_forward port none target h = absurd (cc)
listen_target_loopback allow_remote_forward port (some []) target h = ground (arith, h)
listen_target_loopback allow_remote_forward port (some (a ∷ rest)) target h = ground (arith, h)
