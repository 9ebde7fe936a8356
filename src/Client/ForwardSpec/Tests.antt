-- ===== src/Client/ForwardSpec/Tests.antt =====
-- Forward specs.
use quish.Base.{
  ℕ, zero, suc, ◌+◌, ◌-◌, ◌*◌, ◌/◌, ◌%◌, ◌^◌, ◌≤◌, ◌<◌, min, ◌≡◌, refl, sym, ap, ◌∙◌, ◌≢◌, ◌↔◌, ◌⊎◌,
  inl, inr, Bool, true, false, not, ◌&&◌, ◌||◌, Option, none, some, List, [], ◌∷◌, ◌++◌, map,
  reverse, arith, ltb, leb, ◌==◌, if◌then◌else◌, ltb→lt, lt→ltb, ltb→ge, ge→ltb, leb→le, ==_iff,
  ==_refl, Bool-cases, Option-cases, ◌>>=◌, unwrap_or, is_some, length, get_elem?, get_or, take,
  drop, is_empty, any, all, retain, All, length-append, take-append_length, drop-append_length,
  take-append-drop, take-append_le, drop-append_le, length-take, length-drop,
}
use quish.Base.Text.{Bytes, codes}
use quish.Server.RateLimit.{IpAddr}
use quish.Client.Target.{parse_u16}
use quish.Client.ForwardSpec.{
  localhost, ForwardSpec, split_loop, split_forward_tokens, parse_forward,
}
use quish.Client.ForwardSpec.Policy.{IsPermitted, parse_forward-IsPermitted}

abbrev no_address : Bytes → Option IpAddr
no_address s = none

abbrev accepted : ForwardSpec
accepted = record { bind = localhost; lport = 8080; rhost = codes "::1"; rport = 80 }

spec_read : parse_forward no_address (codes "8080:[::1]:80") ≡ inr accepted
unfolding parse_forward split_forward_tokens split_loop parse_u16 quish.Base.Text.parse_u32
spec_read = refl

parse_forward-IsPermitted_example : IsPermitted localhost 8080 (codes "::1") 80
parse_forward-IsPermitted_example =
    parse_forward-IsPermitted no_address (codes "8080:[::1]:80") accepted spec_read
