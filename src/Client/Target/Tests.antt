-- ===== src/Client/Target/Tests.antt =====
-- Targets.
use quish.Base.{
  ℕ, zero, suc, ◌+◌, ◌-◌, ◌*◌, ◌/◌, ◌%◌, ◌^◌, ◌≤◌, ◌<◌, min, ◌≡◌, refl, sym, ap, ◌∙◌, ◌≢◌, ◌↔◌, ◌⊎◌,
  inl, inr, Bool, true, false, not, ◌&&◌, ◌||◌, Option, none, some, List, [], ◌∷◌, ◌++◌, map,
  reverse, arith, ltb, leb, ◌==◌, if◌then◌else◌, ltb→lt, lt→ltb, ltb→ge, ge→ltb, leb→le, ==_iff,
  ==_refl, Bool-cases, Option-cases, ◌>>=◌, unwrap_or, is_some, length, get_elem?, get_or, take,
  drop, is_empty, any, all, retain, All, length-append, take-append_length, drop-append_length,
  take-append-drop, take-append_le, drop-append_le, length-take, length-drop,
}
use quish.Base.Text.{codes, trim}
use quish.Client.Target.{missing_host, parse_target, parse_u16}
use quish.Client.Target.RoundTrip.{print_target, parse_target-print_target}

port_number : parse_u16 (codes "443") ≡ some 443
unfolding parse_u16 quish.Base.Text.parse_u32
port_number = refl

parse_target-print_target_example :
    parse_target (
      print_target (some (codes "al")) (codes "::1") (some (codes "443", 443)) (some (codes "p@q")))
    ≡ inr (record {
      user = some (codes "al");
      host = codes "::1";
      port = some 443;
      path = some (codes "/p@q");
    })
parse_target-print_target_example =
    parse_target-print_target (some (codes "al")) (codes "::1") (some (codes "443", 443))
      (some (codes "p@q")) (refl, refl, refl, refl, refl) (port_number, refl, refl) refl

bare_address :
    parse_target (codes "::1")
    ≡ inr (record { user = none; host = codes "::1"; port = none; path = none })
unfolding parse_target
bare_address = refl

no_host : parse_target (codes "u@/p") ≡ inl missing_host
unfolding parse_target
no_host = refl

-- An `@` in the path of a target without a user: what stands before it is taken for the user.
at_in_path :
    parse_target (codes "h/p@q")
    ≡ inr (record { user = some (codes "h/p"); host = codes "q"; port = none; path = none })
unfolding parse_target
at_in_path = refl
