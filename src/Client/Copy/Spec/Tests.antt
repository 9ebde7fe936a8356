-- ===== src/Client/Copy/Spec/Tests.antt =====
-- Specs, parsed.
use quish.Base.{◌≡◌, refl, none, some}
use quish.Base.Text.{codes}
use quish.Client.Copy.Spec.{
  local, remote, ok, err, empty_host, expected_colon, parse_cp_spec, parse_plain, split_user,
  parse_bracketed,
}
use quish.Client.Copy.Spec.RoundTrip.{print_spec, parse_cp_spec-print_spec}

parse_cp_spec-print_spec_example :
    parse_cp_spec (print_spec (some (codes "al")) (codes "::1") (codes "a@b:c/d"))
    ≡ ok (remote (some (codes "al")) (codes "::1") (codes "a@b:c/d"))
parse_cp_spec-print_spec_example =
    parse_cp_spec-print_spec (some (codes "al")) (codes "::1") (codes "a@b:c/d") (refl, refl, refl)
      (refl, refl, refl, refl, refl)

parse_slash_first : parse_cp_spec (codes "./a:b") ≡ ok (local (codes "./a:b"))
unfolding parse_cp_spec split_user parse_plain parse_bracketed
parse_slash_first = refl

parse_no_host : parse_cp_spec (codes "u@:x") ≡ err empty_host
unfolding parse_cp_spec split_user parse_plain parse_bracketed
parse_no_host = refl

-- A local name that starts with `[` is not taken as a local path.
parse_bracket_local : parse_cp_spec (codes "[dir]/file") ≡ err expected_colon
unfolding parse_cp_spec split_user parse_plain parse_bracketed
parse_bracket_local = refl

parse_bracket_slash : parse_cp_spec (codes "[a/b]:c") ≡ ok (remote none (codes "a/b") (codes "c"))
unfolding parse_cp_spec split_user parse_plain parse_bracketed
parse_bracket_slash = refl
