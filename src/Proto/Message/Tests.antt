-- ===== src/Proto/Message/Tests.antt =====
-- Tests of the challenge headers and of the version gate.
use quish.Base.{◌≡◌, refl, true, false, none, some}
use quish.Base.Text.{codes, trim, parse_u32}
use quish.Proto.Message.{version_supported}

version_spaced : version_supported (some (codes " 2")) ≡ true
unfolding version_supported trim parse_u32
version_spaced = refl

version_absent : version_supported none ≡ false
unfolding version_supported
version_absent = refl
