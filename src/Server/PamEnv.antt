-- ===== src/Server/PamEnv.antt =====
-- quish-server/src/ipc.rs: `encode_pam_env` and `decode_pam_env`, the environment of a PAM session
-- on its way to the helper.
pub mod RoundTrip
mod Tests
use quish.Base.{
  ℕ, zero, suc, ◌+◌, ◌-◌, ◌*◌, ◌/◌, ◌%◌, ◌^◌, ◌≤◌, ◌<◌, min, ◌≡◌, refl, sym, ap, ◌∙◌, ◌≢◌, ◌↔◌, ◌⊎◌,
  inl, inr, Bool, true, false, not, ◌&&◌, ◌||◌, Option, none, some, List, [], ◌∷◌, ◌++◌, map,
  reverse, arith, ltb, leb, ◌==◌, if◌then◌else◌, ltb→lt, lt→ltb, ltb→ge, ge→ltb, leb→le, ==_iff,
  ==_refl, Bool-cases, Option-cases, ◌>>=◌, unwrap_or, is_some, length, get_elem?, get_or, take,
  drop, any, all, retain, All, length-append, take-append_length, drop-append_length,
  take-append-drop, take-append_le, drop-append_le, length-take, length-drop,
}
use quish.Base.Text.{Bytes, contains, split_once}
use quish.Auth.Types.{Base64}

-- A record that would not come back is skipped.
abbrev pub is_skipped : Bytes × Bytes → Bool
is_skipped (k, v) = contains b'=' k || contains 10 k || contains 10 v

pub blob_of : List (Bytes × Bytes) → Bytes
blob_of [] = []
blob_of ((k, v) ∷ env) =
    let rest = blob_of env in if is_skipped (k, v) then rest else (k ++ b'=' ∷ (v ++ 10 ∷ rest))

pub encode_pam_env : Base64 → List (Bytes × Bytes) → Bytes
unfolding blob_of
encode_pam_env base64 env = base64.encode (blob_of env)

-- `blob.split(|&b| b == b'\n')`: always one piece at least. The first piece, and the others.
unfoldable pub split_lines : Bytes → Bytes × List Bytes
split_lines [] = ([], [])
split_lines (b ∷ bs) =
    let (line, lines) = split_lines bs in if b == 10 then ([], line ∷ lines) else (b ∷ line, lines)

-- One line: its record, unless it is empty or has no `=`.
unfoldable pub records_of : List Bytes → List (Bytes × Bytes)
records_of [] = []
records_of (line ∷ lines) = elim (split_once b'=' line) [
  | none ↦ records_of lines
  | some pair ↦ pair ∷ records_of lines
]

unfoldable pub decode_blob : Bytes → List (Bytes × Bytes)
unfolding split_lines records_of
decode_blob blob = let (line, lines) = split_lines blob in records_of (line ∷ lines)

unfoldable pub decode_pam_env : Base64 → Bytes → List (Bytes × Bytes)
unfolding decode_blob
decode_pam_env base64 encoded = elim (base64.decode encoded) [
  | none ↦ []
  | some blob ↦ decode_blob blob
]
