-- ===== src/Auth/Pubkey/Tests.antt =====
-- Tests of the signed tokens.
use quish.Base.{
  ℕ, zero, suc, ◌≡◌, refl, ◌↔◌, ◌+◌, ◌≤◌, inl, inr, true, length, Bool-cases, none, some, [], ◌∷◌,
  ◌++◌, arith, if◌then◌else◌,
}
use quish.Base.Text.{Bytes, codes, bytes_eq, trim}
use quish.Base.Text.Lines.{lines, lines_loop, strip_cr}
use quish.Base.Text.Utf8.{from_utf8}
use quish.Base.Text.Laws.{bytes_eq_refl, bytes_eq→eq}
use quish.Samples.{counting_crypto}
use quish.Auth.Types.{Token, password, signed_token, ConnInfo, allow}
use quish.Auth.Pubkey.{
  Crypto, timestamp_window_secs, signing_payload, check_token, abs_diff, to_le_bytes, File, regular,
  missing, PubkeyBackend, read_authorized_keys, key_line_matches, authorized, authenticate,
  new_token,
}
use quish.Auth.Pubkey.Soundness.{Authentic, authenticate-allow, authenticate-new_token}
use quish.Auth.Pubkey.Bound.{authenticate-bound}

abbrev secret : Bytes
secret = codes "K1"

-- A comment, a key of somebody else, and the key.
abbrev file_of : Bytes → File
file_of path =
    if bytes_eq path (codes "/home/ann")
    then regular (codes "# keys" ++ 10 ∷ codes "ssh-ed25519 K0" ++ 13 ∷ 10 ∷ codes "ssh-ed25519 K1")
    else missing

abbrev backend : PubkeyBackend
backend = record {
  resolver = λ user. if bytes_eq user (codes "ann") then some (codes "/home/ann") else none;
  file_at = file_of;
}

abbrev zeros : ℕ → Bytes
zeros zero = []
zeros (suc n) = 0 ∷ zeros n

abbrev conn : ConnInfo
conn = record { peer_addr = codes "10.0.0.1:4"; channel_binding = zeros 32; challenge = none }

lines_crlf : lines (97 ∷ 13 ∷ 10 ∷ 98 ∷ []) ≡ (97 ∷ []) ∷ (98 ∷ []) ∷ []
unfolding lines lines_loop strip_cr
lines_crlf = refl

authenticate-allow_example :
    (authenticate counting_crypto backend 1000 conn (password (codes "ann") [])
      ≡ allow (codes "ann"))
    ↔ ((tok : Token) × (password (codes "ann") [] ≡ signed_token tok)
        × (codes "ann" ≡ tok.username)
        × Authentic counting_crypto backend 1000 conn.channel_binding tok)
authenticate-allow_example =
    authenticate-allow counting_crypto backend 1000 conn (password (codes "ann") []) (codes "ann")

authenticate-new_token_example :
    authenticate counting_crypto backend 1000 conn
      (signed_token (new_token counting_crypto secret (codes "ann") conn.channel_binding 1600))
    ≡ allow (codes "ann")
unfolding authorized new_token read_authorized_keys from_utf8 lines lines_loop strip_cr
    key_line_matches trim
authenticate-new_token_example =
    authenticate-new_token counting_crypto backend 1000 conn secret (codes "ann") 1600 (omega arith)
      (omega arith) refl

-- A scheme under which a message of the example has a signature of its own.
abbrev message_of : ℕ → Bytes
message_of time = signing_payload conn.channel_binding (codes "ann") time

abbrev mark : Bytes → Bytes
mark message = (if bytes_eq message (message_of 1600) then 1 else 0) ∷ zeros 63

length-mark : (message : Bytes) → length (mark message) ≡ 64
length-mark message = ground arith

abbrev marking_crypto : Crypto
marking_crypto = record counting_crypto {
  sign = λ secret message. mark message;
  verify = λ key message signature. bytes_eq signature (mark message);
  length-sign = λ secret message. length-mark message;
  sign-verify = λ secret message. bytes_eq_refl (mark message);
}

abbrev marked_token : Token
marked_token = record {
  username = codes "ann";
  pubkey = secret;
  timestamp = 1600;
  signature = 1 ∷ zeros 63;
}

marks_one :
    (message : Bytes)
    → marking_crypto.verify secret message marked_token.signature ≡ true
    → message ≡ message_of 1600
marks_one message h = elim (Bool-cases (bytes_eq message (message_of 1600))) [
  | inl e ↦ bytes_eq→eq message (message_of 1600) e
  | inr e ↦ absurd (cc (rw e at h))
]

marked_allowed :
    authenticate marking_crypto backend 1000 conn (signed_token marked_token) ≡ allow (codes "ann")
unfolding authenticate check_token abs_diff authorized read_authorized_keys from_utf8 lines
    lines_loop strip_cr key_line_matches trim signing_payload to_le_bytes
marked_allowed = refl

authenticate-bound_example :
    (conn.channel_binding ≡ conn.channel_binding)
    × (codes "ann" ≡ codes "ann")
    × (1000 ≤ 1600 + timestamp_window_secs)
    × (1600 ≤ 1000 + timestamp_window_secs)
authenticate-bound_example =
    authenticate-bound marking_crypto backend 1000 conn marked_token (codes "ann")
      conn.channel_binding (codes "ann") 1600 refl refl (omega arith) (omega arith) marks_one
      marked_allowed
