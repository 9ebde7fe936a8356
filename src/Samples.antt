-- ===== src/Samples.antt =====
-- Concrete instances of the crates that the models take as parameters, for the tests.
use quish.Base.{
  ℕ, zero, suc, ◌+◌, ◌≡◌, refl, sym, ap, ◌∙◌, true, false, Option, none, some, [], ◌∷◌, ◌++◌, arith,
  ◌==◌, if◌then◌else◌, length, get_or, take, drop, any, All, take-append_length, drop-append_length,
}
use mathlib.Core.Option.{some-injective}
use quish.Base.Text.{Bytes, codes, bytes_eq, strip_prefix}
use quish.Base.Text.Laws.{IsGraphic, bytes_eq_refl}
use quish.Proto.Frame.{Codec}
use quish.Auth.Types.{Base64, Token}
use quish.Auth.Totp.{Hmac}
use quish.Auth.Pubkey.{Crypto}

-- Messages that are bytes already.
abbrev pub bytes_codec : Codec Bytes
bytes_codec = record { to_stdvec = λ m. some m; from_bytes = λ b. some b; from_to = λ m b h. sym h }

-- A token with the lengths of its first two fields in front of them.
pub write_token : Token → Bytes
write_token t =
    length t.username ∷ (t.username ++ length t.pubkey ∷ (t.pubkey ++ t.timestamp ∷ t.signature))

read_tail : Bytes → Bytes → Bytes → Option Token
read_tail username pubkey [] = none
read_tail username pubkey (timestamp ∷ signature) =
    some (record {
      username = username;
      pubkey = pubkey;
      timestamp = timestamp;
      signature = signature;
    })

read_pubkey : Bytes → Bytes → Option Token
read_pubkey username [] = none
read_pubkey username (n ∷ rest) = read_tail username (take n rest) (drop n rest)

pub read_token : Bytes → Option Token
read_token [] = none
read_token (n ∷ rest) = read_pubkey (take n rest) (drop n rest)

pub read_token-write_token : (t : Token) → read_token (write_token t) ≡ some t
unfolding read_token read_pubkey read_tail write_token
read_token-write_token t =
    let tail = t.timestamp ∷ t.signature in
    let more = length t.pubkey ∷ (t.pubkey ++ tail) in
    rw (take-append_length t.username more) (
      rw (drop-append_length t.username more)
        (rw (take-append_length t.pubkey tail) (rw (drop-append_length t.pubkey tail) refl)))

abbrev pub token_codec : Codec Token
token_codec = record {
  to_stdvec = λ t. some (write_token t);
  from_bytes = read_token;
  from_to =
      λ t b h. ap read_token (some-injective b (write_token t) (sym h)) ∙ read_token-write_token t;
}

-- A byte as that many times `A` and a `B`.
write_byte : ℕ → Bytes → Bytes
write_byte zero rest = b'B' ∷ rest
write_byte (suc n) rest = b'A' ∷ write_byte n rest

pub write_bytes : Bytes → Bytes
write_bytes [] = []
write_bytes (b ∷ bs) = write_byte b (write_bytes bs)

pub read_bytes : ℕ → Bytes → Option Bytes
read_bytes count [] = if count == 0 then some [] else none
read_bytes count (c ∷ cs) = elim (c == b'A') [
  | true ↦ read_bytes (suc count) cs
  | false ↦ elim (read_bytes 0 cs) [ none ↦ none | some bs ↦ some (count ∷ bs) ]
]

read_bytes-write_byte :
    (count n : ℕ) (rest bs : Bytes)
    → read_bytes 0 rest ≡ some bs
    → (total : ℕ) → total ≡ count + n
    → read_bytes count (write_byte n rest) ≡ some (total ∷ bs)
unfolding read_bytes write_byte
read_bytes-write_byte count zero rest bs h total e = ground (arith, h)
read_bytes-write_byte count (suc n) rest bs h total e =
    read_bytes-write_byte (suc count) n rest bs h total (omega arith)

pub read_bytes-write_bytes : (bs : Bytes) → read_bytes 0 (write_bytes bs) ≡ some bs
unfolding read_bytes write_bytes
read_bytes-write_bytes [] = refl
read_bytes-write_bytes (b ∷ bs) =
    read_bytes-write_byte 0 b (write_bytes bs) bs (read_bytes-write_bytes bs) b (omega arith)

module _ {ℓ} (P : ℕ → Type ℓ) (a : P b'A') (b : P b'B') where
  write_byte-All : (n : ℕ) (rest : Bytes) → All P rest → All P (write_byte n rest)
  unfolding write_byte
  write_byte-All zero rest h = (b, h)
  write_byte-All (suc n) rest h = (a, write_byte-All n rest h)

  pub write_bytes-All : (bs : Bytes) → All P (write_bytes bs)
  unfolding write_bytes
  write_bytes-All [] = tt
  write_bytes-All (x ∷ xs) = write_byte-All x (write_bytes xs) (write_bytes-All xs)

pub dotless : (s : Bytes) → All (λ c. (c == b'.') ≡ false) s → any (λ c. c == b'.') s ≡ false
dotless [] h = refl
dotless (c ∷ s) (p, h) = rw p (dotless s h)

abbrev pub unary_base64 : Base64
unary_base64 = record {
  encode = write_bytes;
  decode = read_bytes 0;
  decode-encode = read_bytes-write_bytes;
  encode_graphic = write_bytes-All IsGraphic (omega arith, omega arith) (omega arith, omega arith);
  encode_dotless =
      λ bs. dotless (write_bytes bs) (write_bytes-All (λ c. (c == b'.') ≡ false) refl refl bs);
}

-- Twenty bytes of which the last two depend on the message.
abbrev pub short_hmac : Hmac
short_hmac = record {
  sha1 = λ key message.
      1
      ∷ 2
      ∷ 3
      ∷ 4
      ∷ 5
      ∷ 6
      ∷ 7
      ∷ 8
      ∷ 9
      ∷ 10
      ∷ 11
      ∷ 12
      ∷ 13
      ∷ 14
      ∷ 15
      ∷ 16
      ∷ 17
      ∷ 18
      ∷ length key
      ∷ get_or message 7 0
      ∷ [];
  sha1_length = λ key message. refl;
}

-- Signatures that count the bytes of the key and of the message.
abbrev zeros : ℕ → Bytes
zeros zero = []
zeros (suc n) = 0 ∷ zeros n

abbrev counted : Bytes → Bytes → Bytes
counted secret message = length secret ∷ length message ∷ zeros 62

abbrev pub counting_crypto : Crypto
counting_crypto = record {
  public_key = λ secret. secret;
  sign = counted;
  verifying_key = λ key. true;
  verify = λ key message signature. bytes_eq signature (counted key message);
  openssh_ed25519 = strip_prefix (codes "ssh-ed25519 ");
  length-sign = λ secret message. refl;
  public_key_valid = λ secret. refl;
  sign-verify = λ secret message. bytes_eq_refl (counted secret message);
}
