-- ===== src/Server/PamEnv/RoundTrip.antt =====
-- What comes back of an environment.
use quish.Base.{
  ◌≡◌, refl, sym, ap, ◌∙◌, inl, inr, false, not, List, [], ◌∷◌, ◌++◌, arith, Bool-cases, retain,
}
use mathlib.Core.List.{append_assoc}
use quish.Base.Text.{Bytes, contains}
use quish.Base.Text.Laws.{contains-append, split_once-append}
use quish.Auth.Types.{Base64}
use quish.Server.PamEnv.{
  is_skipped, blob_of, encode_pam_env, split_lines, records_of, decode_blob, decode_pam_env,
}

-- A line without a line feed is one piece.
split_lines-append :
    (line rest : Bytes)
    → contains 10 line ≡ false
    → split_lines (line ++ 10 ∷ rest) ≡ (line, (split_lines rest).0 ∷ (split_lines rest).1)
unfolding split_lines
split_lines-append [] rest h = refl
split_lines-append (b ∷ line) rest h = ground (arith, h, split_lines-append line rest)

decode_blob_record :
    (k v rest : Bytes)
    → is_skipped (k, v) ≡ false
    → decode_blob ((k ++ b'=' ∷ v) ++ 10 ∷ rest) ≡ (k, v) ∷ decode_blob rest
unfolding decode_blob records_of
decode_blob_record k v rest h =
    rw
      (split_lines-append (k ++ b'=' ∷ v) rest (ground (arith, h, contains-append 10 k (b'=' ∷ v))))
      (rw (split_once-append b'=' k v (ground (arith, h)), records_of) refl)

decode_blob-blob_of :
    (env : List (Bytes × Bytes))
    → decode_blob (blob_of env) ≡ retain (λ kv. not (is_skipped kv)) env
unfolding blob_of
decode_blob-blob_of [] = unfold decode_blob split_lines records_of in refl
decode_blob-blob_of ((k, v) ∷ env) = elim (Bool-cases (is_skipped (k, v))) [
  | inl e ↦ rw e (decode_blob-blob_of env)
  | inr e ↦ rw e (
      ap decode_blob (sym (append_assoc k (b'=' ∷ v) (10 ∷ blob_of env)))
      ∙ decode_blob_record k v (blob_of env) e
      ∙ ap (λ l. (k, v) ∷ l) (decode_blob-blob_of env))
]

-- Decoding gives back the environment that was encoded, in order, without the records that have an
-- `=` in their key or a line feed.
pub decode_pam_env-encode_pam_env :
    (base64 : Base64) (env : List (Bytes × Bytes))
    → decode_pam_env base64 (encode_pam_env base64 env) ≡ retain (λ kv. not (is_skipped kv)) env
unfolding decode_pam_env encode_pam_env
decode_pam_env-encode_pam_env base64 env =
    rw (base64.decode-encode (blob_of env), decode_pam_env) (decode_blob-blob_of env)
