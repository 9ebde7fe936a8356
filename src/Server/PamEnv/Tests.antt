-- ===== src/Server/PamEnv/Tests.antt =====
-- Tests of the environment's encoding.
use quish.Base.{◌≡◌, refl, List, [], ◌∷◌, ◌++◌}
use quish.Base.Text.{Bytes, codes}
use quish.Server.PamEnv.{decode_blob, split_lines, records_of}

-- A value may hold an `=`; a line without one is skipped.
decode_blob_lines :
    decode_blob (codes "A=b=c" ++ 10 ∷ 10 ∷ codes "junk") ≡ (codes "A", codes "b=c") ∷ []
unfolding decode_blob split_lines records_of
decode_blob_lines = refl

abbrev env : List (Bytes × Bytes)
env = (codes "LANG", codes "C") ∷ (codes "BAD=", codes "x") ∷ []
