-- ===== src/Client/Copy/Upload/Tree.antt =====
-- quish-client/src/cp.rs: a walk, uploaded to a server that makes a directory where there is one to
-- put it in.
use quish.Base.{ℕ, ◌≡◌, List}
use quish.Base.Int.{pos}
use quish.Base.Text.{Bytes}
use quish.Client.Copy.Walk.{Walk}
use quish.Client.Copy.Walk.Parents.{IsName, Among}
use quish.Client.Copy.Upload.{Op, mkdir_one, upload_one, Outcome, code, below}

module _ {S : Type 0} (perform : Op → S → Outcome × S) (Exists : S → Bytes → Type 0) (root : Bytes)
    (root_made : (mode : ℕ) (s : S)
      → ((perform (mkdir_one root mode) s).0 ≡ code (pos 0))
        × Exists (perform (mkdir_one root mode) s).1 root)
    (child_made : (dir name : Bytes) (mode : ℕ) (s : S)
      → IsName name
      → Exists s dir
      → ((perform (mkdir_one (below dir name) mode) s).0 ≡ code (pos 0))
        × Exists (perform (mkdir_one (below dir name) mode) s).1 (below dir name))
    (file_put : (file dir name : Bytes) (s : S)
      → IsName name
      → Exists s dir
      → (perform (upload_one file (below dir name)) s).0 ≡ code (pos 0))
    (kept : (op : Op) (s : S) (path : Bytes) → Exists s path → Exists (perform op s).1 path) where
  abbrev Ready : S → List Bytes → Type 0
  Ready s made = Exists s root × ((r : Bytes) → Among r made → Exists s (below root r))
