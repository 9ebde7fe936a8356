-- ===== src/Client/Copy/Walk.antt =====
-- quish-client/src/cp.rs: `collect_walk`. A directory on disk is a tree; its names are UTF-8, for
-- which `to_string_lossy` is the identity, and differ within one directory.
pub mod Parents
pub mod Tests
use quish.Base.{
  ℕ, zero, suc, ◌+◌, ◌-◌, ◌*◌, ◌/◌, ◌%◌, ◌^◌, ◌≤◌, ◌<◌, min, ◌≡◌, refl, sym, ap, ◌∙◌, ◌≢◌, ◌↔◌, ◌⊎◌,
  inl, inr, Bool, true, false, not, ◌&&◌, ◌||◌, Option, none, some, List, [], ◌∷◌, ◌++◌, map,
  reverse, arith, ltb, leb, ◌==◌, if◌then◌else◌, ltb→lt, lt→ltb, ltb→ge, ge→ltb, leb→le, ==_iff,
  ==_refl, Bool-cases, Option-cases, ◌>>=◌, unwrap_or, is_some, length, get_elem?, get_or, take,
  drop, is_empty, any, all, retain, All, length-append, take-append_length, drop-append_length,
  take-append-drop, take-append_le, drop-append_le, length-take, length-drop,
}
use quish.Base.Text.{Bytes}

-- `other` is neither a directory nor a regular file; `unreadable` is a directory or an entry for
-- which the system reports an error.
mutual
  pub data Node : Type 0 where
    dir : ℕ → Entries → Node
    regular : Node
    other unreadable : Node

  pub data Entries : Type 0 where
    end : Entries
    entry : Bytes → Node → Entries → Entries

pub record WalkDir : Type 0 where
  pub rel : Bytes
  pub mode : ℕ

-- A `WalkFile` is its path.
pub record Walk : Type 0 where
  pub dirs : List WalkDir
  pub files : List Bytes

abbrev pub child_rel : Bytes → Bytes → Bytes
child_rel rel name = if is_empty rel then name else rel ++ b'/' ∷ name

abbrev pub append_walk : Walk → Walk → Walk
append_walk v w = record { dirs = v.dirs ++ w.dirs; files = v.files ++ w.files }

abbrev pub no_walk : Walk
no_walk = record { dirs = []; files = [] }

-- `OsString`'s order, byte by byte.
abbrev pub name_leb : Bytes → Bytes → Bool
name_leb [] ys = true
name_leb (_ ∷ _) [] = false
name_leb (x ∷ xs) (y ∷ ys) = ltb x y || ((x == y) && name_leb xs ys)

-- `sort_by_key`: what each entry adds, in the order of the names.
pub insert_part : Bytes × Walk → List (Bytes × Walk) → List (Bytes × Walk)
insert_part p [] = p ∷ []
insert_part p (q ∷ qs) =
    let rest = insert_part p qs in if name_leb p.0 q.0 then p ∷ q ∷ qs else q ∷ rest

pub sort_parts : List (Bytes × Walk) → List (Bytes × Walk)
unfolding insert_part
sort_parts [] = []
sort_parts (p ∷ ps) = insert_part p (sort_parts ps)

pub merge_parts : List (Bytes × Walk) → Walk
merge_parts [] = no_walk
merge_parts (p ∷ ps) = append_walk p.1 (merge_parts ps)

-- `collect_dir`: the entry at `rel`, and each entry of a directory at `rel`. `none` is an error.
mutual
  unfolding sort_parts merge_parts

  pub collect_node : Bytes → Node → Option Walk
  collect_node rel (dir mode es) = collect_entries rel es >>= λ parts.
      let below = merge_parts (sort_parts parts) in
      some (record {
        dirs = record { rel = rel; mode = mode % 512 } ∷ below.dirs;
        files = below.files;
      })
  collect_node rel regular = some (record { dirs = []; files = rel ∷ [] })
  collect_node rel other = some no_walk
  collect_node rel unreadable = none

  pub collect_entries : Bytes → Entries → Option (List (Bytes × Walk))
  collect_entries rel end = some []
  collect_entries rel (entry name node es) =
      let rest = collect_entries rel es in
      collect_node (child_rel rel name) node >>= λ walk.
      (rest >>= λ parts. some ((name, walk) ∷ parts))

pub collect_walk : Entries → Option Walk
unfolding collect_entries sort_parts merge_parts
collect_walk es = collect_entries [] es >>= λ parts. some (merge_parts (sort_parts parts))
