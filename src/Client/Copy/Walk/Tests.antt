-- ===== src/Client/Copy/Walk/Tests.antt =====
-- A directory with one file beside it and one below, walked.
use quish.Base.{◌≡◌, refl, ap, ◌∙◌, inl, inr, some, [], ◌∷◌}
use quish.Base.Text.{codes}
use quish.Client.Copy.Walk.{
  Entries, dir, regular, other, end, entry, Walk, child_rel, collect_walk, collect_entries,
  sort_parts, merge_parts,
}
use quish.Client.Copy.Walk.Parents.{HasParent}

abbrev pub tree : Entries
tree =
    entry (codes "z") (dir 33261 (entry (codes "in") regular end))
      (entry (codes "link") other (entry (codes "a") regular end))

abbrev pub listed : Walk
listed = record {
  dirs = record { rel = codes "z"; mode = 493 } ∷ [];
  files = codes "a" ∷ codes "z/in" ∷ [];
}

pub tree_listed : collect_walk tree ≡ some listed
unfolding collect_walk collect_entries sort_parts merge_parts
tree_listed = refl

-- A file in a directory that was not made has no parent.
unmade : ¬ HasParent [] (codes "z/in")
unmade (parent, name, e, (_, plain), inl top) =
    let same : codes "z/in" ≡ name = e ∙ ap (λ p. child_rel p name) top in
    absurd (cc (rw (← same) at plain))
unmade (parent, name, e, plain, inr among) = absurd among
