-- ===== src/Client/Copy/Paths/Tests.antt =====
-- Landing paths.
use quish.Base.{◌≡◌, refl, true, some}
use quish.Base.Text.{codes}
use quish.Client.Copy.Paths.{
  last_segment, ends_with_slash, join, resolve_local_dst, resolve_remote_dst,
}

into_directory : resolve_local_dst (codes "dir") true (codes "/x/y.txt") ≡ some (codes "dir/y.txt")
unfolding resolve_local_dst last_segment ends_with_slash join
into_directory = refl

remote_root : resolve_remote_dst (codes "..") (codes "src") ≡ codes "../src"
unfolding resolve_remote_dst
remote_root = refl
