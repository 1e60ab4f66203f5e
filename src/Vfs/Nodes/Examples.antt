-- ===== src/Vfs/Nodes/Examples.antt =====
-- The theorems about nodes at a directory that holds one name.
use dionysus.Prelude.{none, some, [], ◌∷◌}
use dionysus.Prelude.Str.{Str, str_eq}
use dionysus.Prelude.Int.{pos}
use dionysus.Vfs.Nodes.{VfsNode}

-- "a" and "b"
abbrev name_a : Str
name_a = 97 ∷ []

abbrev name_b : Str
name_b = 98 ∷ []

abbrev directory : VfsNode
directory = record {
  mode = 131072;
  flags = 1;
  refcount = pos 1;
  sb = 1;
  sb_flags = 0;
  open_op = some (λ flags. pos 0);
  close_op = none;
  readdir_op = none;
  finddir_op = some (λ name. str_eq name name_a);
  ioctl_op = none;
  create_op = some (λ name uid gid mode dev. pos 0);
  link_op = some (λ child name. pos 0);
  unlink_op = none;
}
