-- ===== src/Samples/Tree.antt =====
-- A tree of directories for the tests: `/` and `/var` of root and `/var/keylix` of user 7, and `/tmp`,
-- which everyone may write. The state holds the names of the files that were made.
use keylix_community.Prelude.{
  true, false, List, [], ◌∷◌, none, Bytes, Result, ok, err, if◌then◌else◌, bytes_eq, codes,
}
use keylix_community.Verifier.Directory.{IoError, not_found}
use keylix_community.Verifier.Directory.Trust.{DirStat, normal, root_dir}
use keylix_community.Verifier.Directory.Trust.Opening.{OpenAt, FilePath}
use keylix_community.Samples.Host.{repeat}

pub data Place : Type 0 where
  root var tmp keylix : Place

abbrev below : Place → Bytes → Result IoError Place
below root name =
    if bytes_eq name (codes "var")
    then ok var
    else if bytes_eq name (codes "tmp")
    then ok tmp
    else err not_found
below var name = if bytes_eq name (codes "keylix") then ok keylix else err not_found
below tmp name = if bytes_eq name (codes "keylix") then ok keylix else err not_found
below keylix name = err not_found

abbrev stat_of : Place → DirStat
stat_of root = record { uid = 0; gid = 0; mode = 0o755 }
stat_of var = record { uid = 0; gid = 0; mode = 0o755 }
stat_of tmp = record { uid = 0; gid = 0; mode = 0o777 }
stat_of keylix = record { uid = 7; gid = 7; mode = 0o700 }

abbrev pub tree : OpenAt (List Bytes) Place Bytes
tree = record {
  open_root = λ s. (ok root, s);
  sub_dir = λ place name s. (below place name, s);
  try_clone = λ place s. (ok place, s);
  self_metadata = λ place s. (ok (stat_of place), s);
  new_file = λ place name s. (ok name, name ∷ s);
  open_file = λ place name s. (ok name, s);
  remove_file = λ place name s. (ok tt, []);
  file_metadata = λ file s. (
    ok (record {
      is_file = true;
      is_symlink = false;
      is_socket = false;
      uid = 7;
      mode = 0o600;
      size = 0;
    }),
    s,
  );
  read_at_most = λ file n s. (ok [], s);
  get_xattr = λ file name s. (ok none, s);
  fill_random = λ n s. (ok (repeat n 7), s);
  is_single_component = λ name. true;
}

abbrev pub path_below : Bytes → FilePath
path_below name = record {
  is_absolute = true;
  components = root_dir ∷ normal name ∷ normal (codes "keylix") ∷ [];
}
