-- ===== src/Verifier/Directory/Trust.antt =====
-- What crates/keylix-verifier/src/secure_fs.rs demands of the components of a path, and of the metadata
-- of a directory and of a file, before it uses them.
pub mod Opening
pub mod Way
pub mod Laws
use keylix_community.Prelude.{
  ℕ, ◌/◌, ◌%◌, Bool, ◌||◌, ◌&&◌, not, List, [], ◌∷◌, Option, none, some, Bytes, Result, ok, err,
  ◌>>=◌, ◌>>◌, fail_if, if◌then◌else◌, ltb, ◌==◌, length, is_empty,
}
use keylix_community.Verifier.Directory.{IoError, other}

-- `std::path::Component`.
pub data Component : Type 0 where
  root_dir cur_dir parent_dir prefix : Component
  normal : Bytes → Component

-- `normalized_absolute_components`, on whether the path is absolute and its components.
unfoldable pub read_components : List Component → Result IoError (List Bytes)
read_components [] = ok []
read_components (root_dir ∷ components) = read_components components
read_components (normal value ∷ components) = do
  rest ← read_components components
  ok (value ∷ rest)
read_components (_ ∷ components) = err other

unfoldable pub normalized_absolute_components : Bool → List Component → Result IoError (List Bytes)
normalized_absolute_components is_absolute components =
    if not is_absolute then err other else read_components components

-- Owner, group and mode of a directory.
pub record DirStat : Type 0 where
  pub uid : ℕ
  pub gid : ℕ
  pub mode : ℕ

-- `mode & 0o022 != 0`.
abbrev pub is_shared_writable : ℕ → Bool
is_shared_writable mode = ((mode / 16) % 2 == 1) || ((mode / 2) % 2 == 1)

-- `mode & 0o077 != 0`.
abbrev pub is_shared : ℕ → Bool
is_shared mode = not (mode % 64 == 0)

unfoldable pub validate_directory : ℕ → DirStat → Result IoError (Unit {0})
validate_directory trusted_uid stat = do
  fail_if (not (stat.uid == 0) && not (stat.uid == trusted_uid)) other
  fail_if (is_shared_writable stat.mode) other

unfoldable pub validate_leaf_metadata : ℕ → DirStat → Result IoError (Unit {0})
validate_leaf_metadata owner_uid stat =
    fail_if (not (stat.uid == owner_uid) || is_shared stat.mode) other

-- Set-group-id and nothing else beside `0o710`.
unfoldable pub validate_socket_leaf_metadata : ℕ → ℕ → DirStat → Result IoError (Unit {0})
validate_socket_leaf_metadata owner_uid trusted_gid stat =
    fail_if
      (not (stat.uid == owner_uid)
        || (not (stat.gid == trusted_gid)
            || (not (stat.mode % 512 == 0o710) || not ((stat.mode / 512) % 8 == 2))))
      other

pub record FileStat : Type 0 where
  pub is_file : Bool
  pub is_symlink : Bool
  pub is_socket : Bool
  pub uid : ℕ
  pub mode : ℕ
  pub size : ℕ

unfoldable pub validate_trusted_file_metadata : FileStat → ℕ → ℕ → Result IoError (Unit {0})
validate_trusted_file_metadata stat trusted_uid max_bytes =
    fail_if
      (not stat.is_file
        || (stat.is_symlink
            || (stat.is_socket
                || ((not (stat.uid == 0) && not (stat.uid == trusted_uid))
                    || (is_shared stat.mode || ((stat.size == 0) || ltb max_bytes stat.size))))))
      other
