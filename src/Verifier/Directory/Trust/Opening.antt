-- ===== src/Verifier/Directory/Trust/Opening.antt =====
-- How crates/keylix-verifier/src/secure_fs.rs opens a directory or a trusted file: one component after
-- the other from the root on, with every directory checked. The calls of the operating system are a
-- parameter; each may fail and may change the state.
use keylix_community.Prelude.{
  ℕ, ◌+◌, ◌++◌, Bool, not, ◌||◌, List, [], ◌∷◌, Option, none, some, Bytes, Result, ok, err, ltb,
  length, is_empty, codes, fail_if, ok_or,
}
use keylix_community.Verifier.Replay.Names.{hex}
use keylix_community.Verifier.Directory.{IoError, other, Io}
use keylix_community.Verifier.Directory.Trust.{
  Component, normalized_absolute_components, DirStat, validate_directory, validate_leaf_metadata,
  validate_socket_leaf_metadata, FileStat, validate_trusted_file_metadata,
}

-- What the code uses of openat and of the standard library, on handles of directories and of files.
pub record OpenAt (S H F : Type 0) : Type 0 where
  -- `Dir::open("/")`
  pub open_root : Io S H
  pub sub_dir : H → Bytes → Io S H
  pub try_clone : H → Io S H
  pub self_metadata : H → Io S DirStat
  -- created with mode 0600
  pub new_file : H → Bytes → Io S F
  pub open_file : H → Bytes → Io S F
  pub remove_file : H → Bytes → Io S (Unit {0})
  pub file_metadata : F → Io S FileStat
  -- `take(…).read_to_end`
  pub read_at_most : F → ℕ → Io S Bytes
  pub get_xattr : F → Bytes → Io S (Option Bytes)
  pub fill_random : ℕ → Io S Bytes
  pub is_single_component : Bytes → Bool

abbrev pub after : {S A B : Type 0} → (A → Io S B) → Result IoError A × S → Result IoError B × S
after f (ok a, s) = f a s
after f (err e, s) = (err e, s)

infixl 5 ◌>>=◌ ◌>>◌
abbrev pub ◌>>=◌ : {S A B : Type 0} → Io S A → (A → Io S B) → Io S B
◌>>=◌ m f s = after f (m s)

abbrev pub ◌>>◌ : {S A B : Type 0} → Io S A → Io S B → Io S B
m >> k = m >>= λ _. k

abbrev pub return : {S A : Type 0} → A → Io S A
return a s = (ok a, s)

abbrev pub from : {S A : Type 0} → Result IoError A → Io S A
from r s = (r, s)

-- `std::path::Path`: whether it is absolute, and its components.
pub record FilePath : Type 0 where
  pub is_absolute : Bool
  pub components : List Component

-- The directories from the root on, and the last of them.
pub record Opened (H : Type 0) : Type 0 where
  pub dirs : List H
  pub final_dir : H

pub record SecureDir (H : Type 0) : Type 0 where
  pub dir : H
  pub owner_uid : ℕ

abbrev pub owner_probe_bytes : ℕ
owner_probe_bytes = 16

module _ {S H F : Type 0} (os : OpenAt S H F) where
  unfoldable pub walk : H → List H → List Bytes → Io S (Opened H)
  walk current ancestors [] = return (record { dirs = ancestors; final_dir = current })
  walk current ancestors (component ∷ components) = do
    next ← os.sub_dir current component
    copy ← os.try_clone next
    walk next (ancestors ++ (copy ∷ [])) components

  unfoldable pub open_absolute_directory : FilePath → Io S (Opened H)
  open_absolute_directory path = do
    components ← from (normalized_absolute_components path.is_absolute path.components)
    root ← os.open_root
    copy ← os.try_clone root
    walk root (copy ∷ []) components

  unfoldable pub validate_directory_chain : List H → ℕ → Io S (Unit {0})
  validate_directory_chain [] trusted_uid = return tt
  validate_directory_chain (dir ∷ dirs) trusted_uid = do
    stat ← os.self_metadata dir
    from (validate_directory trusted_uid stat)
    validate_directory_chain dirs trusted_uid

  unfoldable pub validate_service_leaf : H → ℕ → Io S (Unit {0})
  validate_service_leaf dir owner_uid = do
    stat ← os.self_metadata dir
    from (validate_leaf_metadata owner_uid stat)

  unfoldable pub validate_socket_leaf : H → ℕ → ℕ → Io S (Unit {0})
  validate_socket_leaf dir owner_uid trusted_gid = do
    stat ← os.self_metadata dir
    from (validate_socket_leaf_metadata owner_uid trusted_gid stat)

  unfoldable pub random_probe_name : Io S Bytes
  random_probe_name = do
    random ← os.fill_random owner_probe_bytes
    return (codes ".keylix-owner-probe-" ++ hex random)

  unfoldable pub probe_directory_owner_uid : H → Io S ℕ
  probe_directory_owner_uid dir = do
    name ← random_probe_name
    file ← os.new_file dir name
    metadata ← os.file_metadata file
    os.remove_file dir name
    return metadata.uid

  unfoldable pub chosen_owner : Option ℕ → H → Io S ℕ
  chosen_owner none dir = probe_directory_owner_uid dir
  chosen_owner (some uid) dir = return uid

  -- `SecureDir::open_service_owned`.
  unfoldable pub open_service_owned : FilePath → Option ℕ → Io S (SecureDir H)
  open_service_owned path expected_uid = do
    at ← open_absolute_directory path
    owner_uid ← chosen_owner expected_uid at.final_dir
    validate_directory_chain at.dirs owner_uid
    validate_service_leaf at.final_dir owner_uid
    return (record { dir = at.final_dir; owner_uid = owner_uid })

  abbrev pub reject_attribute : F → Bytes → Io S (Unit {0})
  reject_attribute directory name = do
    value ← os.get_xattr directory name
    from (elim value [ none ↦ ok tt | some x ↦ err other ])

  -- `reject_posix_acl` on Linux.
  unfoldable pub reject_posix_acl : H → Io S (Unit {0})
  reject_posix_acl dir = do
    directory ← os.open_file dir (codes ".")
    reject_attribute directory (codes "system.posix_acl_access")
    reject_attribute directory (codes "system.posix_acl_default")

  unfoldable pub validate_socket_parent : H → ℕ → Option ℕ → Io S (Unit {0})
  validate_socket_parent dir owner_uid none = validate_service_leaf dir owner_uid
  validate_socket_parent dir owner_uid (some gid) = do
    validate_socket_leaf dir owner_uid gid
    reject_posix_acl dir

  -- `SecureDir::open_socket_parent`.
  unfoldable pub open_socket_parent : FilePath → Option ℕ → Io S (SecureDir H)
  open_socket_parent path trusted_gid = do
    at ← open_absolute_directory path
    owner_uid ← probe_directory_owner_uid at.final_dir
    validate_directory_chain at.dirs owner_uid
    validate_socket_parent at.final_dir owner_uid trusted_gid
    return (record { dir = at.final_dir; owner_uid = owner_uid })

  -- `read_trusted_file`, on the path's `parent` and `file_name`.
  unfoldable pub read_trusted_file : Option FilePath → Option Bytes → ℕ → ℕ → Io S Bytes
  read_trusted_file parent file_name trusted_uid max_bytes = do
    parent ← from (ok_or parent other)
    name ← from (ok_or file_name other)
    from (fail_if (not (os.is_single_component name)) other)
    at ← open_absolute_directory parent
    validate_directory_chain at.dirs trusted_uid
    file ← os.open_file at.final_dir name
    metadata ← os.file_metadata file
    from (validate_trusted_file_metadata metadata trusted_uid max_bytes)
    bytes ← os.read_at_most file (max_bytes + 1)
    from (fail_if (is_empty bytes || ltb max_bytes (length bytes)) other)
    return bytes
