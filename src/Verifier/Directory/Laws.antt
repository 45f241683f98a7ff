-- ===== src/Verifier/Directory/Laws.antt =====
-- What the code relies on of the file system, as POSIX documents it: a view of the directory as files
-- under names, and what each operation, failed or not, leaves of it. Nothing is said of when an
-- operation fails.
use keylix_community.Prelude.{
  ℕ, ◌≡◌, ◌≢◌, refl, ◌++◌, Bool, true, false, List, [], Option, none, some, Bytes, Result, ok, err,
  length, take, arith, if◌then◌else◌,
}
use keylix_community.Verifier.Directory.{
  IoError, not_found, other, Io, Stat, Directory, checked, dir_metadata, dir_open_file,
  dir_new_file, dir_remove_file, dir_hard_link, list_names, validated,
}

-- A file: two names with one `inode` share their contents.
pub record File : Type 0 where
  pub inode : ℕ
  pub is_regular : Bool
  pub uid : ℕ
  pub mode : ℕ
  pub bytes : Bytes

abbrev pub stat_of : File → Stat
stat_of f = record { is_regular = f.is_regular; uid = f.uid; mode = f.mode; size = length f.bytes }

-- An operation that leaves every name with its file.
abbrev pub KeepsAll : {S A : Type 0} → (S → Bytes → Option File) → Io S A → Type 0
KeepsAll {S} file_at op =
    (s : S) (m : Bytes) (g : File) → file_at s m ≡ some g → file_at (op s).1 m ≡ some g

pub record IsLawfulDirectory {S : Type 0} (d : Directory S) (file_at : S → Bytes → Option File)
    : Type 0 where
  pub list-keeps : KeepsAll file_at d.list_dir
  pub metadata-keeps : (n : Bytes) → KeepsAll file_at (d.metadata n)
  pub open-keeps : (n : Bytes) → KeepsAll file_at (d.open_file n)
  pub read-keeps : (n : Bytes) (k : ℕ) → KeepsAll file_at (d.read_text n k)
  pub new-keeps : (n : Bytes) → KeepsAll file_at (d.new_file n)
  pub sync_file-keeps : (n : Bytes) → KeepsAll file_at (d.sync_file n)
  pub lock-keeps : (n : Bytes) → KeepsAll file_at (d.try_lock n)
  pub link-keeps : (a b : Bytes) → KeepsAll file_at (d.hard_link a b)
  pub sync-keeps : KeepsAll file_at d.sync_all
  pub random-keeps : (k : ℕ) → KeepsAll file_at (d.fill_random k)
  -- `unlink` takes one name away.
  pub remove-keeps :
      (n : Bytes) (s : S) (m : Bytes) (g : File)
      → m ≢ n
      → file_at s m ≡ some g
      → file_at (d.remove_file n s).1 m ≡ some g
  -- `write` changes the one file, whether it fails or not.
  pub write-keeps :
      (n text : Bytes) (s : S) (f : File) (m : Bytes) (g : File)
      → file_at s n ≡ some f
      → file_at s m ≡ some g
      → g.inode ≢ f.inode
      → file_at (d.write_all n text s).1 m ≡ some g
  pub metadata-ok :
      (n : Bytes) (s : S) (st : Stat)
      → (d.metadata n s).0 ≡ ok st
      → (f : File) × (file_at s n ≡ some f) × (st ≡ stat_of f)
  -- `ENOENT`.
  pub metadata-absent :
      (n : Bytes) (s : S) → (d.metadata n s).0 ≡ err not_found → file_at s n ≡ none
  pub read-ok :
      (n : Bytes) (k : ℕ) (s : S) (t : Bytes)
      → (d.read_text n k s).0 ≡ ok t
      → (f : File) × (file_at s n ≡ some f) × (t ≡ take k f.bytes)
  -- `O_CREAT | O_EXCL`: an empty file of its own, under a name that was free.
  pub new-ok :
      (n : Bytes) (s : S)
      → (d.new_file n s).0 ≡ ok tt
      → (file_at s n ≡ none)
        × (f : File) × (file_at (d.new_file n s).1 n ≡ some f)
        × (f.bytes ≡ [])
        × ((m : Bytes) (g : File) → file_at s m ≡ some g → g.inode ≢ f.inode)
  pub write-ok :
      (n text : Bytes) (s : S) (f : File)
      → (d.write_all n text s).0 ≡ ok tt
      → file_at s n ≡ some f
      → file_at (d.write_all n text s).1 n ≡ some (record f { bytes = f.bytes ++ text })
  -- `link` needs a free name, and makes it another name of the file.
  pub link-ok :
      (a b : Bytes) (s : S)
      → (d.hard_link a b s).0 ≡ ok tt
      → (file_at s b ≡ none)
        × (f : File) × (file_at s a ≡ some f)
        × (file_at (d.hard_link a b s).1 b ≡ some f)

-- What a success tells holds of one behind a check.
checked_ok :
    {S A : Type 0} {a : A} (test : Bool) (r : Result IoError A × S) (s : S)
    (P : Result IoError A × S → Type 0)
    → (r.0 ≡ ok a → P r)
    → (if test then r else (err other, s)).0 ≡ ok a
    → P (if test then r else (err other, s))
checked_ok true r s P h k = h k
checked_ok false r s P h k = ground (arith, k)

module _ {S : Type 0} {d : Directory S} {file_at : S → Bytes → Option File}
    (laws : IsLawfulDirectory d file_at) where
  pub dir_metadata-keeps : (n : Bytes) → KeepsAll file_at (dir_metadata d n)
  unfolding dir_metadata
  dir_metadata-keeps n s m g h = ground (arith, laws.metadata-keeps n s m g)

  pub dir_open_file-keeps : (n : Bytes) → KeepsAll file_at (dir_open_file d n)
  unfolding dir_open_file
  dir_open_file-keeps n s m g h = ground (arith, laws.open-keeps n s m g)

  pub dir_new_file-keeps : (n : Bytes) → KeepsAll file_at (dir_new_file d n)
  unfolding dir_new_file
  dir_new_file-keeps n s m g h = ground (arith, laws.new-keeps n s m g)

  pub dir_hard_link-keeps : (a b : Bytes) → KeepsAll file_at (dir_hard_link d a b)
  unfolding dir_hard_link
  dir_hard_link-keeps a b s m g h = ground (arith, laws.link-keeps a b s m g)

  pub dir_remove_file-keeps :
      (n : Bytes) (s : S) (m : Bytes) (g : File)
      → m ≢ n
      → file_at s m ≡ some g
      → file_at (dir_remove_file d n s).1 m ≡ some g
  unfolding dir_remove_file
  dir_remove_file-keeps n s m g ne h = ground (arith, laws.remove-keeps n s m g ne h)

  validated-state : (r : Result IoError (List Bytes) × S) → (validated d r).1 ≡ r.1
  validated-state (ok names, s) = ground arith
  validated-state (err e, s) = refl

  pub list_names-keeps : KeepsAll file_at (list_names d)
  unfolding list_names
  list_names-keeps s m g h = rw (validated-state (d.list_dir s)) (laws.list-keeps s m g h)

  pub dir_metadata-ok :
      (n : Bytes) (s : S) (st : Stat)
      → (dir_metadata d n s).0 ≡ ok st
      → (f : File) × (file_at s n ≡ some f) × (st ≡ stat_of f)
  unfolding dir_metadata
  dir_metadata-ok n s st h = laws.metadata-ok n s st (ground arith)

  pub dir_metadata-absent :
      (n : Bytes) (s : S) → (dir_metadata d n s).0 ≡ err not_found → file_at s n ≡ none
  unfolding dir_metadata
  dir_metadata-absent n s h = laws.metadata-absent n s (ground arith)

  pub dir_new_file-ok :
      (n : Bytes) (s : S)
      → (dir_new_file d n s).0 ≡ ok tt
      → (file_at s n ≡ none)
        × (f : File) × (file_at (dir_new_file d n s).1 n ≡ some f)
        × (f.bytes ≡ [])
        × ((m : Bytes) (g : File) → file_at s m ≡ some g → g.inode ≢ f.inode)
  unfolding dir_new_file
  dir_new_file-ok n s h =
      checked_ok (d.is_single_component n) (d.new_file n s) s
        (λ r.
          (file_at s n ≡ none)
          × (f : File) × (file_at r.1 n ≡ some f)
          × (f.bytes ≡ [])
          × ((m : Bytes) (g : File) → file_at s m ≡ some g → g.inode ≢ f.inode))
        (laws.new-ok n s) h

  pub dir_hard_link-ok :
      (a b : Bytes) (s : S)
      → (dir_hard_link d a b s).0 ≡ ok tt
      → (file_at s b ≡ none)
        × (f : File) × (file_at s a ≡ some f)
        × (file_at (dir_hard_link d a b s).1 b ≡ some f)
  unfolding dir_hard_link
  dir_hard_link-ok a b s h =
      checked_ok (d.is_single_component a) (checked d b (d.hard_link a b) s) s
        (λ r. (file_at s b ≡ none) × (f : File) × (file_at s a ≡ some f) × (file_at r.1 b ≡ some f))
        (checked_ok (d.is_single_component b) (d.hard_link a b s) s
          (λ r.
            (file_at s b ≡ none) × (f : File) × (file_at s a ≡ some f) × (file_at r.1 b ≡ some f))
          (laws.link-ok a b s))
        h
