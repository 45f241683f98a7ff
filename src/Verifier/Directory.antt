-- ===== src/Verifier/Directory.antt =====
-- `SecureDir` of crates/keylix-verifier/src/secure_fs.rs: the file operations below an opened
-- directory, over the state of the file system. The operations themselves are the operating system's
-- and are a parameter; any of them may fail at any call.
pub mod Outcomes
pub mod Laws
pub mod Safe
pub mod Trust
use keylix_community.Prelude.{
  ℕ, ◌≡◌, ◌≢◌, ◌++◌, Bool, true, List, [], ◌∷◌, Option, none, some, Bytes, Result, ok, err, length,
  take, if◌then◌else◌, ◌%◌, contains, not, is_empty, ◌||◌, bytes_eq, codes,
}
use keylix_community.Dpop.Errors.{DpopPortError, port_error}

-- `std::io::ErrorKind`, as far as the program tells the kinds apart.
pub data IoError : Type 0 where
  not_found already_exists other : IoError

abbrev pub Io : Type 0 → Type 0 → Type 0
Io S A = S → Result IoError A × S

-- Owner, permission bits, kind and size of a file.
pub record Stat : Type 0 where
  pub is_regular : Bool
  pub uid : ℕ
  pub mode : ℕ
  pub size : ℕ

-- The operations on an opened directory, and the random source of the process.
pub record Directory (S : Type 0) : Type 0 where
  pub owner_uid : ℕ
  pub list_dir : Io S (List Bytes)
  pub metadata : Bytes → Io S Stat
  -- `open_file`, and the opened file's `metadata`
  pub open_file : Bytes → Io S Stat
  -- what `take(…).read_to_string` reads of the opened file
  pub read_text : Bytes → ℕ → Io S Bytes
  -- created with mode 0600, and not if the name is there
  pub new_file : Bytes → Io S (Unit {0})
  pub write_all : Bytes → Bytes → Io S (Unit {0})
  pub sync_file : Bytes → Io S (Unit {0})
  pub try_lock : Bytes → Io S (Unit {0})
  pub hard_link : Bytes → Bytes → Io S (Unit {0})
  pub remove_file : Bytes → Io S (Unit {0})
  pub sync_all : Io S (Unit {0})
  -- that many random bytes
  pub fill_random : ℕ → Io S Bytes
  -- `OsStr::to_str` and `Path::components` on a name
  pub is_text : Bytes → Bool
  pub is_single_component : Bytes → Bool

-- Code that fails with the capability's error and keeps the state that it reached.
abbrev pub M : Type 0 → Type 0 → Type 0
M S A = S → Result DpopPortError A × S

abbrev pub after {ℓ} :
    {S : Type 0} {A : Type ℓ} {B : Type 0}
    → (A → M S B)
    → Result DpopPortError A × S
    → Result DpopPortError B × S
after f (ok a, s) = f a s
after f (err e, s) = (err e, s)

infixl 5 ◌>>=◌ ◌>>◌
abbrev pub ◌>>=◌ : {S A B : Type 0} → M S A → (A → M S B) → M S B
◌>>=◌ m f s = after f (m s)

abbrev pub ◌>>◌ : {S A B : Type 0} → M S A → M S B → M S B
m >> k = m >>= λ _. k

abbrev pub return : {S A : Type 0} → A → M S A
return a s = (ok a, s)

abbrev pub fail : {S A : Type 0} → M S A
fail s = (err port_error, s)

abbrev pub fail_when : {S : Type 0} → Bool → M S (Unit {0})
fail_when test s = if test then (err port_error, s) else (ok tt, s)

-- The result as a value: the code goes on either way.
abbrev pub observed : {S E A : Type 0} → Result E A × S → Result DpopPortError (Result E A) × S
observed (r, s) = (ok r, s)

abbrev pub observe : {S E A : Type 0} → (S → Result E A × S) → M S (Result E A)
observe m s = observed (m s)

abbrev pub lifted : {S A : Type 0} → Result IoError A × S → Result DpopPortError A × S
lifted (ok a, s) = (ok a, s)
lifted (err e, s) = (err port_error, s)

-- `map_err(|_| DpopPortError)`.
abbrev pub lift : {S A : Type 0} → Io S A → M S A
lift m s = lifted (m s)

module _ {S : Type 0} (d : Directory S) where
  -- `validate_single_component(name)?` before an operation on the name.
  abbrev pub checked : {A : Type 0} → Bytes → Io S A → Io S A
  checked name m s = if d.is_single_component name then m s else (err other, s)

  unfoldable pub dir_metadata : Bytes → Io S Stat
  dir_metadata name = checked name (d.metadata name)

  unfoldable pub dir_open_file : Bytes → Io S Stat
  dir_open_file name = checked name (d.open_file name)

  unfoldable pub dir_new_file : Bytes → Io S (Unit {0})
  dir_new_file name = checked name (d.new_file name)

  unfoldable pub dir_remove_file : Bytes → Io S (Unit {0})
  dir_remove_file name = checked name (d.remove_file name)

  unfoldable pub dir_hard_link : Bytes → Bytes → Io S (Unit {0})
  dir_hard_link existing new = checked existing (checked new (d.hard_link existing new))

  abbrev pub all_single : List Bytes → Bool
  all_single [] = true
  all_single (name ∷ names) =
      let rest = all_single names in if d.is_single_component name then rest else Bool.false

  abbrev pub validated : Result IoError (List Bytes) × S → Result IoError (List Bytes) × S
  validated (ok names, s) = if all_single names then (ok names, s) else (err other, s)
  validated (err e, s) = (err e, s)

  -- `SecureDir::list_names`.
  unfoldable pub list_names : Io S (List Bytes)
  list_names s = validated (d.list_dir s)
