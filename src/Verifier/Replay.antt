-- ===== src/Verifier/Replay.antt =====
-- `FileReplayStore` of crates/keylix-verifier/src/replay.rs: one file for each accepted key, whose
-- contents are the expiry. The state is that of the file system.
pub mod Names
pub mod Contract
pub mod Restart
pub mod Keeps
pub mod Cleanup
pub mod Publication
pub mod Rounds
pub mod Recording
use keylix_community.Prelude.{
  ℕ, suc, ◌+◌, ◌-◌, ◌*◌, ◌/◌, ◌%◌, ◌^◌, ◌++◌, Bool, true, false, ◌&&◌, ◌||◌, not, List, [], ◌∷◌,
  Option, none, some, Bytes, Result, ok, err, if◌then◌else◌, ltb, leb, ◌==◌, length, is_empty, all,
  is_digit, codes, bytes_eq, strip_prefix, ℤ, pos, negsuc, leb_ℤ, ltb_ℤ,
}
use keylix_community.Dpop.Errors.{DpopPortError}
use keylix_community.Dpop.Ports.{
  PortResult, Reading, ReplayKey, ReplayStatus, fresh, replay, ReplayStore,
}
use keylix_community.Verifier.Replay.Names.{
  pending_prefix, pending_random_bytes, instance_lock_name, hex, name_for, is_lower_hex,
  is_pending_name, parse_expiry, expiry_text,
}
use keylix_community.Verifier.Directory.{
  IoError, not_found, already_exists, Stat, Directory, M, ◌>>=◌, ◌>>◌, return, fail, fail_when,
  observe, lift, dir_metadata, dir_open_file, dir_new_file, dir_remove_file, dir_hard_link,
  list_names,
}

-- A round ends with an answer, or asks for the second one.
pub data Round : Type 0 where
  answer : ReplayStatus → Round
  again : Round

module _ {S : Type 0} (d : Directory S) where
  -- A private regular file of the owner.
  abbrev pub is_own : Stat → Bool
  is_own stat = stat.is_regular && ((stat.uid == d.owner_uid) && (stat.mode % 64 == 0))

  unfoldable pub pending_name : M S Bytes
  pending_name = do
    random ← lift (d.fill_random pending_random_bytes)
    return (pending_prefix ++ hex random)

  abbrev pub expiry_or_fail : Option ℤ → M S ℤ
  expiry_or_fail none = fail
  expiry_or_fail (some expiry) = return expiry

  unfoldable pub read_expiry : Bytes → M S ℤ
  read_expiry name = do
    entry ← lift (dir_metadata d name)
    fail_when (not (is_own entry) || ((entry.size == 0) || ltb 32 entry.size))
    opened ← lift (dir_open_file d name)
    fail_when (not (is_own opened) || ((opened.size == 0) || ltb 32 opened.size))
    value ← lift (d.read_text name 33)
    expiry_or_fail (parse_expiry value)

  unfoldable pub validate_instance_lock : M S (Unit {0})
  validate_instance_lock = do
    entry ← lift (dir_metadata d instance_lock_name)
    fail_when (not (is_own entry) || not (entry.size == 0))

  unfoldable pub cleanup_pending : Bytes → M S (Unit {0})
  cleanup_pending name = do
    entry ← lift (dir_metadata d name)
    fail_when (not (is_own entry) || ltb 32 entry.size)
    lift (dir_remove_file d name)

  abbrev pub cleanup_if : Bool → Bytes → Bool → M S Bool
  cleanup_if true name removed = cleanup_pending name >> return true
  cleanup_if false name removed = return removed

  -- Whether a marker was removed, over the names of the directory.
  unfoldable pub cleanup_all_pending : List Bytes → Bool → M S Bool
  cleanup_all_pending [] removed = return removed
  cleanup_all_pending (name ∷ names) removed = do
    fail_when (not (d.is_text name))
    now_removed ← cleanup_if (is_pending_name name) name removed
    cleanup_all_pending names now_removed

  unfoldable pub cleanup_startup_pending : M S (Unit {0})
  cleanup_startup_pending = do
    names ← lift (list_names d)
    removed ← cleanup_all_pending names false
    if removed then lift d.sync_all else return tt

  abbrev pub opened_lock : Result IoError (Unit {0}) → M S Stat
  opened_lock (ok _) = lift (dir_open_file d instance_lock_name)
  opened_lock (err already_exists) =
      validate_instance_lock >> lift (dir_open_file d instance_lock_name)
  opened_lock (err _) = fail

  unfoldable pub acquire_instance_lock : M S (Unit {0})
  acquire_instance_lock = do
    created ← observe (dir_new_file d instance_lock_name)
    stat ← opened_lock created
    fail_when (not (is_own stat) || not (stat.size == 0))
    lift (d.try_lock instance_lock_name)

  -- `FileReplayStore::new`, once the directory is opened.
  unfoldable pub open_store : ℕ → M S (Unit {0})
  open_store capacity = do fail_when (capacity == 0); acquire_instance_lock; cleanup_startup_pending

  -- An expired record is removed, any other is counted.
  abbrev pub drop_or_count : Bool → Bytes → ℕ → M S ℕ
  drop_or_count true name active = lift (dir_remove_file d name) >> return active
  drop_or_count false name active = fail_when (active == 2 ^ 64 - 1) >> return (active + 1)

  -- One name of the directory: the number of active records so far goes up if it is one.
  unfoldable pub count_record : ℤ → Bytes → ℕ → M S ℕ
  count_record now name active = do
    fail_when (not (length name == 64) || not (all is_lower_hex name))
    expiry ← read_expiry name
    drop_or_count (ltb_ℤ expiry now) name active

  -- Markers and the lock are passed over.
  abbrev pub count_kind : ℤ → Bytes → ℕ → Bool → Bool → M S ℕ
  count_kind now name active true lock = return active
  count_kind now name active false true = validate_instance_lock >> return active
  count_kind now name active false false = count_record now name active

  unfoldable pub count_name : ℤ → Bytes → ℕ → M S ℕ
  count_name now name active = do
    fail_when (not (d.is_text name))
    count_kind now name active (is_pending_name name) (bytes_eq name instance_lock_name)

  unfoldable pub count_names : ℤ → List Bytes → ℕ → M S ℕ
  count_names now [] active = return active
  count_names now (name ∷ names) active = do
    active' ← count_name now name active
    count_names now names active'

  unfoldable pub cleanup_and_count : ℤ → M S ℕ
  cleanup_and_count now = do names ← lift (list_names d); count_names now names 0

  abbrev pub absent_or_fail : Result IoError Stat → M S (Unit {0})
  absent_or_fail (err not_found) = return tt
  absent_or_fail _ = fail

  -- Whether the key is there: an expired record goes, and what cannot be read refuses the call.
  unfoldable pub settle : ℤ → Bytes → PortResult ℤ → M S Bool
  settle now name (ok expiry) =
      if leb_ℤ now expiry then return true else lift (dir_remove_file d name) >> return false
  settle now name (err _) = do
    found ← observe (dir_metadata d name)
    absent_or_fail found
    return false

  unfoldable pub is_recorded : ℤ → Bytes → M S Bool
  is_recorded now name = do found ← observe (read_expiry name); settle now name found

  -- `initialize`: the record is complete before its name appears.
  unfoldable pub publish : Bytes → Bytes → Bytes → M S (Unit {0})
  publish pending name text = do
    lift (d.write_all pending text)
    lift (d.sync_file pending)
    lift (dir_hard_link d pending name)
    lift d.sync_all
    lift (dir_remove_file d pending)
    lift d.sync_all

  abbrev pub is_there : Result IoError Stat → Bool
  is_there (ok stat) = true
  is_there (err e) = false

  -- After the marker's publication: a failure leaves no marker, and asks for the second round if the
  -- record's name is there.
  unfoldable pub conclude : Bool → Bytes → Bytes → PortResult (Unit {0}) → M S Round
  conclude first pending name (ok _) = return (answer fresh)
  conclude first pending name (err _) = do
    found ← observe (dir_metadata d name)
    removed ← observe (dir_remove_file d pending)
    synced ← observe d.sync_all
    if is_there found && first then return again else fail

  unfoldable pub create : Bool → Bytes → Bytes → Bytes → Result IoError (Unit {0}) → M S Round
  create first pending name text (ok _) = do
    published ← observe (publish pending name text)
    conclude first pending name published
  create first pending name text (err already_exists) = if first then return again else fail
  create first pending name text (err _) = fail

  -- From the capacity check on.
  unfoldable pub begin_record : Bool → ℕ → ℕ → Bytes → Bytes → M S Round
  begin_record first capacity active name text = do
    fail_when (leb capacity active)
    pending ← pending_name
    created ← observe (dir_new_file d pending)
    create first pending name text created

  abbrev pub replay_or_record : Bool → ℕ → ℕ → Bytes → Bytes → Bool → M S Round
  replay_or_record first capacity active name text true = return (answer replay)
  replay_or_record first capacity active name text false =
      begin_record first capacity active name text

  -- One round of `check_and_record`; the flag is that of the first round.
  unfoldable pub round : Bool → ℤ → ℕ → Bytes → Bytes → M S Round
  round first now capacity name text = do
    active ← cleanup_and_count now
    known ← is_recorded now name
    replay_or_record first capacity active name text known

  abbrev pub answered : M S ReplayStatus → Round → M S ReplayStatus
  answered second (answer status) = return status
  answered second again = second

  -- Both rounds.
  unfoldable pub record_key : ℤ → ℕ → Bytes → Bytes → M S ReplayStatus
  record_key now capacity name text = do
    first ← round true now capacity name text
    answered (round false now capacity name text >>= answered fail) first

  unfoldable pub check_and_record : ℕ → Reading → ReplayKey → ℤ → M S ReplayStatus
  check_and_record capacity (err e) key expires_at s = (err e, s)
  check_and_record capacity (ok now) key expires_at s =
      if ltb_ℤ expires_at now
      then fail s
      else record_key now capacity (name_for key) (expiry_text expires_at) s

  abbrev pub file_store : ℕ → ReplayStore S
  file_store capacity = record { check_and_record = check_and_record capacity }
