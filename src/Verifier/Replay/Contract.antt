-- ===== src/Verifier/Replay/Contract.antt =====
-- `FileReplayStore` of crates/keylix-verifier/src/replay.rs as a replay store.
use keylix_community.Prelude.{
  ℕ, ◌≡◌, ◌≢◌, refl, ap, sym, ◌∙◌, Bool, true, false, Option, some, Bytes, Result, ok, err, arith,
  if◌then◌else◌, ℤ, ◌≤ℤ◌, ltb_ℤ,
}
use keylix_community.Dpop.Errors.{DpopPortError}
use keylix_community.Dpop.Ports.{Reading, ReplayKey, ReplayStatus, fresh, replay}
use keylix_community.Dpop.State.Contract.{ReplayContract, NotAfter}
use keylix_community.Verifier.Directory.{Directory, fail}
use keylix_community.Verifier.Directory.Outcomes.{Outcome}
use keylix_community.Verifier.Directory.Safe.{safe_state, safe_value}
use keylix_community.Verifier.Directory.Laws.{File, IsLawfulDirectory}
use keylix_community.Verifier.Replay.Names.{name_for, parse_expiry, expiry_text}
use keylix_community.Verifier.Replay.Names.Expiry.{parse_expiry-expiry_text}
use keylix_community.Verifier.Replay.{record_key, check_and_record, file_store}
use keylix_community.Verifier.Replay.Keeps.{Kept}
use keylix_community.Verifier.Replay.Rounds.{record_key-Safe}
use keylix_community.Verifier.Replay.Recording.{Recorded, Accepts, record_key-Accepts}

module _ {S : Type 0} (d : Directory S) (file_at : S → Bytes → Option File) where
  -- A file under the key's name with the expiry in it.
  abbrev pub FileHolds : S → ReplayKey → ℤ → Type 0
  FileHolds s k e = (f : File) × (file_at s (name_for k) ≡ some f) × (f.bytes ≡ expiry_text e)

  -- Any state of the file system.
  abbrev pub AnyDisk : S → Type 0
  AnyDisk s = Unit {0}

module _ {S : Type 0} {d : Directory S} {file_at : S → Bytes → Option File}
    (laws : IsLawfulDirectory d file_at) (capacity : ℕ) where
  current :
      (f : File) (now e : ℤ)
      → f.bytes ≡ expiry_text e
      → now ≤ℤ e
      → (e' : ℤ) → parse_expiry f.bytes ≡ some e'
      → now ≤ℤ e'
  current f now e same h e' parsed =
      let back = parse_expiry-expiry_text e e' (sym (ap parse_expiry same) ∙ parsed) in rw back h

  remembered :
      (r : Reading) (k : ReplayKey) (e : ℤ) (s : S) (j : ReplayKey) (f : ℤ)
      → FileHolds d file_at s j f
      → NotAfter r f
      → FileHolds d file_at (check_and_record d capacity r k e s).1 j f
  unfolding check_and_record
  remembered (err x) k e s j f held h = held
  remembered (ok now) k e s j f (g, at, same) h =
      let safe =
        record_key-Safe laws (name_for j) g now (current g now f same h) capacity (name_for k)
          (expiry_text e) in
      let kept =
        safe_state (Kept file_at (name_for j) g) _
          (record_key d now capacity (name_for k) (expiry_text e)) safe s at in
      (g, ground (arith, at, kept), same)

  refused :
      (r : Reading) (k : ReplayKey) (e : ℤ) (s : S) (f : ℤ)
      → FileHolds d file_at s k f
      → NotAfter r f
      → (check_and_record d capacity r k e s).0 ≢ ok fresh
  unfolding check_and_record
  refused (err x) k e s f held h accepted = ground (arith, accepted)
  refused (ok now) k e s f (g, at, same) h accepted =
      let safe =
        record_key-Safe laws (name_for k) g now (current g now f same h) capacity (name_for k)
          (expiry_text e) in
      let value =
        safe_value (Kept file_at (name_for k) g) (λ st. name_for k ≡ name_for k → st ≡ replay)
          (record_key d now capacity (name_for k) (expiry_text e)) safe s at fresh in
      ground (arith, accepted, value)

  accepted-Recorded :
      (name text : Bytes) (late : Bool) (s : S) (r : Result DpopPortError ReplayStatus × S)
      → Outcome (Accepts laws name text) (λ s. Unit {0}) r
      → (if late then fail {S = S} {A = ReplayStatus} s else r).0 ≡ ok fresh
      → Recorded laws name text (if late then fail {S = S} {A = ReplayStatus} s else r).1
  accepted-Recorded name text true s r h accepted = ground (arith, accepted)
  accepted-Recorded name text false s (ok status, s') h accepted = h (ground (arith, accepted))
  accepted-Recorded name text false s (err e, s') h accepted = ground (arith, accepted)

  recorded :
      (r : Reading) (k : ReplayKey) (e : ℤ) (s : S)
      → (check_and_record d capacity r k e s).0 ≡ ok fresh
      → FileHolds d file_at (check_and_record d capacity r k e s).1 k e
  unfolding check_and_record
  recorded (err x) k e s accepted = ground (arith, accepted)
  recorded (ok now) k e s accepted =
      accepted-Recorded (name_for k) (expiry_text e) (ltb_ℤ e now) s
        (record_key d now capacity (name_for k) (expiry_text e) s)
        (record_key-Accepts laws (name_for k) (expiry_text e) now capacity s tt) accepted

  in_time :
      (r : Reading) (k : ReplayKey) (e : ℤ) (s : S)
      → (check_and_record d capacity r k e s).0 ≡ ok fresh
      → (now : ℤ) × (r ≡ ok now) × (now ≤ℤ e)
  unfolding check_and_record
  in_time (err x) k e s accepted = ground (arith, accepted)
  in_time (ok now) k e s accepted = (now, refl, ground (arith, accepted))

  -- Over any lawful directory, the durable store keeps what a replay store promises: a fresh answer
  -- leaves the record on disk, a record on disk stays and refuses its key until its expiry, and a
  -- failed file operation, at whatever step, changes none of this.
  pub file_store-ReplayContract :
      ReplayContract (file_store d capacity) (AnyDisk d file_at) (FileHolds d file_at)
  file_store-ReplayContract = record {
    keeps_valid = λ r k e s v. tt;
    records = λ r k e s v. recorded r k e s;
    remembers = λ r k e s j f v. remembered r k e s j f;
    refuses = λ r k e s f v. refused r k e s f;
    in_time = in_time;
  }
