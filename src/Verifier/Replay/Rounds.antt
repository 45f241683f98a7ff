-- ===== src/Verifier/Replay/Rounds.antt =====
-- The rounds of `check_and_record` of `FileReplayStore` (crates/keylix-verifier/src/replay.rs) beside the
-- file of an unexpired record.
use keylix_community.Prelude.{ℕ, ◌≡◌, refl, Bool, true, false, Option, some, Bytes, arith, ℤ, ◌≤ℤ◌}
use keylix_community.Dpop.Ports.{ReplayStatus, replay}
use keylix_community.Verifier.Directory.{Directory, M, fail}
use keylix_community.Verifier.Directory.Laws.{File, IsLawfulDirectory}
use keylix_community.Verifier.Directory.Safe.{Any, Safe, safe_bind, safe_return, safe_weaken}
use keylix_community.Verifier.Replay.Names.{parse_expiry}
use keylix_community.Verifier.Replay.{
  Round, answer, again, cleanup_and_count, is_recorded, begin_record, replay_or_record, round,
  answered, record_key,
}
use keylix_community.Verifier.Replay.Keeps.{Kept}
use keylix_community.Verifier.Replay.Cleanup.{cleanup_and_count-Safe, is_recorded-Safe}
use keylix_community.Verifier.Replay.Publication.{begin_record-Safe}

module _ {S : Type 0} {d : Directory S} {file_at : S → Bytes → Option File}
    (laws : IsLawfulDirectory d file_at) (j : Bytes) (f : File) where
  -- A call for the record's own key answers that it is a replay.
  abbrev Replays : Bytes → Round → Type 0
  Replays name r = name ≡ j → r ≡ answer replay

  replay_or_record-Safe :
      (first : Bool) (capacity active : ℕ) (name text : Bytes) (known : Bool)
      → (name ≡ j → known ≡ true)
      → Safe
          (Kept file_at j f)
          (replay_or_record d first capacity active name text known)
          (Replays name)
  replay_or_record-Safe first capacity active name text true found =
      safe_return (Kept file_at j f) (Replays name) (answer replay) (λ same. refl)
  replay_or_record-Safe first capacity active name text false found =
      safe_weaken (Kept file_at j f) Any (Replays name)
        (begin_record d first capacity active name text) (λ r t same. ground (arith, found same))
        (begin_record-Safe laws j f first capacity active name text)

  module _ (now : ℤ) (current : (e : ℤ) → parse_expiry f.bytes ≡ some e → now ≤ℤ e) where
    round-Safe :
        (first : Bool) (capacity : ℕ) (name text : Bytes)
        → Safe (Kept file_at j f) (round d first now capacity name text) (Replays name)
    unfolding round
    round-Safe first capacity name text =
        safe_bind (Kept file_at j f) Any (Replays name) (cleanup_and_count d now) _
          (cleanup_and_count-Safe laws j f now current)
          (λ active t.
            safe_bind (Kept file_at j f) (λ known. name ≡ j → known ≡ true) (Replays name)
              (is_recorded d now name) _ (is_recorded-Safe laws j f now current name)
              (λ known found. replay_or_record-Safe first capacity active name text known found))

    abbrev NotFresh : Bytes → ReplayStatus → Type 0
    NotFresh name status = name ≡ j → status ≡ replay

    answered-Safe :
        (name : Bytes) (second : M S ReplayStatus) (r : Round)
        → Safe (Kept file_at j f) second (NotFresh name)
        → Replays name r
        → Safe (Kept file_at j f) (answered d second r) (NotFresh name)
    answered-Safe name second (answer status) safe h =
        safe_return (Kept file_at j f) (NotFresh name) status (λ same. ground (arith, h same))
    answered-Safe name second again safe h = safe

    pub record_key-Safe :
        (capacity : ℕ) (name text : Bytes)
        → Safe (Kept file_at j f) (record_key d now capacity name text) (NotFresh name)
    unfolding record_key
    record_key-Safe capacity name text =
        safe_bind (Kept file_at j f) (Replays name) (NotFresh name)
          (round d true now capacity name text) _ (round-Safe true capacity name text)
          (λ first h.
            answered-Safe name _ first
              (safe_bind (Kept file_at j f) (Replays name) (NotFresh name)
                (round d false now capacity name text) _ (round-Safe false capacity name text)
                (λ second h2. answered-Safe name fail second (λ s p. p) h2))
              h)
