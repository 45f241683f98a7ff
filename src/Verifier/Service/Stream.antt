-- ===== src/Verifier/Service/Stream.antt =====
-- `read_frame` and `write_frame` of crates/keylix-verifier/src/main.rs: one frame and a newline, read and
-- written in pieces under a deadline. The socket and the clock are arguments.
pub mod Newline
pub mod Laws
pub mod Writing
use keylix_community.Prelude.{
  ℕ, zero, suc, ◌+◌, ◌-◌, ◌*◌, Bool, true, false, ◌||◌, not, List, [], ◌∷◌, ◌++◌, Option, none,
  some, Bytes, Result, ok, err, if◌then◌else◌, ltb, leb, ◌==◌, length, is_empty, take, drop,
  position,
}
use keylix_community.Verifier.Ipc.{max_verifier_payload_bytes}

abbrev pub max_frame_bytes : ℕ
max_frame_bytes = max_verifier_payload_bytes * 2

-- The buffer of a read.
abbrev pub chunk_bytes : ℕ
chunk_bytes = 4096

-- A connection. Each flag is false where the call fails.
pub record UnixStream (S : Type 0) : Type 0 where
  -- `Instant::now().checked_add(timeout)`
  pub set_deadline : S → Bool × S
  -- some time is left before the deadline, and it is set as the timeout
  pub time_left : S → Bool × S
  -- at most that many bytes, if the read does not fail
  pub read : ℕ → S → Option Bytes × S
  pub write : Bytes → S → Option ℕ × S
  pub flush : S → Bool × S

-- `Result<_, ()>`.
abbrev pub Outcome : Type 0 → Type 0 → Type 0
Outcome S A = Result (Unit {0}) A × S

abbrev pub drop_return : Bytes → Bytes
drop_return [] = []
drop_return (b ∷ []) = if b == 13 then [] else b ∷ []
drop_return (b ∷ c ∷ s) = b ∷ drop_return (c ∷ s)

abbrev pub nonempty : Bytes → Result (Unit {0}) Bytes
nonempty [] = err tt
nonempty (b ∷ s) = ok (b ∷ s)

-- What a chunk makes of the frame: an end, or more to read.
pub data Progress : Type 0 where
  ended : Result (Unit {0}) Bytes → Progress
  more : Bytes → Progress

abbrev pub at_newline : Bytes → Bytes → Option ℕ → Progress
at_newline frame chunk none = more (frame ++ chunk)
at_newline frame chunk (some newline) =
    if not (newline + 1 == length chunk)
    then ended (err tt)
    else ended (nonempty (drop_return (frame ++ take newline chunk)))

abbrev pub take_chunk : Bytes → Option Bytes → Progress
take_chunk frame none = ended (err tt)
take_chunk frame (some []) = ended (err tt)
take_chunk frame (some (b ∷ s)) = at_newline frame (b ∷ s) (position (λ c. c == 10) (b ∷ s))

abbrev pub min : ℕ → ℕ → ℕ
min a b = if leb a b then a else b

module _ {S : Type 0} (stream : UnixStream S) where
  abbrev pub budget_of : Bytes → ℕ
  budget_of frame = max_frame_bytes - length frame

  abbrev pub read_chunk : Bytes → Bool × S → Progress × S
  read_chunk frame (false, s) = (ended (err tt), s)
  read_chunk frame (true, s) =
      if ltb max_frame_bytes (length frame) || (budget_of frame == 0)
      then (ended (err tt), s)
      else let (read, s') = stream.read (min chunk_bytes (budget_of frame)) s in
        (take_chunk frame read, s')

  -- One round of the loop.
  unfoldable pub read_round : Bytes → S → Progress × S
  read_round frame s = read_chunk frame (stream.time_left s)

  abbrev pub after_round : (Bytes → S → Outcome S Bytes) → Progress × S → Outcome S Bytes
  after_round next (ended r, s) = (r, s)
  after_round next (more frame, s) = next frame s

  -- The loop, on fuel.
  unfoldable pub read_loop : ℕ → Bytes → S → Outcome S Bytes
  read_loop zero frame s = (err tt, s)
  read_loop (suc fuel) frame s = after_round (read_loop fuel) (read_round frame s)

  abbrev pub after_deadline : {A : Type 0} → (S → Outcome S A) → Bool × S → Outcome S A
  after_deadline m (false, s) = (err tt, s)
  after_deadline m (true, s) = m s

  -- A round for each byte of a frame and one more are enough.
  unfoldable pub read_frame : S → Outcome S Bytes
  read_frame s = after_deadline (read_loop (suc max_frame_bytes) []) (stream.set_deadline s)

  abbrev pub after_write :
      Bytes → (Bytes → S → Outcome S (Unit {0})) → Option ℕ × S → Outcome S (Unit {0})
  after_write bytes next (none, s) = (err tt, s)
  after_write bytes next (some zero, s) = (err tt, s)
  after_write bytes next (some (suc n), s) = next (drop (suc n) bytes) s

  -- The loop ends at the latest when every byte is written; the fuel is their number.
  unfoldable pub write_loop : ℕ → Bytes → S → Outcome S (Unit {0})
  write_loop fuel [] s = (ok tt, s)
  write_loop zero (b ∷ bytes) s = (err tt, s)
  write_loop (suc fuel) (b ∷ bytes) s =
      after_deadline (λ s'. after_write (b ∷ bytes) (write_loop fuel) (stream.write (b ∷ bytes) s'))
        (stream.time_left s)

  unfoldable pub write_before_deadline : Bytes → S → Outcome S (Unit {0})
  write_before_deadline bytes s = write_loop (length bytes) bytes s

  abbrev pub then_write : Outcome S (Unit {0}) → (S → Outcome S (Unit {0})) → Outcome S (Unit {0})
  then_write (err e, s) next = (err e, s)
  then_write (ok u, s) next = next s

  abbrev pub flushed : Bool × S → Outcome S (Unit {0})
  flushed (true, s) = (ok tt, s)
  flushed (false, s) = (err tt, s)

  unfoldable pub write_frame : Bytes → S → Outcome S (Unit {0})
  write_frame frame s =
      if is_empty frame || ltb max_frame_bytes (length frame)
      then (err tt, s)
      else after_deadline
          (λ s'. then_write (write_before_deadline frame s') (λ s''.
            then_write (write_before_deadline (10 ∷ []) s'') (λ s'''. flushed (stream.flush s'''))))
          (stream.set_deadline s)
