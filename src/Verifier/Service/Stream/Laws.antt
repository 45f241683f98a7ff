-- ===== src/Verifier/Service/Stream/Laws.antt =====
-- Reading a frame in pieces (`read_frame_with_timeout` of crates/keylix-verifier/src/main.rs).
use mathlib.Core.List.{append_assoc}
use keylix_community.Prelude.{
  ℕ, zero, suc, ◌+◌, ◌<◌, ◌≤◌, ◌≡◌, ◌≢◌, ◌⊎◌, inl, inr, sym, ap, subst, ◌∙◌, Bool, true, false,
  ◌||◌, [], ◌∷◌, ◌++◌, Option, some, Bytes, ltb, ◌==◌, length, length-append, arith,
}
use keylix_community.Verifier.Service.Stream.{
  max_frame_bytes, chunk_bytes, UnixStream, drop_return, nonempty, Progress, ended, more,
  take_chunk, min, budget_of, read_chunk, read_round, after_round, read_loop, read_frame,
  after_deadline,
}
use keylix_community.Verifier.Service.Stream.Newline.{
  NoNewline, split_newline, NoNewline-back, positive, frame_of, take_chunk_end, take_chunk_more,
  nonempty_end,
}

module _ {S : Type 0} (stream : UnixStream S) (rest : S → Bytes) where
  -- A connection that delivers what was sent before the deadline, in pieces of any size.
  pub record IsDelivering : Type 0 where
    pub starts :
        (s : S) → ((stream.set_deadline s).0 ≡ true) × (rest (stream.set_deadline s).1 ≡ rest s)
    pub in_time : (s : S) → ((stream.time_left s).0 ≡ true) × (rest (stream.time_left s).1 ≡ rest s)
    pub delivers :
        (n : ℕ) (s : S)
        → 0 < n
        → rest s ≢ []
        → (c : Bytes) × ((stream.read n s).0 ≡ some c)
          × (c ≢ [])
          × (length c ≤ n)
          × (rest s ≡ c ++ rest (stream.read n s).1)

module _ {S : Type 0} {stream : UnixStream S} {rest : S → Bytes}
    (delivering : IsDelivering stream rest) where
  -- What a round that has room leaves to be done.
  abbrev Rounds : Bytes → Bytes → Progress × S → Type 0
  Rounds frame x r =
      (r.0 ≡ ended (nonempty (drop_return (frame ++ x))))
      ⊎ ((c y : Bytes) × (c ≢ [])
          × (x ≡ c ++ y)
          × (r.0 ≡ more (frame ++ c))
          × (rest r.1 ≡ y ++ 10 ∷ []))

  chunk-Rounds :
      (frame x c : Bytes) (r : Option Bytes × S)
      → NoNewline x
      → r.0 ≡ some c
      → c ≢ []
      → c ++ rest r.1 ≡ x ++ 10 ∷ []
      → Rounds frame x (take_chunk frame r.0, r.1)
  chunk-Rounds frame x c r clean got ne split = elim (split_newline c (rest r.1) x split) [
    | inl (whole, empty) ↦ inl (ap (take_chunk frame) got ∙ take_chunk_end frame x c whole clean)
    | inr (y, front, behind) ↦ inr (
      c,
      y,
      ne,
      front,
      ap (take_chunk frame) got ∙ take_chunk_more frame c y ne (subst NoNewline front clean),
      behind,
    )
  ]

  has_room :
      (frame x : Bytes)
      → length frame + length x < max_frame_bytes
      → (ltb max_frame_bytes (length frame) || (budget_of stream frame == 0)) ≡ false
  has_room frame x room = ground (arith, room)

  pub read_chunk-Rounds :
      (frame x : Bytes) (s : S)
      → rest s ≡ x ++ 10 ∷ []
      → NoNewline x
      → length frame + length x < max_frame_bytes
      → Rounds frame x (read_chunk stream frame (true, s))
  read_chunk-Rounds frame x s at clean room =
      let (c, got, ne, small, split) =
        delivering.delivers (min chunk_bytes (budget_of stream frame)) s (ground arith)
          (λ e. nonempty_end x 10 (sym at ∙ e)) in
      rw (has_room frame x room) (
        chunk-Rounds frame x c (stream.read (min chunk_bytes (budget_of stream frame)) s) clean got
          ne (sym split ∙ at))

  start_round :
      (frame x : Bytes) (r : Bool × S)
      → r.0 ≡ true
      → rest r.1 ≡ x ++ 10 ∷ []
      → NoNewline x
      → length frame + length x < max_frame_bytes
      → Rounds frame x (read_chunk stream frame r)
  start_round frame x (true, s) h at clean room = read_chunk-Rounds frame x s at clean room
  start_round frame x (false, s) h at clean room = ground (arith, h)

  finish :
      (fuel : ℕ) (frame x : Bytes) (r : Progress × S)
      → Rounds frame x r
      → ((c y : Bytes) (s : S)
          → c ≢ []
          → x ≡ c ++ y
          → rest s ≡ y ++ 10 ∷ []
          → (read_loop stream fuel (frame ++ c) s).0 ≡ nonempty (drop_return (frame ++ x)))
      → (after_round stream (read_loop stream fuel) r).0 ≡ nonempty (drop_return (frame ++ x))
  finish fuel frame x (ended r, s) (inl h) next = ground (arith, h)
  finish fuel frame x (more f, s) (inl h) next = ground (arith, h)
  finish fuel frame x (ended r, s) (inr (c, y, ne, front, h, at)) next = ground (arith, h)
  finish fuel frame x (more f, s) (inr (c, y, ne, front, h, at)) next =
      rw (frame_of f (frame ++ c) h) (next c y s ne front at)

  read_loop-delivered :
      (fuel : ℕ) (frame x : Bytes) (s : S)
      → rest s ≡ x ++ 10 ∷ []
      → NoNewline x
      → length frame + length x < max_frame_bytes
      → length x < fuel
      → (read_loop stream fuel frame s).0 ≡ nonempty (drop_return (frame ++ x))
  unfolding read_loop read_round
  read_loop-delivered zero frame x s at clean room enough = absurd (omega arith)
  read_loop-delivered (suc fuel) frame x s at clean room enough =
      let (now, same) = delivering.in_time s in
      finish fuel frame x (read_chunk stream frame (stream.time_left s))
        (start_round frame x (stream.time_left s) now (same ∙ at) clean room)
        (λ c y s' ne front behind.
          read_loop-delivered fuel (frame ++ c) y s' behind
            (NoNewline-back c y (subst NoNewline front clean))
            (ground (arith, room, front, length-append frame c, length-append c y))
            (ground (arith, enough, front, length-append c y, positive c ne))
          ∙ ap (λ z. nonempty (drop_return z))
              (append_assoc frame c y ∙ ap (λ z. frame ++ z) (sym front)))

  begin :
      (x : Bytes) (r : Bool × S)
      → r.0 ≡ true
      → rest r.1 ≡ x ++ 10 ∷ []
      → NoNewline x
      → length x < max_frame_bytes
      → (after_deadline stream (read_loop stream (suc max_frame_bytes) []) r).0
        ≡ nonempty (drop_return x)
  begin x (true, s) h at clean room =
      read_loop-delivered (suc max_frame_bytes) [] x s at clean (omega (arith, room))
        (omega (arith, room))
  begin x (false, s) h at clean room = ground (arith, h)

  -- From a connection that delivers in time, in whatever pieces, a text without a newline and shorter
  -- than the limit, and a newline, the frame that is read is that text without a carriage return at its
  -- end, and it is refused only if nothing is left of it.
  pub read_frame-delivered :
      (x : Bytes) (s : S)
      → rest s ≡ x ++ 10 ∷ []
      → NoNewline x
      → length x < max_frame_bytes
      → (read_frame stream s).0 ≡ nonempty (drop_return x)
  unfolding read_frame
  read_frame-delivered x s at clean room =
      let (started, same) = delivering.starts s in
      begin x (stream.set_deadline s) started (same ∙ at) clean room
