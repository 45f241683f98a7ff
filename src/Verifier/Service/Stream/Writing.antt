-- ===== src/Verifier/Service/Stream/Writing.antt =====
-- Writing a frame in pieces (`write_frame` of crates/keylix-verifier/src/main.rs).
use mathlib.Core.List.{append_assoc, append-nil}
use keylix_community.Prelude.{
  ℕ, zero, suc, ◌<◌, ◌≤◌, ◌≡◌, ◌≢◌, refl, sym, ap, subst, ◌∙◌, Bool, true, false, ◌||◌, [], ◌∷◌,
  ◌++◌, Option, some, Bytes, ok, err, ltb, length, is_empty, take, drop, arith,
}
use keylix_community.Verifier.Service.Stream.{
  max_frame_bytes, UnixStream, Outcome, after_deadline, after_write, write_loop,
  write_before_deadline, then_write, flushed, write_frame,
}

pub take-drop : (n : ℕ) (b : Bytes) → take n b ++ drop n b ≡ b
take-drop zero b = refl
take-drop (suc n) [] = refl
take-drop (suc n) (x ∷ b) = rw (take-drop n b) refl

length-drop : (n : ℕ) (b : Bytes) → 0 < length b → length (drop (suc n) b) < length b
length-drop n [] h = absurd (omega arith)
length-drop zero (x ∷ b) h = omega arith
length-drop (suc n) (x ∷ []) h = omega arith
length-drop (suc n) (x ∷ y ∷ b) h = omega (arith, length-drop n (y ∷ b) (omega arith))

module _ {S : Type 0} (stream : UnixStream S) (out : S → Bytes) where
  -- A connection that takes some bytes at each write, before the deadline.
  pub record IsAccepting : Type 0 where
    pub starts :
        (s : S) → ((stream.set_deadline s).0 ≡ true) × (out (stream.set_deadline s).1 ≡ out s)
    pub in_time : (s : S) → ((stream.time_left s).0 ≡ true) × (out (stream.time_left s).1 ≡ out s)
    pub takes :
        (b : Bytes) (s : S)
        → b ≢ []
        → (n : ℕ) × ((stream.write b s).0 ≡ some (suc n))
          × (out (stream.write b s).1 ≡ out s ++ take (suc n) b)
    pub flushes : (s : S) → ((stream.flush s).0 ≡ true) × (out (stream.flush s).1 ≡ out s)

module _ {S : Type 0} {stream : UnixStream S} {out : S → Bytes}
    (accepting : IsAccepting stream out) where
  -- It returned, and sent that much more.
  abbrev Sent : S → Bytes → Outcome S (Unit {0}) → Type 0
  Sent s text r = (r.0 ≡ ok tt) × (out r.1 ≡ out s ++ text)

  after_deadline-Sent :
      (text : Bytes) (s : S) (m : S → Outcome S (Unit {0})) (r : Bool × S)
      → r.0 ≡ true
      → out r.1 ≡ out s
      → Sent r.1 text (m r.1)
      → Sent s text (after_deadline stream m r)
  after_deadline-Sent text s m (true, s') h same (done, sent) =
      (done, sent ∙ ap (λ o. o ++ text) same)
  after_deadline-Sent text s m (false, s') h same sent = ground (arith, h)

  after_write-Sent :
      (text : Bytes) (s : S) (next : Bytes → S → Outcome S (Unit {0})) (r : Option ℕ × S) (n : ℕ)
      → r.0 ≡ some (suc n)
      → out r.1 ≡ out s ++ take (suc n) text
      → Sent r.1 (drop (suc n) text) (next (drop (suc n) text) r.1)
      → Sent s text (after_write stream text next r)
  after_write-Sent text s next (o, s') n h at (done, sent) =
      subst (λ (o : Option ℕ). Sent s text (after_write stream text next (o, s'))) (sym h)
        (
          done,
          sent
              ∙ (ap (λ z. z ++ drop (suc n) text) at
                  ∙ (append_assoc (out s) (take (suc n) text) (drop (suc n) text)
                      ∙ ap (λ z. out s ++ z) (take-drop (suc n) text))),
        )

  write_loop-Sent :
      (fuel : ℕ) (text : Bytes) (s : S)
      → length text ≤ fuel
      → Sent s text (write_loop stream fuel text s)
  unfolding write_loop
  write_loop-Sent fuel [] s enough = (refl, sym (append-nil (out s)))
  write_loop-Sent zero (b ∷ text) s enough = absurd (omega arith)
  write_loop-Sent (suc fuel) (b ∷ text) s enough =
      let (now, same) = accepting.in_time s in
      let (n, took, at) =
        accepting.takes (b ∷ text) (stream.time_left s).1 (λ e. ground (arith, e)) in
      after_deadline-Sent (b ∷ text) s
        (λ s'. after_write stream (b ∷ text) (write_loop stream fuel) (stream.write (b ∷ text) s'))
        (stream.time_left s) now same
        (after_write-Sent (b ∷ text) (stream.time_left s).1 (write_loop stream fuel)
          (stream.write (b ∷ text) (stream.time_left s).1) n took at
          (write_loop-Sent fuel (drop (suc n) (b ∷ text)) _
            (omega (arith, enough, length-drop n (b ∷ text) (omega arith)))))

  then_write-Sent :
      (first second : Bytes) (s : S) (r : Outcome S (Unit {0})) (next : S → Outcome S (Unit {0}))
      → Sent s first r
      → ((s' : S) → Sent s' second (next s'))
      → Sent s (first ++ second) (then_write stream r next)
  then_write-Sent first second s (ok u, s') next (done, at) sends =
      ((sends s').0, (sends s').1 ∙ (ap (λ o. o ++ second) at ∙ append_assoc (out s) first second))
  then_write-Sent first second s (err e, s') next (done, at) sends = ground (arith, done)

  flushed-Sent :
      (s : S) (r : Bool × S) → r.0 ≡ true → out r.1 ≡ out s → Sent s [] (flushed stream r)
  flushed-Sent s (true, s') h same = (refl, same ∙ sym (append-nil (out s)))
  flushed-Sent s (false, s') h same = ground (arith, h)

  fits :
      (frame : Bytes)
      → frame ≢ []
      → length frame ≤ max_frame_bytes
      → (is_empty frame || ltb max_frame_bytes (length frame)) ≡ false
  fits [] ne small = absurd (ne refl)
  fits (b ∷ frame) ne small = ground (arith, small)

  abbrev end_frame : S → Outcome S (Unit {0})
  end_frame s =
      then_write stream (write_before_deadline stream (10 ∷ []) s)
        (λ s1. flushed stream (stream.flush s1))

  abbrev send_frame : Bytes → S → Outcome S (Unit {0})
  send_frame frame s = then_write stream (write_before_deadline stream frame s) end_frame

  newline-Sent : (s : S) → Sent s (10 ∷ []) (end_frame s)
  unfolding write_before_deadline
  newline-Sent s =
      then_write-Sent (10 ∷ []) [] s _ _ (write_loop-Sent 1 (10 ∷ []) s (omega arith))
        (λ s1. flushed-Sent s1 (stream.flush s1) (accepting.flushes s1).0 (accepting.flushes s1).1)

  -- Over a connection that takes some bytes at each write before the deadline, a frame within the limit
  -- is written whole, in whatever pieces, and a newline after it.
  pub write_frame-accepted :
      (frame : Bytes) (s : S)
      → frame ≢ []
      → length frame ≤ max_frame_bytes
      → ((write_frame stream frame s).0 ≡ ok tt)
        × (out (write_frame stream frame s).1 ≡ out s ++ (frame ++ 10 ∷ []))
  unfolding write_frame write_before_deadline
  write_frame-accepted frame s ne small =
      let (started, same) = accepting.starts s in
      rw (fits frame ne small) (
        after_deadline-Sent (frame ++ 10 ∷ []) s (send_frame frame) (stream.set_deadline s) started
          same
          (then_write-Sent frame (10 ∷ []) (stream.set_deadline s).1 _ _
            (write_loop-Sent (length frame) frame (stream.set_deadline s).1 (omega arith))
            (λ s1. newline-Sent s1)))
