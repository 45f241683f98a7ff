-- ===== src/Samples/Connection.antt =====
-- A connection in memory for the tests: what was sent and not yet read, and what was written. A read
-- yields at most seven bytes and a write takes at most two.
use keylix_community.Prelude.{
  ℕ, zero, suc, ◌≤◌, ◌<◌, ◌≡◌, ◌≢◌, refl, sym, true, [], ◌∷◌, ◌++◌, Option, some, Bytes, length,
  take, drop, arith,
}
use keylix_community.Verifier.Service.Stream.{UnixStream, min}
use keylix_community.Verifier.Service.Stream.Laws.{IsDelivering}
use keylix_community.Verifier.Service.Stream.Writing.{take-drop}
use keylix_community.Verifier.Service.Connection.Answer.{IsConnection}

abbrev pub Pipe : Type 0
Pipe = Bytes × Bytes

abbrev pub written : Bytes → Pipe → Option ℕ × Pipe
written [] s = (some 0, s)
written (b ∷ []) (i, o) = (some 1, (i, o ++ b ∷ []))
written (b ∷ c ∷ rest) (i, o) = (some 2, (i, o ++ b ∷ c ∷ []))

abbrev pub pipe : UnixStream Pipe
pipe = record {
  set_deadline = λ s. (true, s);
  time_left = λ s. (true, s);
  read = λ n s. (some (take (min n 7) s.0), (drop (min n 7) s.0, s.1));
  write = written;
  flush = λ s. (true, s);
}

abbrev pub unread : Pipe → Bytes
unread s = s.0

abbrev pub sent : Pipe → Bytes
sent s = s.1

length-take_le : (n : ℕ) (b : Bytes) → length (take n b) ≤ n
length-take_le zero b = omega arith
length-take_le (suc n) [] = omega arith
length-take_le (suc n) (x ∷ b) = omega (arith, length-take_le n b)

take_some : (n : ℕ) (b : Bytes) → 0 < n → b ≢ [] → take n b ≢ []
take_some zero b h ne same = omega (arith, h)
take_some (suc n) [] h ne same = ne refl
take_some (suc n) (x ∷ b) h ne same = ground (arith, same)

pipe-IsDelivering : IsDelivering pipe unread
pipe-IsDelivering = record {
  starts = λ s. (refl, refl);
  in_time = λ s. (refl, refl);
  delivers = λ n s room some_left. (
    take (min n 7) s.0,
    refl,
    take_some (min n 7) s.0 (ground (arith, room)) some_left,
    ground (arith, length-take_le (min n 7) s.0),
    sym (take-drop (min n 7) s.0),
  );
}

takes :
    (b : Bytes) (s : Pipe)
    → b ≢ []
    → (n : ℕ) × ((written b s).0 ≡ some (suc n)) × (sent (written b s).1 ≡ sent s ++ take (suc n) b)
takes [] s ne = absurd (ne refl)
takes (b ∷ []) s ne = (0, refl, refl)
takes (b ∷ c ∷ rest) s ne = (1, refl, refl)

pub pipe-IsConnection : IsConnection pipe unread sent
pipe-IsConnection = record {
  delivering = pipe-IsDelivering;
  accepting = record {
    starts = λ s. (refl, refl);
    in_time = λ s. (refl, refl);
    takes = takes;
    flushes = λ s. (refl, refl);
  };
  read-keeps = λ n s. refl;
}
