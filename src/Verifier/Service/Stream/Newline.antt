-- ===== src/Verifier/Service/Stream/Newline.antt =====
-- A chunk of a frame and its newline (`read_frame_with_timeout` of crates/keylix-verifier/src/main.rs).
use keylix_community.Prelude.{
  ℕ, ◌<◌, ◌≡◌, ◌≢◌, ◌⊎◌, inl, inr, refl, ap, ◌∙◌, true, not, [], ◌∷◌, ◌++◌, Option, none, some,
  Bytes, ◌==◌, length, length-append, take, position, all, arith,
}
use keylix_community.Verifier.Service.Stream.{
  drop_return, nonempty, ended, more, at_newline, take_chunk,
}

abbrev pub NoNewline : Bytes → Type 0
NoNewline x = all (λ b. not (b == 10)) x ≡ true

-- A piece of `x` and a newline: all of it, or a front part of `x`.
pub split_newline :
    (c r x : Bytes)
    → c ++ r ≡ x ++ 10 ∷ []
    → ((c ≡ x ++ 10 ∷ []) × (r ≡ [])) ⊎ ((y : Bytes) × (x ≡ c ++ y) × (r ≡ y ++ 10 ∷ []))
split_newline [] r x h = inr (x, refl, h)
split_newline (b ∷ []) r [] h = inl (cc, cc)
split_newline (b ∷ d ∷ c) r [] h = absurd (ground (arith, h))
split_newline (b ∷ c) r (a ∷ x) h = elim (split_newline c r x (ground (arith, h))) [
  | inl (whole, empty) ↦ inl (ground (arith, h, whole), empty)
  | inr (y, front, rest) ↦ inr (y, ground (arith, h, front), rest)
]

position_newline :
    (x : Bytes) → NoNewline x → position (λ b. b == 10) (x ++ 10 ∷ []) ≡ some (length x)
position_newline [] h = refl
position_newline (b ∷ x) h = ground (arith, h, position_newline x)

position_front : (c y : Bytes) → NoNewline (c ++ y) → position (λ b. b == 10) c ≡ none
position_front [] y h = refl
position_front (b ∷ c) y h = ground (arith, h, position_front c y)

pub NoNewline-back : (c y : Bytes) → NoNewline (c ++ y) → NoNewline y
NoNewline-back [] y h = h
NoNewline-back (b ∷ c) y h = NoNewline-back c y (ground (arith, h))

take_front : (x : Bytes) (b : ℕ) → take (length x) (x ++ b ∷ []) ≡ x
take_front [] b = refl
take_front (a ∷ x) b = rw (take_front x b) refl

pub positive : (c : Bytes) → c ≢ [] → 0 < length c
positive [] ne = absurd (ne refl)
positive (b ∷ c) ne = omega arith

pub frame_of : (f g : Bytes) → more f ≡ more g → f ≡ g
frame_of f g h = cc

take_chunk_at :
    (frame c : Bytes) (o : Option ℕ)
    → c ≢ []
    → position (λ b. b == 10) c ≡ o
    → take_chunk frame (some c) ≡ at_newline frame c o
take_chunk_at frame [] o ne h = absurd (ne refl)
take_chunk_at frame (b ∷ s) o ne h = ap (at_newline frame (b ∷ s)) h

pub nonempty_end : (x : Bytes) (b : ℕ) → x ++ b ∷ [] ≢ []
nonempty_end [] b h = ground (arith, h)
nonempty_end (a ∷ x) b h = ground (arith, h)

at_newline_end :
    (frame x : Bytes)
    → at_newline frame (x ++ 10 ∷ []) (some (length x))
      ≡ ended (nonempty (drop_return (frame ++ x)))
at_newline_end frame x = rw (length-append x (10 ∷ []), take_front x 10) (ground arith)

pub take_chunk_end :
    (frame x c : Bytes)
    → c ≡ x ++ 10 ∷ []
    → NoNewline x
    → take_chunk frame (some c) ≡ ended (nonempty (drop_return (frame ++ x)))
take_chunk_end frame x c h clean =
    ap (λ d. take_chunk frame (some d)) h
    ∙ (take_chunk_at frame (x ++ 10 ∷ []) (some (length x)) (nonempty_end x 10)
          (position_newline x clean)
        ∙ at_newline_end frame x)

pub take_chunk_more :
    (frame c y : Bytes)
    → c ≢ []
    → NoNewline (c ++ y)
    → take_chunk frame (some c) ≡ more (frame ++ c)
take_chunk_more frame [] y ne clean = absurd (ne refl)
take_chunk_more frame (b ∷ c) y ne clean = rw (position_front (b ∷ c) y clean) refl
