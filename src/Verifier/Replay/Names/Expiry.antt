-- ===== src/Verifier/Replay/Names/Expiry.antt =====
-- Writing and reading an expiry (crates/keylix-verifier/src/replay.rs).
use keylix_community.Prelude.{
  ℕ, zero, suc, ◌+◌, ◌-◌, ◌*◌, ◌/◌, ◌%◌, ◌<◌, ◌≡◌, refl, ap, sym, ◌∙◌, ◌++◌, [], ◌∷◌, some, Bytes,
  arith, ℤ, pos, negsuc,
}
use keylix_community.Dpop.Request.Authority.{decimal, decimal_value}
use keylix_community.Verifier.Replay.Names.{
  strip_newline, parse_digits, parse_expiry, integer_text, expiry_text,
}

strip_newline-append : (s : Bytes) → strip_newline (s ++ 10 ∷ []) ≡ s
unfolding strip_newline
strip_newline-append [] = refl
strip_newline-append (b ∷ []) = refl
strip_newline-append (b ∷ c ∷ s) = rw (strip_newline-append (c ∷ s)) refl

decimal_value-append :
    (acc : ℕ) (s : Bytes) (b : ℕ)
    → decimal_value acc (s ++ b ∷ []) ≡ decimal_value acc s * 10 + (b - b'0')
unfolding decimal_value
decimal_value-append acc [] b = refl
decimal_value-append acc (c ∷ s) b = decimal_value-append (acc * 10 + (c - b'0')) s b

pub decimal_value-decimal : (digits n : ℕ) → n < digits → decimal_value 0 (decimal digits n) ≡ n
unfolding decimal decimal_value
decimal_value-decimal zero n h = absurd (omega arith)
decimal_value-decimal (suc digits) n h =
    let higher = decimal_value-append 0 (decimal digits (n / 10)) (b'0' + n % 10) in
    let rest : (n / 10 < digits → decimal_value 0 (decimal digits (n / 10)) ≡ n / 10) =
      decimal_value-decimal digits (n / 10) in
    ground (arith, higher, rest)

digits_text : (e e' : ℤ) → parse_digits (integer_text e) ≡ some e' → e' ≡ e
unfolding integer_text
digits_text (pos n) e' h = ground (arith, h, decimal_value-decimal (suc n) n (omega arith))
digits_text (negsuc n) e' h = ground (arith, h)

-- What is read back of an expiry's text is the expiry.
pub parse_expiry-expiry_text : (e e' : ℤ) → parse_expiry (expiry_text e) ≡ some e' → e' ≡ e
unfolding parse_expiry expiry_text
parse_expiry-expiry_text e e' h =
    digits_text e e' (sym (ap parse_digits (strip_newline-append (integer_text e))) ∙ h)
