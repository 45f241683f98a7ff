-- ===== src/Dpop/Request/Percent/Laws.antt =====
-- Percent normalization: what it leaves, and that a second pass changes nothing.
use keylix_community.Prelude.{
  ℕ, ◌+◌, ◌*◌, ◌<◌, ◌≡◌, refl, [], ◌∷◌, ◌++◌, some, Bytes, Result, ok, err, arith, contains, ◌==◌,
  ==_iff, ap, true, false, Bool-cases, Option-cases, inl, inr, >>=-eq-ok,
}
use keylix_community.Dpop.Errors.{DpopError}
use keylix_community.Dpop.Request.Percent.{
  percent, is_unreserved, hex_value, hex_upper, escape, decode_escape, append_ok,
  normalize_percent_encoding,
}

hex_value-hex_upper : (v : ℕ) → v < 16 → hex_value (hex_upper v) ≡ some v
unfolding hex_value hex_upper
hex_value-hex_upper v h = ground arith

hex_value-lt : (b v : ℕ) → hex_value b ≡ some v → v < 16
unfolding hex_value
hex_value-lt b v h = ground arith

unreserved_ne_percent : (b : ℕ) → is_unreserved b ≡ true → (b == percent) ≡ false
unfolding is_unreserved
unreserved_ne_percent b h = ground arith

-- A byte that is not `%` is copied, whatever follows.
pub normalize_plain :
    (b : ℕ) (rest : Bytes)
    → (b == percent) ≡ false
    → normalize_percent_encoding (b ∷ rest) ≡ append_ok (b ∷ []) (normalize_percent_encoding rest)
unfolding normalize_percent_encoding
normalize_plain b [] h = rw h
normalize_plain b (c ∷ []) h = rw h
normalize_plain b (c ∷ d ∷ rest) h = rw h

escape-fixed :
    (h l : ℕ) (rest : Bytes)
    → h < 16
    → l < 16
    → normalize_percent_encoding rest ≡ ok rest
    → normalize_percent_encoding (escape h l ++ rest) ≡ ok (escape h l ++ rest)
unfolding escape
escape-fixed h l rest hh hl fixed = elim (Bool-cases (is_unreserved (h * 16 + l))) [
  | inl u ↦ rw u (rw (normalize_plain (h * 16 + l) rest (unreserved_ne_percent _ u), fixed) refl)
  | inr r ↦ rw r (
      unfold normalize_percent_encoding decode_escape in
      rw (hex_value-hex_upper h hh, hex_value-hex_upper l hl, r, fixed) refl)
]

decode_escape-digits :
    (h l : ℕ) (out : Bytes)
    → decode_escape h l ≡ ok out
    → (a b : ℕ) × (out ≡ escape a b) × (a < 16) × (b < 16)
unfolding decode_escape
decode_escape-digits h l out e = elim (Option-cases (hex_value h)) [
  | inl n ↦ absurd (ground (arith, n))
  | inr (a, ha) ↦ elim (Option-cases (hex_value l)) [
    | inl n ↦ absurd (ground (arith, n, ha))
    | inr (b, hb) ↦ (a, b, ground (arith, ha, hb), hex_value-lt h a ha, hex_value-lt l b hb)
  ]
]

append_ok-inv :
    (out : Bytes) (r : Result DpopError Bytes) (all : Bytes)
    → append_ok out r ≡ ok all
    → (more : Bytes) × (r ≡ ok more) × (out ++ more ≡ all)
append_ok-inv out (ok more) all h = (more, refl, ground arith)
append_ok-inv out (err e) all h = cc

plain-fixed :
    (b : ℕ) (r : Result DpopError Bytes) (out : Bytes)
    → (b == percent) ≡ false
    → append_ok (b ∷ []) r ≡ ok out
    → ((more : Bytes) → r ≡ ok more → normalize_percent_encoding more ≡ ok more)
    → normalize_percent_encoding out ≡ ok out
plain-fixed b r out plain h ih =
    let (more, e, same) = append_ok-inv (b ∷ []) r out h in
    rw (← same) (rw (normalize_plain b more plain, ih more e) refl)

-- A second pass changes nothing: what the normalization returns is its own normal form.
pub normalize_percent_encoding_idem :
    (input out : Bytes)
    → normalize_percent_encoding input ≡ ok out
    → normalize_percent_encoding out ≡ ok out
unfolding normalize_percent_encoding
normalize_percent_encoding_idem [] out h = ground arith
normalize_percent_encoding_idem (b ∷ []) out h = elim (Bool-cases (b == percent)) [
  | inl p ↦ ground arith
  | inr p ↦ plain-fixed b (ok []) out p (ground arith) (λ more e. ground arith)
]
normalize_percent_encoding_idem (b ∷ c ∷ []) out h = elim (Bool-cases (b == percent)) [
  | inl p ↦ ground arith
  | inr p ↦
      plain-fixed b (normalize_percent_encoding (c ∷ [])) out p (ground arith)
        (normalize_percent_encoding_idem (c ∷ []))
]
normalize_percent_encoding_idem (b ∷ x ∷ y ∷ rest) out h = elim (Bool-cases (b == percent)) [
  | inl p ↦
      let (piece, e, h') = >>=-eq-ok (decode_escape x y) _ (rw p at h) in
      let (more, e', same) = append_ok-inv piece (normalize_percent_encoding rest) out h' in
      let (hi, lo, made, ph, pl) = decode_escape-digits x y piece e in
      rw (← same, made)
        (escape-fixed hi lo more ph pl (normalize_percent_encoding_idem rest more e'))
  | inr p ↦
      plain-fixed b (normalize_percent_encoding (x ∷ y ∷ rest)) out p (ground arith)
        (normalize_percent_encoding_idem (x ∷ y ∷ rest))
]

hex_upper-unreserved : (v : ℕ) → v < 16 → is_unreserved (hex_upper v) ≡ true
unfolding is_unreserved hex_upper
hex_upper-unreserved v h = ground arith

-- A byte that is neither unreserved nor `%`, such as a slash, a colon or a question mark.
abbrev pub IsDelimiter : ℕ → Type 0
IsDelimiter c = (is_unreserved c ≡ false) × ((c == percent) ≡ false)

delimiter_ne_unreserved : (c x : ℕ) → IsDelimiter c → is_unreserved x ≡ true → (x == c) ≡ false
delimiter_ne_unreserved c x d u = elim (Bool-cases (x == c)) [
  | inl e ↦ absurd (ground (arith, ap is_unreserved ((==_iff x c).0 e)))
  | inr n ↦ n
]

contains-append :
    (c : ℕ) (a b : Bytes)
    → contains c a ≡ false
    → contains c b ≡ false
    → contains c (a ++ b) ≡ false
contains-append c [] b ha hb = hb
contains-append c (x ∷ a) b ha hb = ground (arith, contains-append c a b)

escape-absent : (c h l : ℕ) → IsDelimiter c → h < 16 → l < 16 → contains c (escape h l) ≡ false
unfolding escape
escape-absent c h l d ph pl = elim (Bool-cases (is_unreserved (h * 16 + l))) [
  | inl u ↦ rw (u, delimiter_ne_unreserved c _ d u) refl
  | inr r ↦ rw r (
      ground (
        arith,
        delimiter_ne_unreserved c (hex_upper h) d (hex_upper-unreserved h ph),
        delimiter_ne_unreserved c (hex_upper l) d (hex_upper-unreserved l pl),
      ))
]

-- Normalization makes no delimiter: one that the input does not hold, the output does not hold.
pub normalize_percent_encoding_absent :
    (c : ℕ) (input out : Bytes)
    → IsDelimiter c
    → contains c input ≡ false
    → normalize_percent_encoding input ≡ ok out
    → contains c out ≡ false
unfolding normalize_percent_encoding
normalize_percent_encoding_absent c [] out d a h = ground arith
normalize_percent_encoding_absent c (b ∷ []) out d a h = ground arith
normalize_percent_encoding_absent c (b ∷ x ∷ []) out d a h = ground arith
normalize_percent_encoding_absent c (b ∷ x ∷ y ∷ rest) out d a h =
    elim (Bool-cases (b == percent)) [
      | inl p ↦
          let (piece, e, h') = >>=-eq-ok (decode_escape x y) _ (rw p at h) in
          let (more, e', same) = append_ok-inv piece (normalize_percent_encoding rest) out h' in
          let (hi, lo, made, ph, pl) = decode_escape-digits x y piece e in
          rw (← same, made)
            (contains-append c (escape hi lo) more (escape-absent c hi lo d ph pl)
              (normalize_percent_encoding_absent c rest more d (ground arith) e'))
      | inr p ↦
          let (more, e', same) =
            append_ok-inv (b ∷ []) (normalize_percent_encoding (x ∷ y ∷ rest)) out (rw p at h) in
          rw (← same) (
            contains-append c (b ∷ []) more (ground arith)
              (normalize_percent_encoding_absent c (x ∷ y ∷ rest) more d (ground arith) e'))
    ]
