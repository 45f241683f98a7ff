-- ===== src/Samples/Base64.antt =====
-- Unpadded URL-safe base64 (RFC 4648, section 5), written as a concrete function: the tests give it to
-- the parameter that stands for the base64 crate.
use keylix_community.Prelude.{
  ℕ, ◌+◌, ◌*◌, ◌-◌, ◌/◌, ◌%◌, ◌<◌, ◌≡◌, refl, true, ◌&&◌, List, [], ◌∷◌, Option, none, some, Bytes,
  if◌then◌else◌, ltb, leb, ◌==◌, arith, length, all, is_byte,
}
use keylix_community.Platform.{is_base64}

unfoldable pub digit : ℕ → ℕ
digit n =
    if ltb n 26
    then n + 65
    else if ltb n 52
    then n + 71
    else if ltb n 62
    then n - 4
    else if n == 62
    then 45
    else 95

unfoldable pub value : ℕ → Option ℕ
value c =
    if leb 65 c && leb c 90
    then some (c - 65)
    else if leb 97 c && leb c 122
    then some (c - 71)
    else if leb 48 c && leb c 57
    then some (c + 4)
    else if c == 45
    then some 62
    else if c == 95
    then some 63
    else none

value-digit : (n : ℕ) → n < 64 → value (digit n) ≡ some n
unfolding value digit
value-digit n h = ground arith

digit-base64 : (n : ℕ) → is_base64 (digit n) ≡ true
unfolding digit
digit-base64 n = ground arith

unfoldable pub encode : Bytes → Bytes
unfolding digit
encode [] = []
encode (a ∷ []) = digit (a / 4) ∷ digit (a % 4 * 16) ∷ []
encode (a ∷ b ∷ []) = digit (a / 4) ∷ digit (a % 4 * 16 + b / 16) ∷ digit (b % 16 * 4) ∷ []
encode (a ∷ b ∷ c ∷ s) =
    digit (a / 4)
    ∷ digit (a % 4 * 16 + b / 16)
    ∷ digit (b % 16 * 4 + c / 64)
    ∷ digit (c % 64)
    ∷ encode s

abbrev prepend : Option ℕ → Option (List ℕ) → Option (List ℕ)
prepend none o = none
prepend (some v) none = none
prepend (some v) (some vs) = some (v ∷ vs)

-- The values of all characters, if each is one of the alphabet.
unfoldable pub values : Bytes → Option (List ℕ)
values [] = some []
values (c ∷ s) = prepend (value c) (values s)

-- The bytes of a list of values: bits that are left over must be zero.
unfoldable pub join : List ℕ → Option Bytes
join [] = some []
join (v ∷ []) = none
join (v ∷ w ∷ []) = if w % 16 == 0 then some ((v * 4 + w / 16) ∷ []) else none
join (v ∷ w ∷ x ∷ []) =
    if x % 4 == 0 then some ((v * 4 + w / 16) ∷ (w % 16 * 16 + x / 4) ∷ []) else none
join (v ∷ w ∷ x ∷ y ∷ s) =
    let rest = join s in
    elim rest [
      | none ↦ none
      | some bytes ↦ some ((v * 4 + w / 16) ∷ (w % 16 * 16 + x / 4) ∷ (x % 4 * 64 + y) ∷ bytes)
    ]

abbrev join_all : Option (List ℕ) → Option Bytes
join_all none = none
join_all (some vs) = join vs

unfoldable pub decode : Bytes → Option Bytes
decode s = join_all (values s)

-- The values of an encoding.
abbrev sextets : Bytes → List ℕ
sextets [] = []
sextets (a ∷ []) = (a / 4) ∷ (a % 4 * 16) ∷ []
sextets (a ∷ b ∷ []) = (a / 4) ∷ (a % 4 * 16 + b / 16) ∷ (b % 16 * 4) ∷ []
sextets (a ∷ b ∷ c ∷ s) =
    (a / 4) ∷ (a % 4 * 16 + b / 16) ∷ (b % 16 * 4 + c / 64) ∷ (c % 64) ∷ sextets s

values-step :
    (n : ℕ) (s : Bytes) (vs : List ℕ)
    → n < 64
    → values s ≡ some vs
    → values (digit n ∷ s) ≡ some (n ∷ vs)
unfolding values
values-step n s vs h e = rw (value-digit n h, e) refl

values-encode : (b : Bytes) → all is_byte b ≡ true → values (encode b) ≡ some (sextets b)
unfolding encode
values-encode [] h = unfold values in refl
values-encode (a ∷ []) h =
    values-step (a / 4) _ _ (ground arith)
      (values-step (a % 4 * 16) [] [] (ground arith) (unfold values in refl))
values-encode (a ∷ b ∷ []) h = values-step (a / 4) _ _ (ground arith) (
    values-step (a % 4 * 16 + b / 16) _ _ (ground arith)
      (values-step (b % 16 * 4) [] [] (ground arith) (unfold values in refl)))
values-encode (a ∷ b ∷ c ∷ s) h = values-step (a / 4) _ _ (ground arith) (
    values-step (a % 4 * 16 + b / 16) _ _ (ground arith) (
      values-step (b % 16 * 4 + c / 64) _ _ (ground arith)
        (values-step (c % 64) _ _ (ground arith) (values-encode s (ground arith)))))

join-sextets : (b : Bytes) → all is_byte b ≡ true → join (sextets b) ≡ some b
unfolding join
join-sextets [] h = refl
join-sextets (a ∷ []) h = ground arith
join-sextets (a ∷ b ∷ []) h = ground arith
join-sextets (a ∷ b ∷ c ∷ s) h = ground (arith, join-sextets s)

pub decode-encode : (b : Bytes) → all is_byte b ≡ true → decode (encode b) ≡ some b
unfolding decode
decode-encode b h = rw (values-encode b h) (join-sextets b h)

pub length-encode : (b : Bytes) → length (encode b) ≡ (length b * 4 + 2) / 3
unfolding encode
length-encode [] = refl
length-encode (a ∷ []) = refl
length-encode (a ∷ b ∷ []) = refl
length-encode (a ∷ b ∷ c ∷ s) = omega (arith, length-encode s)

pub encode_alphabet : (b : Bytes) → all is_base64 (encode b) ≡ true
unfolding encode
encode_alphabet [] = refl
encode_alphabet (a ∷ []) = ground (arith, digit-base64 (a / 4), digit-base64 (a % 4 * 16))
encode_alphabet (a ∷ b ∷ []) =
    ground
      (arith, digit-base64 (a / 4), digit-base64 (a % 4 * 16 + b / 16), digit-base64 (b % 16 * 4))
encode_alphabet (a ∷ b ∷ c ∷ s) = ground (
  arith,
  digit-base64 (a / 4),
  digit-base64 (a % 4 * 16 + b / 16),
  digit-base64 (b % 16 * 4 + c / 64),
  digit-base64 (c % 64),
  encode_alphabet s,
)
