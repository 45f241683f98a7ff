-- ===== src/Samples/Host.antt =====
-- A platform and a host's values for the tests. The digest is no hash function: it is 32 bytes of its
-- input, which is all that the theorems rely on; a signature is 64 bytes of the text.
use keylix_community.Prelude.{
  ℕ, zero, suc, ◌%◌, ◌≡◌, refl, true, false, [], ◌∷◌, ◌++◌, none, some, Bytes, ok, codes, bytes_eq,
  pos, length, all, is_byte, arith,
}
use keylix_community.Wire.{obj, end, HeaderWire, ClaimsWire, JwkWire}
use keylix_community.Platform.{Platform, IsLawful}
use keylix_community.Core.Jwk.{PublicP256Jwk}
use keylix_community.Dpop.Request.{DpopRequest}
use keylix_community.Dpop.Request.Uri.{EffectiveRequestTarget}
use keylix_community.Dpop.Proof.Parse.{UnverifiedDpopProof}
use keylix_community.Dpop.Proof.Build.{DpopSigner}
use keylix_community.Samples.Base64.{encode, decode, decode-encode, length-encode, encode_alphabet}

abbrev pub repeat : ℕ → ℕ → Bytes
repeat zero b = []
repeat (suc n) b = b ∷ repeat n b

-- `n` bytes of the text, filled up with zeros.
unfoldable pub digest : ℕ → Bytes → Bytes
digest zero s = []
digest (suc n) [] = 0 ∷ digest n []
digest (suc n) (b ∷ s) = (b % 256) ∷ digest n s

pub length-digest : (n : ℕ) (s : Bytes) → length (digest n s) ≡ n
unfolding digest
length-digest zero s = refl
length-digest (suc n) [] = omega (arith, length-digest n [])
length-digest (suc n) (b ∷ s) = omega (arith, length-digest n s)

pub digest_bytes : (n : ℕ) (s : Bytes) → all is_byte (digest n s) ≡ true
unfolding digest
digest_bytes zero s = refl
digest_bytes (suc n) [] = ground (arith, digest_bytes n [])
digest_bytes (suc n) (b ∷ s) = ground (arith, digest_bytes n s)

abbrev pub token : Bytes
token = codes "token"

abbrev pub target : EffectiveRequestTarget
target = record { text = codes "https://a.example/x" }

abbrev pub key : PublicP256Jwk
key = record { x_bytes = repeat 32 1; y_bytes = repeat 32 2 }

abbrev pub wire_key : JwkWire
wire_key = record {
  kty = codes "EC";
  crv = codes "P-256";
  x = encode key.x_bytes;
  y = encode key.y_bytes;
  private_member = false;
}

abbrev pub header : HeaderWire
header = record { typ = codes "dpop+jwt"; alg = codes "ES256"; jwk = obj end }

abbrev pub claims : ClaimsWire
claims = record {
  jti = codes "id";
  htm = codes "GET";
  htu = codes "https://a.example/x";
  iat = pos 100;
  ath = some (encode (digest 32 token));
  nonce = none;
}

-- Every document reads as the sample of its type.
abbrev pub host : Platform
host = record {
  sha256 = digest 32;
  base64_encode = encode;
  base64_decode = decode;
  accepts_point = λ b. true;
  verify_sig = λ point text signature. bytes_eq signature (digest 64 text);
  read_json = λ b. some (obj end);
  write_json = λ j. some (codes "{}");
  read_jwk = λ b. some wire_key;
  read_header = λ b. some header;
  read_claims = λ b. some claims;
  write_header = λ h. some (codes "h");
  write_claims = λ c. some (codes "c");
  canonical_ipv6 = λ b. none;
}

pub host-IsLawful : IsLawful host
host-IsLawful = record {
  decode-encode = decode-encode;
  length-encode = length-encode;
  encode_alphabet = encode_alphabet;
  length-sha256 = length-digest 32;
  sha256_bytes = digest_bytes 32;
}

abbrev pub signing_text : Bytes
signing_text = encode (codes "h") ++ (codes "." ++ encode (codes "c"))

abbrev pub proof_text : Bytes
proof_text = signing_text ++ (codes "." ++ encode (digest 64 signing_text))

abbrev pub proof : UnverifiedDpopProof
proof = record {
  encoded_header = encode (codes "h");
  encoded_payload = encode (codes "c");
  signature = digest 64 signing_text;
  header = header;
  claims = claims;
  public_jwk = key;
}

abbrev pub request : DpopRequest
request = record { method = codes "GET"; target = target; access_token = some token; nonce = none }

abbrev pub signer : DpopSigner
signer = record { public_jwk = key; sign = λ text. ok (digest 64 text) }
