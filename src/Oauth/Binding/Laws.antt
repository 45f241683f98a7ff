-- ===== src/Oauth/Binding/Laws.antt =====
-- When a sender binding is established, and that its confirmation is the thumbprint's own text.
use keylix_community.Prelude.{
  [], ◌∷◌, ◌≡◌, ◌↔◌, refl, true, false, inl, inr, Option, none, some, Bytes, ok, arith, length, all,
  is_byte, contains, bytes_eq_iff, bytes_eq_refl, Option-cases,
}
use keylix_community.Platform.{Platform, IsLawful, is_base64}
use keylix_community.Dpop.Proof.Verify.{VerifiedDpopProof}
use keylix_community.Oauth.Binding.{
  HostValidatedToken, VerifiedSenderBinding, from_token_bytes, parse_jkt, compose_sender_binding,
}

module _ (p : Platform) where
  -- What a sender binding rests on: the proof was verified against an access token, the token is the
  -- one that the host validated, and it is confirmed for the proof's key.
  pub record IsBoundSender (proof : VerifiedDpopProof) (token : Bytes)
      (validated : HostValidatedToken) : Type 0 where
    pub proof_bound : proof.access_token_hash_verified ≡ true
    pub same_token : validated.fingerprint ≡ from_token_bytes p token
    pub confirmed : validated.confirmation ≡ some proof.key_thumbprint.bytes

  abbrev pub binding_of : VerifiedDpopProof → HostValidatedToken → VerifiedSenderBinding
  binding_of proof validated = record {
    key_thumbprint = proof.key_thumbprint;
    source = validated.source;
    proof_issued_at_unix = proof.issued_at_unix;
    nonce_enforced = proof.nonce_enforced;
    replay_checked = proof.replay_checked;
  }

  -- A sender binding is established exactly for a proof that was bound to an access token, the very
  -- token that the host validated, and a confirmation that is the thumbprint of the proof's key; it
  -- reports the proof's own facts.
  pub compose_sender_binding_iff :
      (proof : VerifiedDpopProof) (token : Bytes) (validated : HostValidatedToken)
      (binding : VerifiedSenderBinding)
      → (compose_sender_binding p proof token validated ≡ ok binding)
        ↔ (IsBoundSender proof token validated × (binding ≡ binding_of proof validated))
  unfolding compose_sender_binding
  compose_sender_binding_iff proof token validated binding =
      (sound validated.confirmation refl, complete)
    where
      sound :
          (o : Option Bytes)
          → validated.confirmation ≡ o
          → compose_sender_binding p proof token validated ≡ ok binding
          → IsBoundSender proof token validated × (binding ≡ binding_of proof validated)
      sound none e h = absurd (ground (arith, e))
      sound (some c) e h = (
        record {
          proof_bound = ground (arith, e);
          same_token = ground (arith, e, bytes_eq_iff (p.sha256 token) validated.fingerprint.bytes);
          confirmed = ground (arith, e, bytes_eq_iff proof.key_thumbprint.bytes c);
        },
        ground (arith, e),
      )

      complete :
          IsBoundSender proof token validated × (binding ≡ binding_of proof validated)
          → compose_sender_binding p proof token validated ≡ ok binding
      complete (b, same) = ground (
        arith,
        same,
        b.proof_bound,
        b.confirmed,
        b.same_token,
        bytes_eq_refl proof.key_thumbprint.bytes,
        bytes_eq_refl (p.sha256 token),
      )

  pub parse_jkt_sound :
      (value bytes : Bytes)
      → parse_jkt p value ≡ ok bytes
      → (p.base64_encode bytes ≡ value) × (length bytes ≡ 32)
  unfolding parse_jkt
  parse_jkt_sound value bytes h = elim (Option-cases (p.base64_decode value)) [
    | inl e ↦ absurd (ground (arith, e))
    | inr (d, e) ↦ (
      ground (arith, e, bytes_eq_iff (p.base64_encode d) value),
      ground (arith, e, bytes_eq_iff (p.base64_encode d) value),
    )
  ]

all-no_pad : (s : Bytes) → all is_base64 s ≡ true → contains b'=' s ≡ false
all-no_pad [] h = refl
all-no_pad (b ∷ s) h = ground (arith, all-no_pad s)

module _ (p : Platform) (laws : IsLawful p) where
  -- With a lawful base64, a confirmation text is accepted as given bytes exactly if it is their
  -- base64url text, and they are 32.
  pub parse_jkt_iff :
      (value bytes : Bytes)
      → all is_byte bytes ≡ true
      → (parse_jkt p value ≡ ok bytes) ↔ ((p.base64_encode bytes ≡ value) × (length bytes ≡ 32))
  parse_jkt_iff value bytes small = (parse_jkt_sound p value bytes, complete)
    where
      complete :
          (p.base64_encode bytes ≡ value) × (length bytes ≡ 32) → parse_jkt p value ≡ ok bytes
      complete (text, sized) = rw (← text) (
          unfold parse_jkt in
          ground (
            arith,
            laws.decode-encode bytes small,
            laws.length-encode bytes,
            all-no_pad (p.base64_encode bytes) (laws.encode_alphabet bytes),
            bytes_eq_refl (p.base64_encode bytes),
          ))
