-- ===== src/Dpop/Proof/Binding/Laws.antt =====
-- The material that a replay key hashes determines the key, the method, the target and the proof id.
use native.Mathlib.Nat.{pow-suc}
use keylix_community.Prelude.{
  ℕ, zero, suc, ◌/◌, ◌%◌, ◌^◌, ◌<◌, ◌≡◌, refl, sym, ◌∙◌, List, [], ◌∷◌, ◌++◌, Bytes, ok, arith,
  length, length-append, append_same_length, Result-cases, inl, inr,
}
use keylix_community.Core.Jwk.{JwkThumbprint}
use keylix_community.Dpop.Request.Uri.{EffectiveRequestTarget}
use keylix_community.Dpop.Proof.Binding.{be_bytes, length_prefixed, replay_parts}

length-be_bytes : (size n : ℕ) → length (be_bytes size n) ≡ size
unfolding be_bytes
length-be_bytes zero n = refl
length-be_bytes (suc size) n = omega (
  arith,
  length-append (be_bytes size (n / 256)) ((n % 256) ∷ []),
  length-be_bytes size (n / 256),
)

cons_inj : (a b : ℕ) → ◌≡◌ {A = List ℕ} (a ∷ []) (b ∷ []) → a ≡ b
cons_inj a b h = cc

be_bytes_injective :
    (size n m : ℕ) → n < 256 ^ size → m < 256 ^ size → be_bytes size n ≡ be_bytes size m → n ≡ m
unfolding be_bytes
be_bytes_injective zero n m hn hm e = omega arith
be_bytes_injective (suc size) n m hn hm e =
    let (high, low) =
      append_same_length (be_bytes size (n / 256)) (be_bytes size (m / 256)) ((n % 256) ∷ [])
        ((m % 256) ∷ [])
        (omega (arith, length-be_bytes size (n / 256), length-be_bytes size (m / 256))) e in
    let below : (k : ℕ) → k < 256 ^ suc size → k / 256 < 256 ^ size =
      (λ k h. omega (arith, pow-suc 256 size)) in
    omega (
      arith,
      be_bytes_injective size (n / 256) (m / 256) (below n hn) (below m hm) high,
      cons_inj (n % 256) (m % 256) low,
    )

prefixed_parts :
    (a : Bytes) (xs : List Bytes) (material : Bytes)
    → length_prefixed (a ∷ xs) ≡ ok material
    → (length a < 256 ^ 8)
      × ((more : Bytes) × (length_prefixed xs ≡ ok more)
          × (be_bytes 8 (length a) ++ (a ++ more) ≡ material))
unfolding length_prefixed
prefixed_parts a xs material h = elim (Result-cases (length_prefixed xs)) [
  | inr (x, e) ↦ absurd (ground (arith, e))
  | inl (more, e) ↦ (ground (arith, e), (more, e, ground (arith, e)))
]

-- Lists of parts of one length with the same material are the same.
length_prefixed_injective :
    (xs ys : List Bytes) (material : Bytes)
    → length xs ≡ length ys
    → length_prefixed xs ≡ ok material
    → length_prefixed ys ≡ ok material
    → xs ≡ ys
unfolding length_prefixed
length_prefixed_injective [] [] material l ha hb = refl
length_prefixed_injective [] (b ∷ ys) material l ha hb = absurd (omega arith)
length_prefixed_injective (a ∷ xs) [] material l ha hb = absurd (omega arith)
length_prefixed_injective (a ∷ xs) (b ∷ ys) material l ha hb =
    let (short_a, (more_a, ea, whole_a)) = prefixed_parts a xs material ha in
    let (short_b, (more_b, eb, whole_b)) = prefixed_parts b ys material hb in
    let (sizes, bodies) =
      append_same_length (be_bytes 8 (length a)) (be_bytes 8 (length b)) (a ++ more_a) (b ++ more_b)
        (omega (arith, length-be_bytes 8 (length a), length-be_bytes 8 (length b)))
        (whole_a ∙ sym whole_b) in
    let same = be_bytes_injective 8 (length a) (length b) short_a short_b sizes in
    let (head, tail) = append_same_length a b more_a more_b same bodies in
    cc (head, length_prefixed_injective xs ys more_a (omega arith) ea (rw tail eb))

-- Two proofs have the same replay material only if they have the same key thumbprint, method,
-- target and proof identifier: no choice of one part can imitate another.
pub replay_material_injective :
    (t u : JwkThumbprint) (method method' : Bytes) (target target' : EffectiveRequestTarget)
    (jti jti' material : Bytes)
    → length_prefixed (replay_parts t method target jti) ≡ ok material
    → length_prefixed (replay_parts u method' target' jti') ≡ ok material
    → (t ≡ u) × (method ≡ method') × (target ≡ target') × (jti ≡ jti')
replay_material_injective t u method method' target target' jti jti' material h k =
    let same = length_prefixed_injective _ _ material refl h k in
    (ground (arith, same), ground (arith, same), ground (arith, same), ground (arith, same))
