-- ===== src/Verifier/Service/Connection/Answer.antt =====
-- A whole exchange with a peer (`handle_connection` of crates/keylix-verifier/src/main.rs).
use keylix_community.Prelude.{
  ℕ, zero, suc, ◌<◌, ◌≤◌, ◌≡◌, ◌≢◌, refl, sym, ap, ◌∙◌, subst, Bool, true, false, List, [], ◌∷◌,
  ◌++◌, some, Bytes, Result, ok, length, all, is_byte, bytes_eq_refl, arith,
}
use keylix_community.Dpop.Ports.{ReplayStore, ServerNonceStore}
use keylix_community.Dpop.Proof.Policy.{VerificationPolicy}
use keylix_community.Dpop.State.Nonces.{NonceContext}
use keylix_community.Verifier.Application as application
use keylix_community.Verifier.Application.{
  VerifierRequest, VerifierResult, NoncePolicy, Environment,
}
use keylix_community.Verifier.Ipc.{
  IpcPlatform, AuthenticatedIpcRequest, PeerCredential, request_domain, response_domain,
  valid_peer_id, open_frame, seal, open_request, seal_response, open_response_for_request,
}
use keylix_community.Verifier.Ipc.Laws.{IsLawfulIpc, open_frame-seal}
use keylix_community.Verifier.Service.Stream.{
  max_frame_bytes, chunk_bytes, min, budget_of, UnixStream, Outcome, Progress, ended, more,
  drop_return, nonempty, read_chunk, read_round, after_round, read_loop, read_frame, after_deadline,
}
use keylix_community.Verifier.Service.Stream.Newline.{NoNewline}
use keylix_community.Verifier.Service.Stream.Laws.{IsDelivering, read_frame-delivered}
use keylix_community.Verifier.Service.Stream.Writing.{IsAccepting, write_frame-accepted}
use keylix_community.Verifier.Service.Connection.{
  Documents, answer_sealed, serve_frame, handle_connection,
}

-- A connection to a peer: what the peer sends arrives, what is written is accepted, and a read writes
-- nothing.
pub record IsConnection {S : Type 0} (stream : UnixStream S) (rest out : S → Bytes) : Type 0 where
  pub delivering : IsDelivering stream rest
  pub accepting : IsAccepting stream out
  pub read-keeps : (n : ℕ) (s : S) → out (stream.read n s).1 ≡ out s

module _ {S : Type 0} {stream : UnixStream S} {rest out : S → Bytes}
    (joined : IsConnection stream rest out) where
  read_chunk-keeps : (frame : Bytes) (r : Bool × S) → out (read_chunk stream frame r).1 ≡ out r.1
  read_chunk-keeps frame (false, s) = refl
  read_chunk-keeps frame (true, s) =
      ground (arith, joined.read-keeps (min chunk_bytes (budget_of stream frame)) s)

  round-keeps : (frame : Bytes) (s : S) → out (read_round stream frame s).1 ≡ out s
  unfolding read_round
  round-keeps frame s = read_chunk-keeps frame (stream.time_left s) ∙ (joined.accepting.in_time s).1

  after_round-keeps :
      (next : Bytes → S → Outcome S Bytes) (r : Progress × S)
      → ((frame : Bytes) (s : S) → out (next frame s).1 ≡ out s)
      → out (after_round stream next r).1 ≡ out r.1
  after_round-keeps next (ended e, s) h = refl
  after_round-keeps next (more frame, s) h = h frame s

  read_loop-keeps :
      (fuel : ℕ) (frame : Bytes) (s : S) → out (read_loop stream fuel frame s).1 ≡ out s
  unfolding read_loop
  read_loop-keeps zero frame s = refl
  read_loop-keeps (suc fuel) frame s =
      after_round-keeps (read_loop stream fuel) (read_round stream frame s) (read_loop-keeps fuel)
      ∙ round-keeps frame s

  begin-keeps :
      (r : Bool × S)
      → out (after_deadline stream (read_loop stream (suc max_frame_bytes) []) r).1 ≡ out r.1
  begin-keeps (true, s) = read_loop-keeps (suc max_frame_bytes) [] s
  begin-keeps (false, s) = refl

  read_frame-keeps : (s : S) → out (read_frame stream s).1 ≡ out s
  unfolding read_frame
  read_frame-keeps s = begin-keeps (stream.set_deadline s) ∙ (joined.accepting.starts s).1

module _ (p : IpcPlatform) (laws : IsLawfulIpc p) (documents : Documents) {C N S : Type 0}
    {stream : UnixStream C} {rest out : C → Bytes} (joined : IsConnection stream rest out)
    (peers : List PeerCredential) (nonces : ServerNonceStore N NonceContext) (store : ReplayStore S)
    (nonce_policy : NoncePolicy) (policy : VerificationPolicy) (env : Environment) where
  abbrev pub verified : VerifierRequest → N → S → VerifierResult × N × S
  verified request n s = application.verify p.base nonces store nonce_policy policy env request n s

  -- The connection was served: the answer is on its way, and the stores are as given.
  abbrev pub Answered : Bytes → Bytes → N → S → Result (Unit {0}) (Unit {0}) × C × N × S → Type 0
  Answered before sealed n s r =
      (r.0 ≡ ok tt) × (out r.1 ≡ before ++ (sealed ++ 10 ∷ [])) × (r.2 ≡ n) × (r.3 ≡ s)

  sealed-answer :
      (opened : AuthenticatedIpcRequest) (result : VerifierResult) (text sealed : Bytes) (c : C)
      → documents.write_result result ≡ some text
      → seal_response p peers opened text ≡ ok sealed
      → sealed ≢ []
      → length sealed ≤ max_frame_bytes
      → ((answer_sealed p documents stream peers opened result c).0 ≡ ok tt)
        × (out (answer_sealed p documents stream peers opened result c).1
            ≡ out c ++ (sealed ++ 10 ∷ []))
  unfolding answer_sealed
  sealed-answer opened result text sealed c written closed ne small =
      rw (written, closed) (write_frame-accepted joined.accepting sealed c ne small)

  frame-Answered :
      (opened : AuthenticatedIpcRequest) (frame text sealed : Bytes) (request : VerifierRequest)
      (c : C) (n : N) (s : S)
      → open_request p peers frame ≡ ok opened
      → documents.read_request opened.payload ≡ some request
      → documents.write_result (verified request n s).0 ≡ some text
      → seal_response p peers opened text ≡ ok sealed
      → sealed ≢ []
      → length sealed ≤ max_frame_bytes
      → Answered (out c) sealed (verified request n s).1 (verified request n s).2 (
          serve_frame p documents stream peers nonces store nonce_policy policy env
            (ok frame, c)
            n
            s)
  frame-Answered opened frame text sealed request c n s read parsed written closed ne small =
      let (done, sent) =
        sealed-answer opened (verified request n s).0 text sealed c written closed ne small in
      rw (read, parsed) (done, sent, refl, refl)

  received :
      (frame : Bytes) (r : Outcome C Bytes) (before sealed : Bytes) (n0 n : N) (s0 s : S)
      → r.0 ≡ ok frame
      → Answered before sealed n s (
          serve_frame p documents stream peers nonces store nonce_policy policy env
            (ok frame, r.1)
            n0
            s0)
      → Answered before sealed n s
          (serve_frame p documents stream peers nonces store nonce_policy policy env r n0 s0)
  received frame (o, c) before sealed n0 n s0 s got answer =
      subst
        (λ (o : Result (Unit {0}) Bytes).
          Answered before sealed n s (
            serve_frame p documents stream peers nonces store nonce_policy policy env (o, c) n0 s0))
        (sym got) answer

  opened_nonempty :
      (frame domain : Bytes) (opened : AuthenticatedIpcRequest)
      → open_frame p peers frame domain ≡ ok opened
      → frame ≢ []
  unfolding open_frame
  opened_nonempty [] domain opened h same = ground (arith, h)
  opened_nonempty (b ∷ frame) domain opened h same = ground (arith, same)

  nonempty-ok : (x : Bytes) → x ≢ [] → nonempty x ≡ ok x
  nonempty-ok [] ne = absurd (ne refl)
  nonempty-ok (b ∷ x) ne = refl

  -- Base64, HMAC and JSON are lawful, and the connection delivers and accepts. A frame that a peer with a
  -- valid identifier sealed as a request for a 32-byte correlation and a payload of bytes that reads as a
  -- request is answered, if the frame has no newline and no carriage return at its end and is shorter than the limit
  -- and all that the connection holds before a newline, if the result of the verification is written as
  -- a text of bytes, and if that text seals, as a response to the peer, to a frame within the limit: the
  -- request is verified once, the stores are as the verification leaves them, and what is written is the
  -- sealed response and a newline, which opens for the peer, as the response to that very request, to
  -- the written result.
  pub handle_connection-answers :
      (id correlation payload frame text sealed : Bytes) (request : VerifierRequest) (c : C) (n : N)
      (s : S)
      → valid_peer_id id ≡ true
      → length correlation ≡ 32
      → all is_byte correlation ≡ true
      → all is_byte payload ≡ true
      → seal p peers id correlation payload request_domain ≡ ok frame
      → NoNewline frame
      → drop_return frame ≡ frame
      → length frame < max_frame_bytes
      → rest c ≡ frame ++ 10 ∷ []
      → documents.read_request payload ≡ some request
      → documents.write_result (verified request n s).0 ≡ some text
      → all is_byte text ≡ true
      → seal p peers id correlation text response_domain ≡ ok sealed
      → length sealed ≤ max_frame_bytes
      → Answered
          (out c)
          sealed
          (verified request n s).1
          (verified request n s).2
          (handle_connection p documents stream peers nonces store nonce_policy policy env c n s)
        × (open_response_for_request p peers
              (record { frame = frame; peer_id = id; correlation = correlation })
              sealed
            ≡ ok (record { peer_id = id; correlation = correlation; payload = text }))
  unfolding handle_connection open_request seal_response open_response_for_request
  handle_connection-answers id correlation payload frame text sealed request c n s valid sized bytes
        carried made clean bare small at parsed written text_bytes closed fits =
      let opened =
        open_frame-seal p laws peers id correlation payload request_domain frame valid sized bytes
          carried made (omega (arith, small)) in
      let response =
        open_frame-seal p laws peers id correlation text response_domain sealed valid sized bytes
          text_bytes closed (omega (arith, fits)) in
      let present =
        opened_nonempty frame request_domain
          (record { peer_id = id; correlation = correlation; payload = payload }) opened in
      let sealed_present =
        opened_nonempty sealed response_domain
          (record { peer_id = id; correlation = correlation; payload = text }) response in
      let got : (read_frame stream c).0 ≡ ok frame =
        read_frame-delivered joined.delivering frame c at clean small
        ∙ (ap nonempty bare ∙ nonempty-ok frame present) in
      (
        subst
            (λ before. Answered before sealed (verified request n s).1 (verified request n s).2 (
              serve_frame p documents stream peers nonces store nonce_policy policy env
                (read_frame stream c) n s))
            (read_frame-keeps joined c)
            (received frame (read_frame stream c) (out (read_frame stream c).1) sealed n
              (verified request n s).1 s (verified request n s).2 got
              (frame-Answered
                (record { peer_id = id; correlation = correlation; payload = payload }) frame text
                sealed request (read_frame stream c).1 n s opened parsed written closed
                sealed_present fits)),
        rw (response, bytes_eq_refl id, bytes_eq_refl correlation) refl,
      )
