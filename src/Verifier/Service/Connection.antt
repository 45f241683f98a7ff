-- ===== src/Verifier/Service/Connection.antt =====
-- `handle_connection` of crates/keylix-verifier/src/main.rs: one frame is read, opened, verified and
-- answered. The reader and the writer of the protocol's JSON documents are arguments.
pub mod Laws
pub mod Answer
use keylix_community.Prelude.{Option, none, some, Bytes, Result, ok, err}
use keylix_community.Dpop.Ports.{ReplayStore, ServerNonceStore}
use keylix_community.Dpop.Proof.Policy.{VerificationPolicy}
use keylix_community.Dpop.State.Nonces.{NonceContext}
use keylix_community.Prelude.{List, [], ◌∷◌}
use keylix_community.Verifier.Failures.{FailureClass, malformed_request, internal_failure}
use keylix_community.Verifier.Application.{
  VerifierRequest, VerifierResult, rejected, NoncePolicy, Environment,
}
use keylix_community.Verifier.Application
use keylix_community.Verifier.Ipc.{
  IpcPlatform, IpcFailure, unauthorized_peer, malformed_envelope, entropy_unavailable,
  AuthenticatedIpcRequest, PeerCredential, open_request, seal_response,
}
use keylix_community.Verifier.Service.Stream.{UnixStream, Outcome, read_frame, write_frame}

-- The class of an answer to a frame that is not authentic.
abbrev pub failure_of : IpcFailure → FailureClass
failure_of unauthorized_peer = malformed_request
failure_of malformed_envelope = malformed_request
failure_of entropy_unavailable = internal_failure

-- `serde_json` for the requests and the results of the protocol.
pub record Documents : Type 0 where
  pub read_request : Bytes → Option VerifierRequest
  pub write_result : VerifierResult → Option Bytes

module _ (p : IpcPlatform) (documents : Documents) {C : Type 0} (stream : UnixStream C)
    (peers : List PeerCredential) where
  abbrev pub write_text : Option Bytes → C → Outcome C (Unit {0})
  write_text none c = (err tt, c)
  write_text (some text) c = write_frame stream text c

  unfoldable pub write_unsealed_rejection : FailureClass → C → Outcome C (Unit {0})
  write_unsealed_rejection failure c = write_text (documents.write_result (rejected failure)) c

  abbrev pub write_sealed : Result IpcFailure Bytes → C → Outcome C (Unit {0})
  write_sealed (err e) c = (err tt, c)
  write_sealed (ok sealed) c = write_frame stream sealed c

  abbrev pub seal_text : AuthenticatedIpcRequest → Option Bytes → C → Outcome C (Unit {0})
  seal_text authenticated none c = (err tt, c)
  seal_text authenticated (some payload) c =
      write_sealed (seal_response p peers authenticated payload) c

  -- The result, sealed for the peer that asked.
  unfoldable pub answer_sealed : AuthenticatedIpcRequest → VerifierResult → C → Outcome C (Unit {0})
  answer_sealed authenticated result c = seal_text authenticated (documents.write_result result) c

module _ (p : IpcPlatform) (documents : Documents) {C N S : Type 0} (stream : UnixStream C)
    (peers : List PeerCredential) (nonces : ServerNonceStore N NonceContext) (store : ReplayStore S)
    (nonce_policy : NoncePolicy) (policy : VerificationPolicy) (env : Environment) where
  abbrev pub Served : Type 0
  Served = Result (Unit {0}) (Unit {0}) × C × N × S

  abbrev pub unserved : Outcome C (Unit {0}) → N → S → Served
  unserved (r, c) n s = (r, c, n, s)

  abbrev pub serve_request : AuthenticatedIpcRequest → Option VerifierRequest → C → N → S → Served
  serve_request authenticated none c n s =
      unserved (answer_sealed p documents stream peers authenticated (rejected malformed_request) c)
        n s
  serve_request authenticated (some request) c n s =
      let (result, n', s') =
        Application.verify p.base nonces store nonce_policy policy env request n s in
      unserved (answer_sealed p documents stream peers authenticated result c) n' s'

  abbrev pub serve_opened : Result IpcFailure AuthenticatedIpcRequest → C → N → S → Served
  serve_opened (err e) c n s =
      unserved (write_unsealed_rejection p documents stream peers (failure_of e) c) n s
  serve_opened (ok authenticated) c n s =
      serve_request authenticated (documents.read_request authenticated.payload) c n s

  abbrev pub serve_frame : Outcome C Bytes → N → S → Served
  serve_frame (err e, c) n s = (err tt, c, n, s)
  serve_frame (ok frame, c) n s = serve_opened (open_request p peers frame) c n s

  unfoldable pub handle_connection : C → N → S → Served
  handle_connection c n s = serve_frame (read_frame stream c) n s

-- A connection with what the capabilities return while it is served.
pub record Incoming (C : Type 0) : Type 0 where
  pub connection : C
  pub environment : Environment

module _ (p : IpcPlatform) (documents : Documents) {C N S : Type 0} (stream : UnixStream C)
    (peers : List PeerCredential) (nonces : ServerNonceStore N NonceContext) (store : ReplayStore S)
    (nonce_policy : NoncePolicy) (policy : VerificationPolicy) where
  -- `for incoming in listener.incoming()`: the result of a connection is dropped.
  unfoldable pub serve_all : List (Incoming C) → N → S → N × S
  serve_all [] n s = (n, s)
  serve_all (i ∷ incoming) n s =
      let (r, c, n', s') =
        handle_connection p documents stream peers nonces store nonce_policy policy i.environment
          i.connection n s in
      serve_all incoming n' s'
