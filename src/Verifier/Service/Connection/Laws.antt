-- ===== src/Verifier/Service/Connection/Laws.antt =====
-- The connections and the stores of the service (crates/keylix-verifier/src/main.rs).
use keylix_community.Prelude.{◌≡◌, refl, List, [], ◌∷◌, Option, none, some, Bytes, Result, ok, err}
use keylix_community.Dpop.Ports.{ReplayStore, ServerNonceStore}
use keylix_community.Dpop.Proof.Policy.{VerificationPolicy}
use keylix_community.Dpop.State.Nonces.{NonceContext}
use keylix_community.Verifier.Application as application
use keylix_community.Verifier.Application.{VerifierRequest, NoncePolicy, Environment}
use keylix_community.Verifier.Ipc.{
  IpcPlatform, IpcFailure, AuthenticatedIpcRequest, PeerCredential, request_domain, open_request,
}
use keylix_community.Verifier.Ipc.Laws.{IsAuthentic, open_frame_sound}
use keylix_community.Verifier.Service.Stream.{UnixStream, Outcome, read_frame}
use keylix_community.Verifier.Service.Connection.{
  Documents, serve_request, serve_opened, serve_frame, handle_connection, Incoming, serve_all,
}

module _ (p : IpcPlatform) (documents : Documents) {C N S : Type 0} (stream : UnixStream C)
    (peers : List PeerCredential) (nonces : ServerNonceStore N NonceContext) (store : ReplayStore S)
    (nonce_policy : NoncePolicy) (policy : VerificationPolicy) (P : N → S → Type 0) where
  -- Verifying a request keeps the condition, if a connection delivers the frame and a peer of the set
  -- authenticated it.
  abbrev pub KeptByPeers : Type 0
  KeptByPeers =
      (i : Incoming C) (frame : Bytes) (opened : AuthenticatedIpcRequest)
      (request : VerifierRequest) (n : N) (s : S)
      → (read_frame stream i.connection).0 ≡ ok frame
      → IsAuthentic p peers request_domain frame opened
      → documents.read_request opened.payload ≡ some request
      → P n s
      → P (application.verify p.base nonces store nonce_policy policy i.environment request n s).1
          (application.verify p.base nonces store nonce_policy policy i.environment request n s).2

  abbrev KeptIn : Result (Unit {0}) (Unit {0}) × C × N × S → Type 0
  KeptIn (r, c, n, s) = P n s

  request-KeptIn :
      (i : Incoming C) (frame : Bytes) (opened : AuthenticatedIpcRequest)
      (o : Option VerifierRequest) (c : C) (n : N) (s : S)
      → KeptByPeers
      → (read_frame stream i.connection).0 ≡ ok frame
      → IsAuthentic p peers request_domain frame opened
      → documents.read_request opened.payload ≡ o
      → P n s
      → KeptIn (
          serve_request p documents stream peers nonces store nonce_policy policy i.environment
            opened o c n s)
  request-KeptIn i frame opened none c n s keeps got authentic read h = h
  request-KeptIn i frame opened (some request) c n s keeps got authentic read h =
      keeps i frame opened request n s got authentic read h

  opened-KeptIn :
      (i : Incoming C) (frame : Bytes) (o : Result IpcFailure AuthenticatedIpcRequest) (c : C)
      (n : N) (s : S)
      → KeptByPeers
      → (read_frame stream i.connection).0 ≡ ok frame
      → open_request p peers frame ≡ o
      → P n s
      → KeptIn (
          serve_opened p documents stream peers nonces store nonce_policy policy i.environment o c n
            s)
  unfolding open_request
  opened-KeptIn i frame (err e) c n s keeps got opened h = h
  opened-KeptIn i frame (ok a) c n s keeps got opened h =
      request-KeptIn i frame a (documents.read_request a.payload) c n s keeps got
        (open_frame_sound p peers frame request_domain a opened) refl h

  frame-KeptIn :
      (i : Incoming C) (o : Outcome C Bytes) (n : N) (s : S)
      → KeptByPeers
      → (read_frame stream i.connection).0 ≡ o.0
      → P n s
      → KeptIn (
          serve_frame p documents stream peers nonces store nonce_policy policy i.environment o n s)
  frame-KeptIn i (err e, c) n s keeps got h = h
  frame-KeptIn i (ok frame, c) n s keeps got h =
      opened-KeptIn i frame (open_request p peers frame) c n s keeps got refl h

  -- A condition on the stores is kept by every sequence of connections, if it is kept by verifying the
  -- requests that a connection delivers in a frame whose presented tag is that of a peer of the set:
  -- nothing else that a client sends, and no failure of a connection, reaches the stores.
  pub serve_all-keeps :
      (incoming : List (Incoming C)) (n : N) (s : S)
      → KeptByPeers
      → P n s
      → P
          (serve_all p documents stream peers nonces store nonce_policy policy incoming n s).0
          (serve_all p documents stream peers nonces store nonce_policy policy incoming n s).1
  unfolding serve_all handle_connection
  serve_all-keeps [] n s keeps h = h
  serve_all-keeps (i ∷ incoming) n s keeps h =
      serve_all-keeps incoming _ _ keeps
        (frame-KeptIn i (read_frame stream i.connection) n s keeps refl h)
