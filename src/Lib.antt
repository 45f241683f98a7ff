-- ===== src/Lib.antt =====
-- Keylix Community: DPoP (RFC 9449) proofs, their verification, and the OAuth and host layers around it.
--
-- Parts, from the bottom up, with the files that model them:
-- - crates/keylix-core (jwk.rs, thumbprint.rs, error.rs): Core/Jwk. A public P-256 key from a JWK
--   document, and its RFC 7638 thumbprint.
-- - crates/keylix-dpop/src/ports.rs and error.rs: Dpop/Ports, Dpop/Errors. Identifiers, nonces, replay
--   keys, and the interfaces ReplayStore and ServerNonceStore as records of operations on a state.
-- - crates/keylix-dpop/src/state.rs: Dpop/State. InMemoryReplayStore is State/Replay; the client's and
--   the server's nonce store share the table of State/Nonces. A HashMap is an association list with the
--   operations of State/Table. State/Contract holds the laws of a replay store, which the theorems on
--   the verifier take and which the in-memory store fulfils.
-- - crates/keylix-dpop/src/request.rs: Dpop/Request. Methods, and the normalization of a target: percent
--   escapes (Percent), dot segments (Dots), host and port (Authority), the whole (Uri).
-- - crates/keylix-dpop/src/proof.rs: Dpop/Proof. Parsing (Json, Parse), policy (Policy), hashes and
--   signature (Binding), DpopVerifier::verify (Verify), DpopProofBuilder::build (Build).
-- - crates/keylix-oauth (binding.rs, client.rs, retry.rs, error.rs): Oauth. A verified proof and a
--   host-validated token become a sender binding; the client's requests, challenges and retry budget.
-- - crates/keylix-verifier/src/lib.rs: Verifier. VerifierApplication::verify, one request of the local
--   protocol, and the mapping of errors to failure classes; PeerCredentialSet, the authenticated frames
--   of that protocol (Ipc).
-- - crates/keylix-verifier/src/secure_fs.rs and replay.rs: Verifier/Directory and Verifier/Replay. The file
--   operations below an opened directory, over a state of the file system, how a directory is opened,
--   component by component, and what is demanded of it before it is used (Directory/Trust, its Opening and
--   Way), and FileReplayStore, the durable replay store of the service, with its records, its publication
--   through a marker and a hard link, and its start. Replay/Contract compares it with the contract of a
--   replay store, Replay/Restart has its restarts.
-- - crates/keylix-verifier/src/main.rs: Verifier/Service. The command line (Arguments), the frames on a
--   socket (Stream), and the handling of connections (Connection).
-- - crates/keylix-mcp (server.rs, lib.rs): Mcp. The server's verifier, which composes the proof with the
--   host's token, the client with its two nonce scopes, and the transport that decorates every request.
-- - crates/keylix-http/src/lib.rs: Http. The target of a request from trusted parts, or from the
--   forwarding headers of a proxy that the host trusts.
--
-- The verifying host calls VerifierApplication::verify, which parses the target, asks the nonce store,
-- parses the proof, calls DpopVerifier::verify with the replay store, and composes the sender binding.
-- The client builds its proofs with DpopProofBuilder under the nonce of its own store.
--
-- How code becomes definitions: a function that returns Result is a function into Prelude's Result, `?` is
-- the bind of a do block; a `&self` with a lock inside is a state that is passed and returned; a clock, a
-- random generator and a signer are read by the caller, and what they return is an argument (Reading and
-- PortResult, errors included). Strings and byte slices are lists of bytes; an i64 is an integer of
-- Prelude/Int, with the range written out where the code checks an overflow. Each call of the replay store
-- has its own reading of the store's clock, since the store owns a clock of its own.
--
-- What is called and not part of the repository is the record Platform: SHA-256, ECDSA over P-256, base64,
-- serde_json with the derived readers, and std's IPv6 addresses. IsLawful holds the documented facts of
-- base64 and SHA-256 that some theorems use; IpcPlatform and IsLawfulIpc add HMAC and the documents of
-- the frames. Directory has the file operations, any of which may fail at any call, and IsLawfulDirectory
-- what POSIX documents of their effect; OpenAt has the calls of openat by which directories are opened
-- and inspected, each of which may fail and may change the state, and nothing is assumed of them;
-- StreamableHttpClient is rmcp's HTTP client. A file that the program
-- has open is named by the name it was opened under, which no other process changes in a directory that
-- the service owns. Samples has instances.
--
-- Bounds and fuel: the loop of remove_dot_segments runs on fuel, a round for each byte of the path, which
-- is proved to be enough for every path; a port is printed with five digits, which hold every u16. A
-- frame is read on fuel for a round for each byte of the limit and one more, and written on fuel for a
-- round for each byte; a round that goes on has read or written a byte at least. The other loops are
-- structural recursion. The byte limits are those of the code.
--
-- Not modelled: poisoned mutexes, Debug and Display output, randomness, the system clock, the process
-- status and the exclusive lock of secure_fs.rs, the start of the verifier service and the checks of its
-- socket, observability and the conformance tooling.
--
-- Samples and Tests hold concrete values, runs of the operations, and the theorems at concrete values.
pub mod Prelude
pub mod Wire
pub mod Platform
pub mod Core
pub mod Dpop
pub mod Oauth
pub mod Verifier
pub mod Http
pub mod Mcp
pub mod Samples
pub mod Tests
