-- ===== src/Tests/Service.antt =====
-- The service at concrete values: frames over a connection in pieces, and a request that is answered.
use keylix_community.Prelude.{
  ◌≡◌, ◌∙◌, refl, [], ◌∷◌, ◌++◌, none, some, Bytes, ok, err, codes, true, arith, length, ◌≤◌, ◌<◌,
  pos, List,
}
use keylix_community.Dpop.Errors.{port_error}
use keylix_community.Dpop.State.Nonces.{NonceTable, server_store}
use keylix_community.Dpop.State.Replay
use keylix_community.Dpop.Proof.Policy.{default_policy}
use keylix_community.Verifier.Application as application
use keylix_community.Verifier.Application.{VerifierRequest, Environment, optional, required_nonce}
use keylix_community.Verifier.Ipc.{
  valid_peer_id, request_domain, response_domain, mac_input, find_peer, calculate_mac, seal,
  open_response_for_request,
}
use keylix_community.Verifier.Service.Stream.{
  max_frame_bytes, read_frame, read_loop, read_round, write_frame,
}
use keylix_community.Verifier.Service.Stream.Laws.{read_frame-delivered}
use keylix_community.Verifier.Service.Stream.Writing.{write_frame-accepted}
use keylix_community.Verifier.Service.Connection.{Documents, handle_connection, Incoming, serve_all}
use keylix_community.Verifier.Service.Connection.Laws.{KeptByPeers, serve_all-keeps}
use keylix_community.Verifier.Service.Connection.Answer.{
  Answered, verified, handle_connection-answers,
}
use keylix_community.Dpop.Request.Authority.{decimal_value}
use keylix_community.Verifier.Service.Arguments.{
  Config, serve, parse_args, parse_from, read_argument, set_value, finish, parse_positive,
  parse_unsigned,
}
use keylix_community.Verifier.Service.Arguments.Laws.{HasNumbers, parse_args-bounded}
use keylix_community.Samples.Base64.{digit, encode}
use keylix_community.Samples.Host.{digest, repeat, target, token, proof_text}
use keylix_community.Samples.Frames.{frames, frames-IsLawfulIpc, peers, fields}
use keylix_community.Samples.Connection.{Pipe, pipe, sent, pipe-IsConnection}

-- Ten bytes arrive in two pieces, a carriage return among them.
read_in_pieces : (read_frame pipe (codes "abcdefgh" ++ 13 ∷ 10 ∷ [], [])).0 ≡ ok (codes "abcdefgh")
unfolding read_frame read_loop read_round
read_in_pieces = refl

two_frames : (read_frame pipe (codes "a" ++ 10 ∷ codes "b" ++ 10 ∷ [], [])).0 ≡ err tt
unfolding read_frame read_loop read_round
two_frames = refl

cut_off : (read_frame pipe (codes "abcdefgh", [])).0 ≡ err tt
unfolding read_frame read_loop read_round
cut_off = refl

write_frame-accepted_example :
    ((write_frame pipe (codes "abc") ([], [])).0 ≡ ok tt)
    × (sent (write_frame pipe (codes "abc") ([], [])).1 ≡ codes "abc" ++ 10 ∷ [])
write_frame-accepted_example =
    write_frame-accepted pipe-IsConnection.accepting (codes "abc") ([], []) (λ e. ground (arith, e))
      (omega arith)

abbrev id : Bytes
id = codes "app"

abbrev correlation : Bytes
correlation = repeat 32 7

abbrev payload : Bytes
payload = codes "hello"

abbrev frame_of : Bytes → Bytes → Bytes
frame_of domain text =
    1
    ∷ fields (
        id
        ∷ encode correlation
        ∷ encode text
        ∷ encode (digest 32 (domain ++ (id ++ (0 ∷ (correlation ++ text)))))
        ∷ [])

abbrev frame : Bytes
frame = frame_of request_domain payload

abbrev answer : Bytes
answer = codes "result"

abbrev asked : VerifierRequest
asked = record {
  version = 1;
  method = codes "GET";
  target = target.text;
  access_token = token;
  dpop_proof = proof_text;
  confirmation_jkt = none;
}

abbrev documents : Documents
documents = record { read_request = λ b. some asked; write_result = λ r. some answer }

abbrev env : Environment
env = record { clock = ok (pos 100); store_clock = ok (pos 100); generated = err port_error }

abbrev nonces : NonceTable
nonces = record { capacity = 2; entries = [] }

abbrev replays : Replay.InMemoryReplayStore
replays = record { capacity = 2; entries = [] }

sealed_request : seal frames peers id correlation payload request_domain ≡ ok frame
unfolding seal find_peer calculate_mac mac_input
sealed_request = refl

sealed_answer :
    seal frames peers id correlation answer response_domain ≡ ok (frame_of response_domain answer)
unfolding seal find_peer calculate_mac mac_input
sealed_answer = refl

valid : valid_peer_id id ≡ true
unfolding valid_peer_id
valid = refl

small : length frame < max_frame_bytes
unfolding encode digest
small = omega arith

answer_small : length (frame_of response_domain answer) ≤ max_frame_bytes
unfolding encode digest
answer_small = omega arith

handle_connection-answers_example :
    Answered frames frames-IsLawfulIpc documents pipe-IsConnection peers server_store Replay.store
      optional default_policy env []
      (frame_of response_domain answer)
      (verified frames frames-IsLawfulIpc documents pipe-IsConnection peers server_store
        Replay.store optional default_policy env asked nonces replays).1
      (verified frames frames-IsLawfulIpc documents pipe-IsConnection peers server_store
        Replay.store optional default_policy env asked nonces replays).2
      (handle_connection frames documents pipe peers server_store Replay.store optional
        default_policy env
        (frame ++ 10 ∷ [], [])
        nonces
        replays)
    × (open_response_for_request frames peers
          (record { frame = frame; peer_id = id; correlation = correlation })
          (frame_of response_domain answer)
        ≡ ok (record { peer_id = id; correlation = correlation; payload = answer }))
unfolding encode digest digit
handle_connection-answers_example =
    handle_connection-answers frames frames-IsLawfulIpc documents pipe-IsConnection peers
      server_store Replay.store optional default_policy env id correlation payload frame answer
      (frame_of response_domain answer) asked (frame ++ 10 ∷ [], []) nonces replays valid refl refl
      refl sealed_request refl refl small refl refl refl refl sealed_answer answer_small

-- Without a nonce policy the nonce table is left alone.
nonces_kept :
    (e : Environment) (request : VerifierRequest) (n : NonceTable) (s : Replay.InMemoryReplayStore)
    → (application.verify frames.base server_store Replay.store optional default_policy e request n
        s).1
      ≡ n
unfolding application.verify required_nonce
nonces_kept e request n s = ground arith

kept_by_peers :
    KeptByPeers frames documents pipe peers server_store Replay.store optional default_policy
      (λ n s. n ≡ nonces)
kept_by_peers i received opened asked_for n s got authentic read h =
    nonces_kept i.environment asked_for n s ∙ h

abbrev incoming : List (Incoming Pipe)
incoming =
    record { connection = (frame ++ 10 ∷ [], []); environment = env }
    ∷ record { connection = (codes "garbage", []); environment = env }
    ∷ []

serve_all-keeps_example :
    (serve_all frames documents pipe peers server_store Replay.store optional default_policy
      incoming nonces replays).0
    ≡ nonces
serve_all-keeps_example =
    serve_all-keeps frames documents pipe peers server_store Replay.store optional default_policy
      (λ n s. n ≡ nonces) incoming nonces replays kept_by_peers refl

read_frame-delivered_example :
    (read_frame pipe (codes "abcdefghijk" ++ 10 ∷ [], [])).0 ≡ ok (codes "abcdefghijk")
read_frame-delivered_example =
    read_frame-delivered pipe-IsConnection.delivering (codes "abcdefghijk")
      (codes "abcdefghijk" ++ 10 ∷ [], []) refl refl (omega arith)

abbrev arguments : List Bytes
arguments =
    codes "--socket"
    ∷ codes "/run/keylix/socket"
    ∷ codes "--replay-capacity"
    ∷ codes "16"
    ∷ codes "--peer-credentials"
    ∷ codes "/etc/keylix/peers"
    ∷ codes "--replay-dir"
    ∷ codes "/var/lib/keylix"
    ∷ []

abbrev config : Config
config = record {
  socket = codes "/run/keylix/socket";
  peer_credentials = codes "/etc/keylix/peers";
  replay_dir = codes "/var/lib/keylix";
  nonce_context = none;
  socket_group_gid = none;
  replay_capacity = 16;
  nonce_capacity = 64;
}

parsed : parse_args arguments ≡ ok (serve config)
unfolding parse_args parse_from read_argument set_value finish parse_positive parse_unsigned
    decimal_value
parsed = refl

no_zero_capacity : parse_args (codes "--nonce-capacity" ∷ codes "0" ∷ arguments) ≡ err tt
unfolding parse_args parse_from read_argument set_value finish parse_positive parse_unsigned
    decimal_value
no_zero_capacity = refl

missing_value : parse_args (codes "--socket" ∷ []) ≡ err tt
unfolding parse_args parse_from read_argument
missing_value = refl

parse_args-bounded_example : HasNumbers 16 64 none
parse_args-bounded_example = parse_args-bounded arguments config parsed
