-- ===== src/Mcp/Transport.antt =====
-- `DpopStreamableHttpClient` of crates/keylix-mcp/src/lib.rs: every request of the inner HTTP client gets
-- a fresh proof. The inner client, its messages and header values (the crates `rmcp` and `http`) are
-- arguments; a header map is an association list over names in lower case.
pub mod Laws
pub mod Calls
use keylix_community.Prelude.{
  ℕ, Bool, ◌||◌, List, Option, none, some, Bytes, Result, ok, err, ◌>>=◌, ◌>>◌, fail_if, ok_or,
  map_err, codes, bytes_eq, bytes_eq_iff,
}
use keylix_community.Platform.{Platform}
use keylix_community.Dpop.Ports.{PortResult, Reading, ProofId}
use keylix_community.Dpop.Proof.Build.{DpopSigner}
use keylix_community.Dpop.Proof.Verify.{is_present}
use keylix_community.Dpop.Request.Uri.{parse_target}
use keylix_community.Dpop.State.Nonces.{ClientNonceStore}
use keylix_community.Dpop.State.Table.{Key, contains_key, insert}
use keylix_community.Oauth.Client.{BoundAccessToken}
use keylix_community.Oauth.Errors.{dpop}
use keylix_community.Mcp.Client.{
  McpDpopError, existing_authorization, existing_dpop_header, invalid_header_value, oauth,
  McpDpopClient, McpHttpAuthorization, resource_attempt,
}

abbrev pub dpop_header : Bytes
dpop_header = codes "dpop"

abbrev pub authorization_header : Bytes
authorization_header = codes "authorization"

instance abbrev pub header_name : Key Bytes
header_name = record { same = bytes_eq; same_iff = bytes_eq_iff }

-- `HashMap<HeaderName, HeaderValue>`.
abbrev pub Headers : Type 0 → Type 0
Headers V = List (Bytes × V)

-- `rmcp`'s `StreamableHttpClient`, over the client's state.
pub record StreamableHttpClient (I V Message Response Stream E : Type 0) : Type 0 where
  pub post_message :
      Bytes → Message → Option Bytes → Option Bytes → Headers V → I → Result E Response × I
  pub post_message_with_max_sse_event_size :
      Bytes → Message → Option Bytes → Option Bytes → Headers V → ℕ → I → Result E Response × I
  pub delete_session : Bytes → Bytes → Option Bytes → Headers V → I → Result E (Unit {0}) × I
  pub get_stream :
      Bytes → Option Bytes → Option Bytes → Option Bytes → Headers V → I → Result E Stream × I
  pub get_stream_with_max_sse_event_size :
      Bytes → Option Bytes → Option Bytes → Option Bytes → Headers V → ℕ → I → Result E Stream × I

-- `DpopStreamableHttpClientError`.
pub data ClientError (E : Type 0) : Type 0 where
  keylix : McpDpopError → ClientError E
  inner : E → ClientError E

-- `McpHttpAuthorization::into_rmcp_parts`, with `HeaderValue::from_str`.
unfoldable pub into_rmcp_parts :
    {V : Type 0}
    → (Bytes → Option V)
    → McpHttpAuthorization
    → Headers V
    → Result McpDpopError (Option Bytes × Headers V)
into_rmcp_parts from_str made custom_headers = do
  proof ← ok_or (from_str made.proof) invalid_header_value
  ok (some made.authorization, insert dpop_header proof custom_headers)

-- What the clock, the generator and the nonce store are for one attempt.
pub record Attempt (N : Type 0) : Type 0 where
  pub clock : Reading
  pub generated : PortResult ProofId
  pub state : N

module _ (p : Platform) (signer : DpopSigner) {N V : Type 0} (nonces : ClientNonceStore N)
    (from_str : Bytes → Option V) (client : McpDpopClient) (access_token : BoundAccessToken) where
  unfoldable pub decorate :
      Attempt N → Bytes → Bytes → Bool → Headers V → Result McpDpopError (Option Bytes × Headers V)
  decorate attempt method uri auth_header_present custom_headers = do
    fail_if (auth_header_present || contains_key authorization_header custom_headers)
        existing_authorization
    fail_if (contains_key dpop_header custom_headers) existing_dpop_header
    target ← map_err (λ e. oauth (dpop e)) (parse_target p uri)
    made ←
        resource_attempt p signer nonces client attempt.clock attempt.generated method target
          access_token attempt.state
    into_rmcp_parts from_str made custom_headers

  -- A request of the inner client with what the decoration made of its header fields, or none.
  abbrev pub send_decorated :
      {I A E : Type 0}
      → (Option Bytes → Headers V → I → Result E A × I)
      → Result McpDpopError (Option Bytes × Headers V)
      → I
      → Result (ClientError E) A × I
  send_decorated call (err e) i = (err (keylix e), i)
  send_decorated call (ok (auth_header, custom_headers)) i =
      let (r, i') = call auth_header custom_headers i in (map_err inner r, i')

  module _ {I Message Response Stream E : Type 0}
      (http : StreamableHttpClient I V Message Response Stream E) (attempt : Attempt N) where
    unfoldable pub post_message :
        Bytes
        → Message
        → Option Bytes
        → Option Bytes
        → Headers V
        → I
        → Result (ClientError E) Response × I
    post_message uri message session_id auth_header custom_headers =
        send_decorated (http.post_message uri message session_id)
          (decorate attempt (codes "POST") uri (is_present auth_header) custom_headers)

    unfoldable pub post_message_with_max_sse_event_size :
        Bytes
        → Message
        → Option Bytes
        → Option Bytes
        → Headers V
        → ℕ
        → I
        → Result (ClientError E) Response × I
    post_message_with_max_sse_event_size uri message session_id auth_header custom_headers
          max_size =
        send_decorated
          (λ auth headers.
            http.post_message_with_max_sse_event_size uri message session_id auth headers max_size)
          (decorate attempt (codes "POST") uri (is_present auth_header) custom_headers)

    unfoldable pub delete_session :
        Bytes → Bytes → Option Bytes → Headers V → I → Result (ClientError E) (Unit {0}) × I
    delete_session uri session_id auth_header custom_headers =
        send_decorated (http.delete_session uri session_id)
          (decorate attempt (codes "DELETE") uri (is_present auth_header) custom_headers)

    unfoldable pub get_stream :
        Bytes
        → Option Bytes
        → Option Bytes
        → Option Bytes
        → Headers V
        → I
        → Result (ClientError E) Stream × I
    get_stream uri session_id last_event_id auth_header custom_headers =
        send_decorated (http.get_stream uri session_id last_event_id)
          (decorate attempt (codes "GET") uri (is_present auth_header) custom_headers)

    unfoldable pub get_stream_with_max_sse_event_size :
        Bytes
        → Option Bytes
        → Option Bytes
        → Option Bytes
        → Headers V
        → ℕ
        → I
        → Result (ClientError E) Stream × I
    get_stream_with_max_sse_event_size uri session_id last_event_id auth_header custom_headers
          max_size =
        send_decorated
          (λ auth headers.
            http.get_stream_with_max_sse_event_size uri session_id last_event_id auth headers
              max_size)
          (decorate attempt (codes "GET") uri (is_present auth_header) custom_headers)
