-- ===== src/Mcp/Transport/Calls.antt =====
-- Sequences of calls of `DpopStreamableHttpClient` (crates/keylix-mcp/src/lib.rs).
use keylix_community.Prelude.{ℕ, ◌≡◌, refl, Option, Bytes, Result, ok, err, codes, List, [], ◌∷◌}
use keylix_community.Platform.{Platform}
use keylix_community.Dpop.Proof.Build.{DpopSigner}
use keylix_community.Dpop.Proof.Verify.{is_present}
use keylix_community.Dpop.State.Nonces.{ClientNonceStore}
use keylix_community.Oauth.Client.{BoundAccessToken}
use keylix_community.Mcp.Client.{McpDpopError, McpDpopClient}
use keylix_community.Mcp.Transport.{
  Headers, StreamableHttpClient, Attempt, send_decorated, post_message,
  post_message_with_max_sse_event_size, delete_session, get_stream,
  get_stream_with_max_sse_event_size,
}
use keylix_community.Mcp.Transport.Laws.{IsDecorated, decorate_sound}

-- A call of the wrapper with what the host gives.
pub data HttpCall (V Message : Type 0) : Type 0 where
  post : Bytes → Message → Option Bytes → Option Bytes → Headers V → HttpCall V Message
  post_bounded : Bytes → Message → Option Bytes → Option Bytes → Headers V → ℕ → HttpCall V Message
  delete : Bytes → Bytes → Option Bytes → Headers V → HttpCall V Message
  stream : Bytes → Option Bytes → Option Bytes → Option Bytes → Headers V → HttpCall V Message
  stream_bounded :
      Bytes → Option Bytes → Option Bytes → Option Bytes → Headers V → ℕ → HttpCall V Message

module _ (p : Platform) (signer : DpopSigner) {N V : Type 0} (nonces : ClientNonceStore N)
    (from_str : Bytes → Option V) (client : McpDpopClient) (access_token : BoundAccessToken)
    {I Message Response Stream E : Type 0}
    (http : StreamableHttpClient I V Message Response Stream E) where
  abbrev pub Decorated : Attempt N → Bytes → Bytes → Headers V → Option Bytes → Headers V → Type 0
  Decorated = IsDecorated p signer nonces from_str client access_token

  -- The inner client keeps a condition on its state if the header fields are decorated.
  pub record KeepsDecorated (P : I → Type 0) : Type 0 where
    pub posts :
        (a : Attempt N) (uri : Bytes) (m : Message) (session : Option Bytes) (given : Headers V)
        (auth : Option Bytes) (headers : Headers V) (i : I)
        → Decorated a (codes "POST") uri given auth headers
        → P i
        → P (http.post_message uri m session auth headers i).1
    pub posts_bounded :
        (a : Attempt N) (uri : Bytes) (m : Message) (session : Option Bytes) (given : Headers V)
        (auth : Option Bytes) (headers : Headers V) (size : ℕ) (i : I)
        → Decorated a (codes "POST") uri given auth headers
        → P i
        → P (http.post_message_with_max_sse_event_size uri m session auth headers size i).1
    pub deletes :
        (a : Attempt N) (uri session : Bytes) (given : Headers V) (auth : Option Bytes)
        (headers : Headers V) (i : I)
        → Decorated a (codes "DELETE") uri given auth headers
        → P i
        → P (http.delete_session uri session auth headers i).1
    pub streams :
        (a : Attempt N) (uri : Bytes) (session last : Option Bytes) (given : Headers V)
        (auth : Option Bytes) (headers : Headers V) (i : I)
        → Decorated a (codes "GET") uri given auth headers
        → P i
        → P (http.get_stream uri session last auth headers i).1
    pub streams_bounded :
        (a : Attempt N) (uri : Bytes) (session last : Option Bytes) (given : Headers V)
        (auth : Option Bytes) (headers : Headers V) (size : ℕ) (i : I)
        → Decorated a (codes "GET") uri given auth headers
        → P i
        → P (http.get_stream_with_max_sse_event_size uri session last auth headers size i).1

  abbrev pub perform : Attempt N → HttpCall V Message → I → I
  perform a (post uri m session auth given) i =
      (post_message p signer nonces from_str client access_token http a uri m session auth given
        i).1
  perform a (post_bounded uri m session auth given size) i =
      (post_message_with_max_sse_event_size p signer nonces from_str client access_token http a uri
        m session auth given size i).1
  perform a (delete uri session auth given) i =
      (delete_session p signer nonces from_str client access_token http a uri session auth given
        i).1
  perform a (stream uri session last auth given) i =
      (get_stream p signer nonces from_str client access_token http a uri session last auth given
        i).1
  perform a (stream_bounded uri session last auth given size) i =
      (get_stream_with_max_sse_event_size p signer nonces from_str client access_token http a uri
        session last auth given size i).1

  abbrev pub perform_all : List (Attempt N × HttpCall V Message) → I → I
  perform_all [] i = i
  perform_all ((a, call) ∷ calls) i = perform_all calls (perform a call i)

  module _ (P : I → Type 0) where
    send-keeps :
        {A : Type 0} (call : Option Bytes → Headers V → I → Result E A × I)
        (r : Result McpDpopError (Option Bytes × Headers V)) (i : I)
        → ((auth : Option Bytes) (headers : Headers V)
            → r ≡ ok (auth, headers)
            → P (call auth headers i).1)
        → P i
        → P (send_decorated p signer nonces from_str client access_token call r i).1
    send-keeps call (ok (auth, headers)) i decorated h = decorated auth headers refl
    send-keeps call (err e) i decorated h = h

    perform-keeps :
        KeepsDecorated P
        → (a : Attempt N) (call : HttpCall V Message) (i : I) → P i
        → P (perform a call i)
    unfolding post_message post_message_with_max_sse_event_size delete_session get_stream
        get_stream_with_max_sse_event_size
    perform-keeps keeps a (post uri m session auth given) i h =
        send-keeps (http.post_message uri m session) _ i
          (λ auth' headers made.
            keeps.posts a uri m session given auth' headers i
              (decorate_sound p signer nonces from_str client access_token a (codes "POST") uri
                (is_present auth) given auth' headers made).1
              h)
          h
    perform-keeps keeps a (post_bounded uri m session auth given size) i h =
        send-keeps
          (λ auth headers.
            http.post_message_with_max_sse_event_size uri m session auth headers size)
          _ i
          (λ auth' headers made.
            keeps.posts_bounded a uri m session given auth' headers size i
              (decorate_sound p signer nonces from_str client access_token a (codes "POST") uri
                (is_present auth) given auth' headers made).1
              h)
          h
    perform-keeps keeps a (delete uri session auth given) i h =
        send-keeps (http.delete_session uri session) _ i
          (λ auth' headers made.
            keeps.deletes a uri session given auth' headers i
              (decorate_sound p signer nonces from_str client access_token a (codes "DELETE") uri
                (is_present auth) given auth' headers made).1
              h)
          h
    perform-keeps keeps a (stream uri session last auth given) i h =
        send-keeps (http.get_stream uri session last) _ i
          (λ auth' headers made.
            keeps.streams a uri session last given auth' headers i
              (decorate_sound p signer nonces from_str client access_token a (codes "GET") uri
                (is_present auth) given auth' headers made).1
              h)
          h
    perform-keeps keeps a (stream_bounded uri session last auth given size) i h =
        send-keeps
          (λ auth headers.
            http.get_stream_with_max_sse_event_size uri session last auth headers size)
          _ i
          (λ auth' headers made.
            keeps.streams_bounded a uri session last given auth' headers size i
              (decorate_sound p signer nonces from_str client access_token a (codes "GET") uri
                (is_present auth) given auth' headers made).1
              h)
          h

    -- A condition that the inner client keeps for decorated header fields is kept by every sequence of
    -- calls of the wrapper, whatever the host gives: no request reaches the inner client undecorated.
    pub perform_all-keeps :
        (calls : List (Attempt N × HttpCall V Message)) (i : I)
        → KeepsDecorated P
        → P i
        → P (perform_all calls i)
    perform_all-keeps [] i keeps h = h
    perform_all-keeps ((a, call) ∷ calls) i keeps h =
        perform_all-keeps calls _ keeps (perform-keeps keeps a call i h)
