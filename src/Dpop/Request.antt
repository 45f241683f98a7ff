-- ===== src/Dpop/Request.antt =====
-- crates/keylix-dpop/src/request.rs: the request that a proof is bound to.
pub mod Percent
pub mod Dots
pub mod Authority
pub mod Uri
use keylix_community.Prelude.{
  ℕ, Bool, ◌||◌, not, Option, none, some, Bytes, Result, ok, ◌>>=◌, ◌>>◌, fail_if, ltb, ◌==◌,
  length, is_empty, all, is_alnum,
}
use keylix_community.Dpop.Errors.{DpopError, invalid_method}
use keylix_community.Dpop.Ports.{DpopNonce}
use Uri.{EffectiveRequestTarget}

abbrev pub max_method_bytes : ℕ
max_method_bytes = 64

-- `is_http_token_byte`; keylix-http's `is_header_token_byte` is the same list.
unfoldable pub is_http_token_byte : ℕ → Bool
is_http_token_byte b =
    is_alnum b
    || (b == b'!'
        || (b == b'#'
            || (b == b'$'
                || (b == b'%'
                    || (b == b'&'
                        || (b == 0x27
                            || (b == b'*'
                                || (b == b'+'
                                    || (b == b'-'
                                        || (b == b'.'
                                            || (b == b'^'
                                                || (b == b'_'
                                                    || (b == b'`'
                                                        || (b == b'|' || b == b'~'))))))))))))))

unfoldable pub validate_method : Bytes → Result DpopError (Unit {0})
validate_method method =
    fail_if
      (is_empty method
        || (ltb max_method_bytes (length method) || not (all is_http_token_byte method)))
      invalid_method

pub record DpopRequest : Type 0 where
  pub method : Bytes
  pub target : EffectiveRequestTarget
  pub access_token : Option Bytes
  pub nonce : Option DpopNonce

-- `DpopRequest::new`.
unfoldable pub new_request : Bytes → EffectiveRequestTarget → Result DpopError DpopRequest
new_request method target = do
  validate_method method
  ok (record { method = method; target = target; access_token = none; nonce = none })

-- `with_access_token`, `with_nonce`.
unfoldable pub with_access_token : Bytes → DpopRequest → DpopRequest
with_access_token token request = record request { access_token = some token }

unfoldable pub with_nonce : DpopNonce → DpopRequest → DpopRequest
with_nonce nonce request = record request { nonce = some nonce }

-- `if let Some(nonce) = … { request = request.with_nonce(nonce) }`.
unfoldable pub with_nonce_if : Option DpopNonce → DpopRequest → DpopRequest
unfolding with_nonce
with_nonce_if none request = request
with_nonce_if (some nonce) request = with_nonce nonce request
