-- ===== src/Http/Laws.antt =====
-- A target that was resolved behind a proxy comes from a trusted proxy and from one header family.
use keylix_community.Prelude.{
  ◌≡◌, refl, Bool, true, false, not, ◌||◌, Option, none, some, Bytes, ok, fail_if, ok_or, ok_or-ok,
  map_err-ok, >>=-eq-ok, >>-eq-ok, arith,
}
use keylix_community.Platform.{Platform}
use keylix_community.Dpop.Request.Uri.{EffectiveRequestTarget, parse_target}
use keylix_community.Http.{
  ProxyHeaderFamily, forwarded_family, x_forwarded_family, ForwardingHeaders, untrusted_proxy,
  invalid_request_target, ambiguous_forwarding_metadata, missing_forwarding_metadata,
  single_forwarding_value, parse_single_forwarded, resolve_forwarded, resolve_x_forwarded,
  resolve_family, is_refused, absolute, build_target, resolve, is_some,
}

-- Where a family's scheme and authority come from: its own headers, with the other family absent.
abbrev pub ComesFrom : ProxyHeaderFamily → ForwardingHeaders → Bytes → Bytes → Type 0
ComesFrom forwarded_family headers scheme authority =
    (headers.x_forwarded_proto ≡ none)
    × (headers.x_forwarded_host ≡ none)
    × (raw : Bytes) × (headers.forwarded ≡ some raw)
    × (parse_single_forwarded raw ≡ ok (scheme, authority))
ComesFrom x_forwarded_family headers scheme authority =
    (headers.forwarded ≡ none)
    × (proto : Bytes) × (headers.x_forwarded_proto ≡ some proto)
    × (single_forwarding_value proto ≡ ok scheme)
    × (host : Bytes) × (headers.x_forwarded_host ≡ some host)
    × (single_forwarding_value host ≡ ok authority)

is_some-none : (o : Option Bytes) → is_some o ≡ false → o ≡ none
is_some-none none h = refl
is_some-none (some value) h = cc

family-ComesFrom :
    (family : ProxyHeaderFamily) (headers : ForwardingHeaders) (parts : Bytes × Bytes)
    → resolve_family family headers ≡ ok parts
    → ComesFrom family headers parts.0 parts.1
unfolding resolve_forwarded resolve_x_forwarded
family-ComesFrom forwarded_family headers parts h =
    let (alone, h1) =
      >>-eq-ok
        (fail_if (is_some headers.x_forwarded_proto || is_some headers.x_forwarded_host)
          ambiguous_forwarding_metadata)
        _ h in
    let (raw, given, h2) = >>=-eq-ok (ok_or headers.forwarded missing_forwarding_metadata) _ h1 in
    (
      is_some-none headers.x_forwarded_proto (ground (arith, alone)),
      is_some-none headers.x_forwarded_host (ground (arith, alone)),
      raw,
      ok_or-ok missing_forwarding_metadata headers.forwarded given,
      h2,
    )
family-ComesFrom x_forwarded_family headers parts h =
    let (alone, h1) =
      >>-eq-ok (fail_if (is_some headers.forwarded) ambiguous_forwarding_metadata) _ h in
    let (proto, given, h2) =
      >>=-eq-ok (ok_or headers.x_forwarded_proto missing_forwarding_metadata) _ h1 in
    let (host, named, h3) =
      >>=-eq-ok (ok_or headers.x_forwarded_host missing_forwarding_metadata) _ h2 in
    let (scheme, read, h4) = >>=-eq-ok (single_forwarding_value proto) _ h3 in
    let (authority, read', h5) = >>=-eq-ok (single_forwarding_value host) _ h4 in
    (
      is_some-none headers.forwarded (ground (arith, alone)),
      proto,
      ok_or-ok missing_forwarding_metadata headers.x_forwarded_proto given,
      ground (arith, read, h5),
      host,
      ok_or-ok missing_forwarding_metadata headers.x_forwarded_host named,
      ground (arith, read', h5),
    )

module _ (p : Platform) {P : Type 0} (is_trusted_proxy : P → Bool) where
  -- What a resolved target is made of.
  pub record IsResolved (family : ProxyHeaderFamily) (peer : P) (path : Bytes)
      (headers : ForwardingHeaders) (target : EffectiveRequestTarget) : Type 0 where
    pub trusted : is_trusted_proxy peer ≡ true
    pub scheme : Bytes
    pub authority : Bytes
    pub from_family : ComesFrom family headers scheme authority
    pub allowed : is_refused scheme authority path ≡ false
    pub parsed : parse_target p (absolute scheme authority path) ≡ ok target

  -- A target is resolved only behind a proxy that the host trusts, from the headers of the one
  -- configured family, and never where headers of the other family are present.
  pub resolve_sound :
      (family : ProxyHeaderFamily) (peer : P) (path : Bytes) (headers : ForwardingHeaders)
      (target : EffectiveRequestTarget)
      → resolve p is_trusted_proxy family peer path headers ≡ ok target
      → IsResolved family peer path headers target
  unfolding resolve build_target
  resolve_sound family peer path headers target h =
      let (trusted, h1) = >>-eq-ok (fail_if (not (is_trusted_proxy peer)) untrusted_proxy) _ h in
      let (parts, found, h2) = >>=-eq-ok (resolve_family family headers) _ h1 in
      let (allowed, h3) =
        >>-eq-ok (fail_if (is_refused parts.0 parts.1 path) invalid_request_target) _ h2 in
      record {
        trusted = ground (arith, trusted);
        scheme = parts.0;
        authority = parts.1;
        from_family = family-ComesFrom family headers parts found;
        allowed = ground (arith, allowed);
        parsed = map_err-ok _ (parse_target p (absolute parts.0 parts.1 path)) h3;
      }
