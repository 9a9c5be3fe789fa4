-- ===== src/Lib.antt =====
-- A verification library for solid-server-rs, a Solid (LDP) server.
--
-- A request is authenticated, parsed to a target, mapped to an access mode and authorized against
-- the nearest ACL document; then a handler reads or writes the store. The library models the parts
-- that decide: what access an operation needs, what an ACL document grants, which document governs
-- a resource, what the caches may answer, and what an error tells the client.
--
-- Which file models what (paths from the repository's root):
--   Prelude, Prelude/*  names of the libraries, Boolean tests, lists, and Rust's `str` as a list of
--                       code points with the methods that the server calls.
--   Collections         `HashMap` as an association list.
--   Error               src/error.rs: `ServerError`, `status`, `into_response`.
--   Authz/Mode          src/authz/mode.rs: `AccessMode`, `mode_for_operation`, the ACL suffix tests.
--   Authz/Acl           src/authz/acl.rs: `modes_for` with its loops and tests, `satisfies`. A set of
--                       modes is a record of four flags; the crate oxrdf's triples are records.
--   Authz/Paths         src/authz/wac.rs: `protected_resource`, `acl_for`, `ancestors_nearest_first`.
--                       The loop has the length of the IRI as fuel: every round shortens it.
--   Authz/Reader        src/authz/wac.rs: `read_acl`, `read_acl_confirmed`, `read_and_parse_acl`,
--                       `parse_acl_body`. `Option<&AclCache>` is passed in and out as state.
--   Authz/Wac           src/authz/wac.rs: `resolve_effective_acl`, `authorize`, `authorize_read`,
--                       `effective_permissions` and the planned methods; in Decisions what holds
--                       of them through a cache.
--   Cache/Acl           src/acl_cache.rs: `get` is `lookup`, `insert` is `store`.
--   Authz/WacAllow      src/authz/wac_allow.rs: `serialise_modes`, `wac_allow_header`.
--   Ldp/Content         src/ldp/content.rs: `classify`.
--   Ldp/Range           src/ldp/range.rs: `evaluate`, its four cases as functions of their own.
--   Ldp/Target          src/ldp/target.rs: `parse_target`.
--   Ldp/Conditional     src/ldp/conditional.rs: entity tags, `evaluate`, `variant_etag`; in Read
--                       `evaluate_read`.
--   Ldp/Patch           src/ldp/patch.rs: Solve has `solve_bgp` and what it calls, Apply has
--                       `apply_patch` and `instantiate`, N3 `parse_n3_patch`, Sparql
--                       `parse_sparql_update`. A binding is a hash map; the cursor of the update
--                       parser is the text that is left, whose length is fuel enough for its loop.
--                       Without the feature embedded-sparq there are no quoted triples.
--   Ldp/HttpDate        src/ldp/conditional.rs: `parse_http_date`, `days_from_civil`. The fields of the
--                       fixed-width text are the variables of one pattern of 29 characters.
--   Auth/Proof          src/auth_cache.rs: `verify_fresh_proof`; `check_proof` is the part before the
--                       replay mark.
--   Auth/TokenCache     src/auth_cache.rs: `authenticate`, with `find` for the block under the lock;
--                       `insert` is `store`.
--   Pop/Store           src/pop/sk/store.rs: `insert` is `add`, `get` is `find`, `remove` is
--                       `terminate`.
--   Pop/Window          src/pop/sk/window.rs: `check_and_mark`. A word of the bitmap is its 64 bits.
--   Store/BodyCache     src/store/body_cache.rs: `get` is `lookup`, `insert` is `store`. The eviction
--                       loop goes over the list of keys by recency; the theorems ask for a budget
--                       below 2^63 bytes, so that no sum of charges saturates.
--   Notifications       src/notifications/mod.rs and ws.rs: `mint_receive_token`,
--                       `validate_receive_token`, `receive_handler` up to the upgrade.
--   RateLimit           src/rate_limit.rs: `resolve_client_ip`, `client_ip_from_xff`; in Addresses
--                       `is_internal_ip`, `shard_for`; in Buckets `RateLimiter` with `allow` and
--                       `rate_limit_middleware`. `count_below` sums the shards.
--   Overload            src/overload.rs: `AdmissionControl`, and `admission_middleware` as a step
--                       relation, one step for each atomic operation of a request.
--   Identity            src/identity.rs: `is_reserved_identity_path`, `is_valid_handle`.
--
-- Parameters: the store (`meta`, `read`, `read_at` with their errors), the RDF parsers, the clock
-- (a time for each document that is read), the test that http makes of a header value, the parser
-- of IP addresses, the arithmetic of `f64`, the random bytes of a token, SHA-256, base64url, the verification of a DPoP proof, the parser of URLs and the
-- replay store.
-- A request reads the store at one moment; what changes between two reads of one request shows only
-- as different answers of `meta`, `read` and `read_at`.
--
-- Numbers are natural numbers with the wrap-around and saturation of the source written out.
--
-- Not modelled: sockets, TLS, the runtime, the SPARQL and blob back ends, cryptography, and the
-- wiring of the application.
pub mod Auth
pub mod Authz
pub mod Cache
pub mod Collections
pub mod Error
pub mod Identity
pub mod Ldp
pub mod Notifications
pub mod Overload
pub mod Pop
pub mod Prelude
pub mod RateLimit
pub mod Store
