-- ===== src/Lib.antt =====
-- The content-addressable store of OpenWeights (cas/crates), in its request paths: a client
-- uploads xorbs (sequences of compressed chunks), then a shard that says how files are made of
-- chunk ranges of xorbs; the server keeps both in Postgres and pins their bytes on Sia; a download
-- asks how to put a file together and gets signed byte ranges of xorbs.
--
-- The parts, and the files of the program:
--   Coalesce: openweights-cas-core/src/coalesce.rs, `coalesce_terms_by_xorb`, which merges the
--     byte spans of the terms of each xorb. `group_from` is its first loop, `merge_from` its
--     second.
--   Hex: the codecs `decode_file_id_hex` of handlers/reconstruction.rs and `decode_hex32`,
--     `hex_of` of shard_parse.rs.
--   Reconstruction, ReconstructionV2: the builders `build_response` of handlers/reconstruction.rs
--     and `build_v2_response` of handlers/reconstruction_v2.rs, on top of the coalescer.
--   ShardParse: shard_parse.rs, `parse_and_validate`, which turns a shard into rows.
--   RateLimit: rate_limit.rs and scripts/rate_limit.lua.
--   Store: the tables, the rate-limit buckets, the Sia adapter and the error type as one state,
--     and the monad of the handlers, in which each SQL statement may fail. Store/Xorbs,
--     Store/Shards and Store/Files are the queries of openweights-cas-db/src/queries.
--   XorbUpload, ShardUpload, Download: the handlers of handlers/xorbs.rs, shards.rs,
--     reconstruction.rs and reconstruction_v2.rs over that state.
--   Reconciler: openweights-cas-storage/src/reconciler.rs, the sweep that retries stuck pins.
--   SignedUrl: openweights-cas-core/src/signed_url.rs, the minters and the verifier of gateway
--     URLs. SignedUrl/Text prints and reads numbers and ranges, SignedUrl/Grants is the signer as
--     the minter of the response builder.
--   Auth: auth.rs, scopes.rs, xet_jwt.rs and handlers/admin/keys.rs over the tables `users` and
--     `api_keys`, the key cache and the clocks. Auth/Cache is `KeyCache`, Auth/XetJwt the tokens
--     and Auth/Minting how this server makes them, Auth/Scoped the extractor, Auth/Keys the keys
--     of the console.
--   Sessions: session.rs and handlers/auth/logout.rs, the console's sessions, their cookie and the
--     nonces of the OAuth logins, over the tables `sessions` and `oauth_state`.
--   Base: the shared helpers.
--
-- How they interact: the handlers call the parser, the rate limiter, the queries and the builders
-- in the order of the source; the reconciler works on the same tables through its own statements.
-- The builders sign through the interface of the signer, which SignedUrl fills. Requests, key
-- changes, time and database failures interleave in any order in Auth/Refused and Sessions/Steps.
--
-- Numbers: offsets are natural numbers; where the source casts to `u64` or `u32` or may wrap, the
-- model writes the wrap-around out. A hash is the number of its 32 bytes. A refill rate, an `f64`
-- in the source, is a fraction. The keys of a rate-limit bucket expire by the clock of Redis,
-- which is not the clock that the client sends.
--
-- Failures: each statement may fail, a COMMIT too; what the server has done with a COMMIT that is
-- not answered is open.
--
-- Fuel: the loops of the shard parser run on fuel, of which more than the length of the body is
-- enough; the walk over the chunks of a xorb has the length of the body and one. A number is
-- printed with fuel for 20 digits, which every `u64` fits. All other functions are structural.
--
-- Parameters: xet-core's codecs and readers (`MerkleHash::hex` and `from_hex`, `XorbObject`,
-- `parse_chunk_header`, the section readers), SHA-256, HMAC, base64, `url`, `Uuid`, serde_json,
-- the `lru` crate and the random bytes of a new key are arguments. What is relied on is named: the
-- hex codec does not merge two hashes, a reader moves forward, and the records SignedUrl/Laws,
-- `LruLaws`, `MintLaws` and `UuidLaws` say what the other crates do; SignedUrl/TestCrates,
-- Auth/Tests, Auth/Minting/Tests and Sessions/Tests have functions that do it.
--
-- Not modelled: the Sia SDK behind the adapter, the other admin handlers, the hub handlers, the
-- exchange with GitHub, metrics other than the reconciler's, logging, the server binary, and the
-- parts of the repository in other languages. Interleavings of a handler and a sweep are not steps
-- of their own; a row that a sweep read earlier is an argument of its theorems. The task that
-- updates `last_used_at` runs at the end of its request. A request of Auth is one step: a
-- revocation between its SELECT and its write to the key cache is not modelled.
pub mod Auth
pub mod Sessions
pub mod Base
pub mod Hex
pub mod Coalesce
pub mod Reconstruction
pub mod ReconstructionV2
pub mod ShardParse
pub mod RateLimit
pub mod SignedUrl
pub mod Store
pub mod Reconciler
pub mod XorbUpload
pub mod ShardUpload
pub mod Download
