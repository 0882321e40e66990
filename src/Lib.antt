-- ===== src/Lib.antt =====
-- The attesting enclave of this repository, the Rust crate under enclave/: a parent host sends a
-- request over a framed control connection, the enclave sends it on to an upstream over TLS,
-- streams the response back, hashes both bodies, extracts the fields that matter from them, and
-- signs a statement of the exchange. The modules model its parts as functions that can be run:
--
-- * Profile (enclave/src/tls_profile.rs): the TLS profile, `canonical_encode` and `decode`. The
--   decoder's cursor is a state that a reader monad passes on; its loops run on the count they read.
-- * Wire (enclave/src/main.rs, `read_frame`, `write_frame`): the control frames.
-- * Pool (enclave/src/main.rs, `worker`, `bump_max`, `Metrics`, the accept loop of `main`): threads
--   as lists of atomic steps, in any interleaving; 64-bit counters wrap.
-- * Statement (enclave/src/main.rs, `build_v2_statement`, `path_no_query`, `no_crlf`) and Hash
--   (`hex`, `sha256_hex`): the text that is signed.
-- * Protocol (enclave/src/main.rs, `detect_protocol_family`, `request_indicates_streaming` and the
--   predicates beside them): what an exchange speaks, and whether it streams.
-- * Intake, Handler and Trailer (enclave/src/main.rs): the request that `handle` reads and tests, the
--   exchange of `handle` with `AttestedH2Sink`, and `write_attested_trailer` with the writers behind
--   it: one request from the control connection to its trailer, on top of the other parts. Helper
--   (enclave/src/aliyun_helper.rs): the client of the proof helper.
-- * Http (enclave/src/main.rs): the request head from an ordered template
--   (`build_request_head_ordered`) and from a map of headers (inside `handle`), and the response
--   (`find`, `read_until_headers`, `parse_headers`, `stream_plain`, `stream_chunked`) over a
--   connection that is a list of what its reads find. A loop that reads in
--   each round runs on fuel one more than the size of that list; the loop over the chunks takes one
--   more than the bytes in hand and to come, since each chunk takes its line's end.
-- * Stream (enclave/src/main.rs, `SseEventParser`, `AwsEventStreamParser`): the two event streams,
--   over one loop (`Framing`) that takes items off the pending bytes, and `capture_field_body`.
-- * Aggregate (enclave/src/main.rs, `StreamFieldState`, the state of each protocol and the
--   `aggregate_…_stream` functions): what the events of a streamed response add up to. The loop of an
--   aggregate function and the `apply` of the state are the same code, and one definition.
-- * Views (enclave/src/main.rs, `field_view`, `looks_like_sse`, `parse_sse_data`): what of a body
--   counts for the claims.
-- * Claims (enclave/src/main.rs, `build_field_claims`, `FieldResponseCollector`): the field claims,
--   from the whole bodies, and from a response that comes in chunks.
-- * Json (enclave/src/main.rs, `canonical_json`, the `merge_…` functions, `pick_value`,
--   `has_required_presence`): values, their canonical text, the merging of streamed deltas and the
--   choice of fields.
--
-- Base, Text and Words hold what the parts share: lists over native numbers, results, texts as
-- lists of code points with UTF-8, and words as bytes. A u8, u16, u32 or u64 is a number, with its
-- wrap written out where the code can reach it. Examples runs the models on concrete values.
--
-- `serde_json`, `sha2` and the Unicode case tables are not part of the repository. What the code
-- calls of them is a parameter: the record `Libs` of Json, and two functions of Statement. The
-- environment variable and the policy registry that the claims name are the record `Policy` of Claims.
--
-- The connections to the upstream (the record `Outside` of Handler), the evidence device, the helper
-- process, the signature, base64 and the remaining calls of `serde_json` are parameters of Handler,
-- Trailer and Helper. A write on the control connection is a whole frame or fails.
--
-- Not modelled: the TLS stacks, the HTTP/2 client (enclave/src/h2_client.rs, a loop over a library's
-- streams), vsock and TCP egress, the evidence devices, the environment variables and the start of
-- the threads in `main`, and the counters and time limits inside `handle`: they are calls of
-- libraries and devices that are not part of the repository.
pub mod Base
pub mod Text
pub mod Words
pub mod Profile
pub mod Wire
pub mod Http
pub mod Hash
pub mod Json
pub mod Stream
pub mod Pool
pub mod Statement
pub mod Protocol
pub mod Aggregate
pub mod Views
pub mod Claims
pub mod Trailer
pub mod Helper
pub mod Handler
pub mod Intake
mod Examples
