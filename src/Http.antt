-- ===== src/Http.antt =====
-- The HTTP/1.1 exchange with the upstream, in enclave/src/main.rs: the request head from an ordered
-- template (`Request`), `find` (`Find`), `read_until_headers` (`Head`), `stream_plain` (`Plain`) and `stream_chunked`
-- (`Chunked`), over a connection that is read in segments (`Input`).
pub mod Input
pub mod Find
pub mod Plain
pub mod Request
pub mod Head
pub mod Headers
pub mod Chunked
