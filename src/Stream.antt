-- ===== src/Stream.antt =====
-- The incremental parsers of enclave/src/main.rs: `SseEventParser` (`Sse`) and
-- `AwsEventStreamParser` (`Aws`). Both keep the bytes that are not yet a whole item and take items
-- off the front in a loop, which `Framing` holds once for both.
pub mod Framing
pub mod Sse
pub mod Aws
pub mod Capture
