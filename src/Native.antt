-- ===== src/Native.antt =====
-- companion/src/messaging.rs, protocol.rs and lib.rs: the native messaging host.
pub mod Framing
pub mod RoundTrip
pub mod Serve
mod Tests
