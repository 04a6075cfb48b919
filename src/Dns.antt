-- ===== src/Dns.antt =====
-- companion/src/dns: the local DNS development core.
pub mod Blocklist
pub mod Diagnostics
pub mod Message
pub mod Cache
pub mod Server
pub mod Resolver
pub mod Config
mod Tests
mod ServerTests
mod ConfigTests
