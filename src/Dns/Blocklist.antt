-- ===== src/Dns/Blocklist.antt =====
-- companion/src/dns/blocklist.rs: filter lists and user hostnames compiled to a policy for names.
-- The source calls the crate idna for `domain_to_ascii_strict`; it is the parameter `to_ascii`,
-- with nothing assumed of it.
pub mod Hostname
pub mod Lines
pub mod Truncate
pub mod Policy
pub mod Compile
pub mod Decide
pub mod Suffixes
pub mod Decisions
pub mod Unconditional
pub mod Parts
pub mod Provenance
pub mod Counts
