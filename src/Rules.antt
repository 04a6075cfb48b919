-- ===== src/Rules.antt =====
-- companion/src/rules.rs: the conservative filter compiler for pasted rules.
pub mod Syntax
pub mod Hostname
pub mod Selector
pub mod Parse
pub mod Ids
pub mod Compile
mod Tests
