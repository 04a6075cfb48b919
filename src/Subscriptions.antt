-- ===== src/Subscriptions.antt =====
-- companion/src/subscription_rules.rs: the bounded compilation of EasyList and EasyPrivacy. The
-- text of a JSON value, which serde_json gives and which serves as the key of a rule, is a
-- parameter.
pub mod Syntax
pub mod Network
pub mod Diagnostics
pub mod Pack
pub mod Lines
pub mod Filter
pub mod Compile
pub mod Sorting
pub mod Budget
pub mod Steps
pub mod LineSteps
pub mod WholeHosts
pub mod Packing
pub mod Packed
pub mod Justified
pub mod Translation
pub mod Samples
pub mod Hiding
pub mod Sources
pub mod Untaken
pub mod TakenBack
pub mod Exceptions
pub mod Anchored
pub mod Exempt
pub mod Exempted
pub mod Unhidden
pub mod Encoding
mod Tests
