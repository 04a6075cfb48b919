-- ===== src/Lib.antt =====
-- The Rust companion of not-another-ad-blocker, a local ad blocker: its filter compiler, its DNS
-- development core and its native messaging host.
--
-- The parts and their files:
--   Text models what the source uses of Rust's strings: a string is the list of its code points,
--     `bytes` is its UTF-8 encoding, and maps are lists of keys and values (Text/Ordered for the
--     ordered maps and sets).
--   Rules models companion/src/rules.rs: Rules/Syntax the limits and the tests on hostnames and
--     paths, Rules/Selector the scanner of CSS compounds, Rules/Parse `parse_rule`, Rules/Ids the
--     identifiers, Rules/Compile `compile`.
--   Dns/Blocklist models companion/src/dns/blocklist.rs: Hostname `normalize_hostname`, Lines the
--     tests on a line, Policy what a line adds, Compile `DnsPolicy::compile`, Decide
--     `DnsPolicy::decide`. It calls `parse_rule` of Rules.
--   Dns/Diagnostics models companion/src/dns/diagnostics.rs, the log of decisions.
--   Dns/Message holds the interface to the messages of the crate hickory_proto; Dns/Cache models
--     companion/src/dns/cache.rs, Dns/Server companion/src/dns/server.rs (its handler, Server/Handle,
--     calls the policy, the cache and the log), Dns/Resolver companion/src/dns/resolver.rs, and
--     Dns/Config companion/src/dns/config.rs, which loads the policy.
--   Subscriptions models companion/src/subscription_rules.rs: Syntax the tests on patterns and scopes,
--     Network `network`, Diagnostics `Diagnostics::add`, Pack `pack_network`, Lines and Filter what a
--     line adds in the loop of `compile_subscriptions`, and Compile its checks and its result. It
--     calls the selectors of Rules.
--   Native models companion/src/messaging.rs and `serve` of companion/src/lib.rs.
--   Protocol models companion/src/protocol.rs, which calls `compile` of Rules, and composes it with
--     `serve` (Protocol/Host).
--   Lists models of companion/src/lists.rs the checks on requests and downloads (Downloads), whose
--     texts go to Subscriptions, and the pages of a snapshot.
--
-- State is passed explicitly: the loops over lines carry a record of the source's variables. Errors
-- are values of `Result` and `Option`, with the source's messages. Recursion is structural, or on
-- fuel: the walk through parent domains takes as many steps as the name has characters, the probe
-- for an identifier one more than there are taken ones, the scanner of selectors one for each byte,
-- the chunks of hostnames one for each hostname, the pages one more than there are items and the
-- halving of a page one more than a page may hold, and the host one more than the input has bytes: no
-- loop takes more steps. Numbers are natural; the wrap-around of the 64-bit hash and the saturation of
-- the counters are written out.
--
-- Parameters, with nothing assumed of them: `to_ascii`, the crate idna's `domain_to_ascii_strict`;
-- the messages of hickory_proto; the exchange with an upstream; the readings of the clocks.
-- The text of a rule that serde_json gives is the parameter `show`, and that of a hiding rule's key
-- `show_hide`; where a theorem says so, different rules have different texts.
-- Of companion/src/protocol.rs, serde_json and the operations of companion/src/lists.rs are the
-- interface `Parts`; the theorem on the host assumes that serde_json writes every response, and the
-- short one for too large a response within the limit. `serve` takes the handler and the encoder as
-- its parameter `respond`. Of companion/src/dns/config.rs, files, paths and JSON are parameters,
-- and of companion/src/lists.rs the writer of a page and the digest of its bytes.
--
-- Not modelled: serialization, sockets, tasks, the file system and the HTTP client, with most of
-- the refresh of lists, which stands on them, and the browser extension, which is TypeScript. The files
-- of a snapshot are the contents of its pages. Requests to the server are handled one after the
-- other. A hash map is an association list, whose order none of the results depends on.
mod Prelude
pub mod Text
pub mod Rules
pub mod Dns
pub mod Subscriptions
pub mod Native
pub mod Protocol
pub mod Lists
