-- ===== src/Dns/Blocklist/Decide.antt =====
-- companion/src/dns/blocklist.rs, `DnsPolicy::decide`: the decision on a hostname.
use mathlib.Core.Option
use not_another_ad_blocker.Prelude.{
  ℕ, zero, suc, Bool, true, false, Option, none, some, length, if◌then◌else◌, ok, err,
}
use not_another_ad_blocker.Text.{Str, codes, split_once}
use not_another_ad_blocker.Text.Ordered.{get}
use not_another_ad_blocker.Dns.Blocklist.Hostname.{normalize_hostname}
use not_another_ad_blocker.Dns.Blocklist.Policy.{MatchedRule, HostRules, DnsPolicy}

pub record Decision : Type 0 where
  pub blocked : Bool
  pub source : Option Str
  pub rule : Option Str

abbrev pub undecided : Decision
undecided = record { blocked = false; source = none; rule = none }

-- `decision`.
abbrev pub decided : Bool → MatchedRule → Decision
decided blocked matched = record {
  blocked = blocked;
  source = some matched.source;
  rule = some matched.rule;
}

-- `suffix.split_once('.')?.1`.
unfoldable pub parent_domain : Str → Option Str
parent_domain suffix = Option.map (λ r. r.1) (split_once (codes ".") suffix)

-- The loop from the hostname through its parent domains. Each is shorter, so that the number of
-- characters is enough fuel.
unfoldable pub suffix_match_from : ℕ → HostRules → Str → Option MatchedRule
suffix_match_from zero rules suffix = get suffix rules
suffix_match_from (suc fuel) rules suffix = elim (get suffix rules) [
  | some rule ↦ some rule
  | none ↦ elim (parent_domain suffix) [
    | none ↦ none
    | some parent ↦ suffix_match_from fuel rules parent
  ]
]

unfoldable pub suffix_match : HostRules → Str → Option MatchedRule
suffix_match rules hostname = suffix_match_from (length hostname) rules hostname

-- The decision on a normalized hostname.
unfoldable pub decide_host : DnsPolicy → Str → Decision
decide_host p host = elim (suffix_match p.user_allow host) [
  | some rule ↦ decided false rule
  | none ↦ elim (suffix_match p.user_block host) [
    | some rule ↦ decided true rule
    | none ↦ elim (suffix_match p.list_allow host) [
      | some rule ↦ decided false rule
      | none ↦
          if p.report.list_blocks_suppressed
          then undecided
          else elim (suffix_match p.list_block host) [
            | some rule ↦ decided true rule
            | none ↦ undecided
          ]
    ]
  ]
]

module _ (to_ascii : Str → Option Str) where
  unfoldable pub decide : DnsPolicy → Str → Decision
  decide p hostname = elim (normalize_hostname to_ascii hostname) [
    | err message ↦ undecided
    | ok host ↦ decide_host p host
  ]
