-- ===== src/Dns/Blocklist/Decisions.antt =====
-- companion/src/dns/blocklist.rs, `decide`: the order in which the four maps decide.
use not_another_ad_blocker.Prelude.{
  ◌≡◌, ◌≢◌, true, false, Option, none, arith, ◌⊎◌, inl, inr, ◌↔◌, Option-cases, Result-cases, ok,
}
use not_another_ad_blocker.Text.{Str}
use not_another_ad_blocker.Dns.Blocklist.Hostname.{normalize_hostname}
use not_another_ad_blocker.Dns.Blocklist.Policy.{HostRules, DnsPolicy}
use not_another_ad_blocker.Dns.Blocklist.Decide.{suffix_match, decide_host, decide}
use not_another_ad_blocker.Dns.Blocklist.Suffixes.{Lists, suffix_match_lem}

-- When a policy is to block a name: the user's hostnames come before the lists, exceptions come
-- before blocks, and the lists' blocks may be suppressed.
abbrev pub Blocks : DnsPolicy → Str → Type 0
Blocks p host =
    (¬ Lists p.user_allow host)
    × (Lists p.user_block host
        ⊎ ((¬ Lists p.list_allow host)
            × (p.report.list_blocks_suppressed ≡ false)
            × Lists p.list_block host))

listed : (rules : HostRules) (host : Str) → Lists rules host → suffix_match rules host ≢ none
listed rules host = (suffix_match_lem rules host).0.1

found : (rules : HostRules) (host : Str) → suffix_match rules host ≢ none → Lists rules host
found rules host = (suffix_match_lem rules host).0.0

absent : (rules : HostRules) (host : Str) → (¬ Lists rules host) → suffix_match rules host ≡ none
absent rules host h = elim (Option-cases (suffix_match rules host)) [
  | inl e ↦ e
  | inr (rule, e) ↦ absurd (h (found rules host (ground arith)))
]

decide_host-Blocks :
    (p : DnsPolicy) (host : Str) → (decide_host p host).blocked ≡ true → Blocks p host
unfolding decide_host
decide_host-Blocks p host h = elim (Option-cases (suffix_match p.user_allow host)) [
  | inr (rule, e) ↦ absurd (ground arith)
  | inl e ↦ (
    λ l. listed p.user_allow host l e,
    elim (Option-cases (suffix_match p.user_block host)) [
      | inr (rule, e') ↦ inl (found p.user_block host (ground arith))
      | inl e' ↦ elim (Option-cases (suffix_match p.list_allow host)) [
        | inr (rule, e'') ↦ absurd (ground arith)
        | inl e'' ↦ inr (
          λ l. listed p.list_allow host l e'',
          ground arith,
          found p.list_block host (ground arith),
        )
      ]
    ],
  )
]

decide_host_of_Blocks :
    (p : DnsPolicy) (host : Str) → Blocks p host → (decide_host p host).blocked ≡ true
unfolding decide_host
decide_host_of_Blocks p host (allowed, inl blocked) =
    let unlisted : suffix_match p.user_allow host ≡ none = absent p.user_allow host allowed in
    let hit = listed p.user_block host blocked in ground arith
decide_host_of_Blocks p host (allowed, inr (excepted, active, blocked)) =
    let unlisted : suffix_match p.user_allow host ≡ none = absent p.user_allow host allowed in
    let unexcepted : suffix_match p.list_allow host ≡ none = absent p.list_allow host excepted in
    let hit = listed p.list_block host blocked in ground arith

module _ (to_ascii : Str → Option Str) where
  -- A name is blocked exactly if it is a hostname and the policy is to block its normal form: no
  -- hostname of the user allows it, and either one of the user's blocks it, or a list blocks it,
  -- no list allows it and the lists' blocks are not suppressed. A name that is no hostname is
  -- never blocked.
  pub decide-Blocks_iff :
      (p : DnsPolicy) (hostname : Str)
      → ((decide to_ascii p hostname).blocked ≡ true)
        ↔ ((host : Str) × (normalize_hostname to_ascii hostname ≡ ok host) × Blocks p host)
  unfolding decide
  decide-Blocks_iff p hostname = (to, from)
    where
      to :
          (decide to_ascii p hostname).blocked ≡ true
          → (host : Str) × (normalize_hostname to_ascii hostname ≡ ok host) × Blocks p host
      to h = elim (Result-cases (normalize_hostname to_ascii hostname)) [
        | inl (host, e) ↦ (host, e, decide_host-Blocks p host (ground arith))
        | inr (message, e) ↦ absurd (ground arith)
      ]

      from :
          (host : Str) × (normalize_hostname to_ascii hostname ≡ ok host) × Blocks p host
          → (decide to_ascii p hostname).blocked ≡ true
      from (host, e, b) = ground (arith, decide_host_of_Blocks p host b)
