-- ===== src/Dns/Blocklist/Provenance.antt =====
-- companion/src/dns/blocklist.rs: where a policy's list blocks come from.
use not_another_ad_blocker.Prelude.{
  ℕ, ◌+◌, ◌≡◌, ◌≢◌, refl, subst, Bool, true, false, List, [], ◌∷◌, Option, none, some, arith, ◌⊎◌,
  inl, inr, Option-cases, Result-cases, Bool-cases, ok, ok_inj, All, Any, ◌||◌,
}
use not_another_ad_blocker.Text.{Str, codes, lines, starts_with, str_eq, is_some}
use not_another_ad_blocker.Text.Laws.{eq_of_str_eq}
use not_another_ad_blocker.Text.Ordered.{get}
use not_another_ad_blocker.Dns.Blocklist.Hostname.{normalize_hostname}
use not_another_ad_blocker.Dns.Blocklist.Lines.{
  is_ignored, cosmetic_only_exception, unconditional_rule, has_badfilter,
}
use not_another_ad_blocker.Dns.Blocklist.Policy.{
  RuleSource, MatchedRule, HostRules, or_insert, DnsPolicy, Progress, empty_report,
  suppress_list_blocks, diagnostic, add_unconditional, add_suppression, add_conservative,
  add_omitted, add_unsupported, applicable_rule, add_rule, add_clean_line, add_line, add_lines,
  clean, count_line, count_badfilter,
}
use not_another_ad_blocker.Dns.Blocklist.Compile.{
  start, compile_user_hosts_from, compile_user_hosts, add_source, add_sources, finish, compile,
}
use not_another_ad_blocker.Dns.Blocklist.Decide.{decide}
use not_another_ad_blocker.Dns.Blocklist.Parts.{compile-Parts, add_sources-SameUser}
use not_another_ad_blocker.Dns.Blocklist.Suffixes.{IsDomainOf}
use not_another_ad_blocker.Dns.Blocklist.Decisions.{decide-Blocks_iff}
use not_another_ad_blocker.Dns.Blocklist.Unconditional.{IsUnconditional, unconditional_rule_iff}

or_insert-All :
    (Q : Str → Type 0) (host : Str) (rule : MatchedRule) (rules : HostRules)
    → Q host
    → All (λ e. Q e.0) rules
    → All (λ e. Q e.0) (or_insert host rule rules)
unfolding or_insert
or_insert-All Q host rule rules q h = elim (Bool-cases (is_some (get host rules))) [
  | inl e ↦ rw e h
  | inr e ↦ rw e (q, h)
]

get-All :
    (Q : Str → Type 0) (host : Str) (rules : HostRules)
    → get host rules ≢ none
    → All (λ e. Q e.0) rules
    → Q host
unfolding get
get-All Q host [] h a = absurd (ground arith)
get-All Q host ((j, r) ∷ rules) h (here, later) = elim (Bool-cases (str_eq j host)) [
  | inl e ↦ subst Q (eq_of_str_eq j host e) here
  | inr e ↦ get-All Q host rules (ground arith) later
]

module _ (to_ascii : Str → Option Str) where
  -- A line that is no unconditional rule changes no block.
  list_block-add_unsupported :
      (name : Str) (line : ℕ) (raw : Str) (p : Progress)
      → (add_unsupported to_ascii name line raw p).policy.list_block ≡ p.policy.list_block
  unfolding add_unsupported add_suppression add_conservative add_omitted diagnostic
      suppress_list_blocks
  list_block-add_unsupported name line raw p = ground arith

  module _ (Q : Str → Type 0) where
    abbrev Keeps : DnsPolicy → Type 0
    Keeps p = All (λ e. Q e.0) p.list_block

    add_unconditional-Keeps :
        (name raw : Str) (r : Str × Bool) (p : Progress)
        → (r.1 ≡ false → Q r.0)
        → Keeps p.policy
        → Keeps (add_unconditional name raw r p).policy
    unfolding add_unconditional
    add_unconditional-Keeps name raw (host, true) p q h = h
    add_unconditional-Keeps name raw (host, false) p q h =
        or_insert-All Q host _ p.policy.list_block (q refl) h

    applicable_rule-unconditional :
        (raw : Str) {r : Str × Bool}
        → applicable_rule to_ascii raw ≡ some r
        → unconditional_rule to_ascii raw ≡ some r
    unfolding applicable_rule
    applicable_rule-unconditional raw h = ground arith

    add_rule-Keeps :
        (name : Str) (line : ℕ) (raw : Str) (p : Progress)
        → ((host : Str) → IsUnconditional to_ascii raw host false → Q host)
        → Keeps p.policy
        → Keeps (add_rule to_ascii name line raw p).policy
    unfolding add_rule
    add_rule-Keeps name line raw p stated h = elim (Option-cases (applicable_rule to_ascii raw)) [
      | inl e ↦
          rw (e, add_rule)
            (rw (list_block-add_unsupported name line raw (count_badfilter (has_badfilter raw) p))
              h)
      | inr ((host, exception), e) ↦
          rw (e, add_rule)
            (add_unconditional-Keeps name raw (host, exception)
              (count_badfilter (has_badfilter raw) p)
              (λ is_block. stated host (
                (unconditional_rule_iff to_ascii raw host false).0
                  (rw (← is_block) (applicable_rule-unconditional raw e))))
              h)
    ]

    add_line-Keeps :
        (name : Str) (i : ℕ) (line : Str) (p : Progress)
        → ((host : Str) → IsUnconditional to_ascii (clean line) host false → Q host)
        → Keeps p.policy
        → Keeps (add_line to_ascii name i line p).policy
    unfolding add_line add_clean_line add_suppression diagnostic suppress_list_blocks
    add_line-Keeps name i line p stated h =
        elim (Bool-cases (starts_with (codes "!#") (clean line))) [
          | inl e ↦ rw e h
          | inr e ↦
              elim (Bool-cases (is_ignored (clean line) || cosmetic_only_exception (clean line))) [
                | inl e' ↦ rw (e, e') h
                | inr e' ↦
                    rw (e, e') (add_rule-Keeps name (i + 1) (clean line) (count_line p) stated h)
              ]
        ]

    add_lines-Keeps :
        (name : Str) (i : ℕ) (ls : List Str) (p : Progress)
        → ((host : Str)
            → Any (λ line. IsUnconditional to_ascii (clean line) host false) ls
            → Q host)
        → Keeps p.policy
        → Keeps (add_lines to_ascii name i ls p).policy
    unfolding add_lines
    add_lines-Keeps name i [] p stated h = h
    add_lines-Keeps name i (line ∷ rest) p stated h =
        add_lines-Keeps name (i + 1) rest (add_line to_ascii name i line p)
          (λ host a. stated host (inr a))
          (add_line-Keeps name i line p (λ host a. stated host (inl a)) h)

  -- A source has a line that is nothing but the block of the hostname.
  abbrev pub HasBlock : Str → RuleSource → Type 0
  HasBlock host source =
      Any (λ line. IsUnconditional to_ascii (clean line) host false) (lines source.text)

  add_sources-Keeps :
      (Q : Str → Type 0) (sources : List RuleSource) (p : DnsPolicy)
      → ((host : Str) → Any (HasBlock host) sources → Q host)
      → Keeps Q p
      → Keeps Q (add_sources to_ascii sources p)
  unfolding add_sources add_source
  add_sources-Keeps Q [] p stated h = h
  add_sources-Keeps Q (source ∷ rest) p stated h =
      add_sources-Keeps Q rest (add_source to_ascii source p) (λ host a. stated host (inr a))
        (add_lines-Keeps Q source.name 0 (lines source.text)
          (record { policy = p; source = empty_report source.name }) (λ host a. stated host (inl a))
          h)

  compile_user_hosts_from-All :
      (Q : Str → Type 0) (source : Str) (rules : HostRules) (hosts : List Str) {final : HostRules}
      → ((host : Str) → Any (λ name. normalize_hostname to_ascii name ≡ ok host) hosts → Q host)
      → All (λ e. Q e.0) rules
      → compile_user_hosts_from to_ascii source rules hosts ≡ ok final
      → All (λ e. Q e.0) final
  unfolding compile_user_hosts_from
  compile_user_hosts_from-All Q source rules [] stated h done =
      subst (All (λ e. Q e.0)) (ok_inj done) h
  compile_user_hosts_from-All Q source rules (name ∷ rest) stated h done =
      elim (Result-cases (normalize_hostname to_ascii name)) [
        | inr (m, e) ↦ absurd (ground arith)
        | inl (host, e) ↦
            compile_user_hosts_from-All Q source
              (or_insert host (record { source = source; rule = host }) rules) rest
              (λ host a. stated host (inr a)) (or_insert-All Q host _ rules (stated host (inl e)) h)
              (ground arith)
      ]

  -- A hostname of the user normalizes to the name.
  abbrev pub Named : List Str → Str → Type 0
  Named hosts host = Any (λ name. normalize_hostname to_ascii name ≡ ok host) hosts

  compile_user_hosts-Named :
      (hosts : List Str) (source : Str) (rules : HostRules)
      → compile_user_hosts to_ascii hosts source ≡ ok rules
      → All (λ e. Named hosts e.0) rules
  unfolding compile_user_hosts
  compile_user_hosts-Named hosts source rules h =
      compile_user_hosts_from-All (Named hosts) source [] hosts (λ host a. a) tt (ground arith)

  -- What a compiled policy blocks, the user or a list names: some hostname of the user's
  -- blocklist, or the "||name^" of some line of a source that is nothing else, normalizes to the
  -- name itself or to a domain above it. No other syntax of a list is ever broadened to a block.
  pub compile-blocks_sound :
      (sources : List RuleSource) (user_allow user_block : List Str) (p : DnsPolicy)
      (hostname : Str)
      → compile to_ascii sources user_allow user_block ≡ ok p
      → (decide to_ascii p hostname).blocked ≡ true
      → (host : Str) × (domain : Str) × (normalize_hostname to_ascii hostname ≡ ok host)
        × IsDomainOf host domain
        × (Named user_block domain ⊎ Any (HasBlock domain) sources)
  unfolding finish
  compile-blocks_sound sources user_allow user_block p hostname h blocked =
      let parts = compile-Parts to_ascii sources user_allow user_block p h in
      let (host, normal, (_, why)) = (decide-Blocks_iff to_ascii p hostname).0 blocked in
      let same = add_sources-SameUser to_ascii sources (start parts.allow parts.block) in
      elim why [
        | inl (domain, is_domain, listed) ↦ (
          host,
          domain,
          normal,
          is_domain,
          inl (
              get-All (Named user_block) domain p.user_block listed (
                rw (parts.whole, same.block)
                  (compile_user_hosts-Named user_block (codes "user block") parts.block
                    parts.blocked))),
        )
        | inr (_, _, (domain, is_domain, listed)) ↦ (
          host,
          domain,
          normal,
          is_domain,
          inr (
              get-All (λ d. Any (HasBlock d) sources) domain p.list_block listed
                (rw parts.whole (
                  add_sources-Keeps (λ d. Any (HasBlock d) sources) sources
                    (start parts.allow parts.block) (λ host a. a) tt))),
        )
      ]
