-- ===== src/Dns/Blocklist/Parts.antt =====
-- companion/src/dns/blocklist.rs, `DnsPolicy::compile`: what a compiled policy was made of.
use not_another_ad_blocker.Prelude.{
  ℕ, ◌+◌, ◌≡◌, refl, Bool, true, false, List, [], ◌∷◌, Option, arith, inl, inr, Result-cases,
  Bool-cases, ok, ltb, length, ◌∙◌, ◌||◌, Option-cases,
}
use not_another_ad_blocker.Text.{Str, codes, lines, starts_with}
use not_another_ad_blocker.Dns.Blocklist.Lines.{is_ignored, cosmetic_only_exception, has_badfilter}
use not_another_ad_blocker.Dns.Blocklist.Policy.{
  max_sources, RuleSource, HostRules, DnsPolicy, Progress, empty_report, suppress_list_blocks,
  diagnostic, add_unconditional, add_suppression, add_conservative, add_omitted, add_unsupported,
  applicable_rule, add_rule, add_clean_line, add_line, add_lines, clean, count_line,
  count_badfilter,
}
use not_another_ad_blocker.Dns.Blocklist.Compile.{
  start, check_sources, compile_user_hosts, add_source, add_sources, finish, compile,
}

-- The user's maps of two policies are the same.
pub record SameUser (p q : DnsPolicy) : Type 0 where
  pub allow : p.user_allow ≡ q.user_allow
  pub block : p.user_block ≡ q.user_block

module _ (to_ascii : Str → Option Str) where
  pub record Parts (sources : List RuleSource) (user_allow user_block : List Str) (p : DnsPolicy)
      : Type 0 where
    pub allow : HostRules
    pub block : HostRules
    pub allowed : compile_user_hosts to_ascii user_allow (codes "user allow") ≡ ok allow
    pub blocked : compile_user_hosts to_ascii user_block (codes "user block") ≡ ok block
    pub whole : p ≡ finish (add_sources to_ascii sources (start allow block))

  pub compile-Parts :
      (sources : List RuleSource) (user_allow user_block : List Str) (p : DnsPolicy)
      → compile to_ascii sources user_allow user_block ≡ ok p
      → Parts sources user_allow user_block p
  unfolding compile
  compile-Parts sources user_allow user_block p h =
      elim (Bool-cases (ltb max_sources (length sources))) [
        | inl e ↦ absurd (ground arith)
        | inr e ↦ elim (Result-cases (check_sources [] sources)) [
          | inr (m, e') ↦ absurd (ground arith)
          | inl (u, e') ↦
              elim (Result-cases (compile_user_hosts to_ascii user_allow (codes "user allow"))) [
                | inr (m, ea) ↦ absurd (ground arith)
                | inl (allow, ea) ↦
                    elim (Result-cases
                      (compile_user_hosts to_ascii user_block (codes "user block"))) [
                        | inr (m, eb) ↦ absurd (ground arith)
                        | inl (block, eb) ↦ record {
                          allow = allow;
                          block = block;
                          allowed = ea;
                          blocked = eb;
                          whole = ground arith;
                        }
                      ]
              ]
        ]
      ]

  add_unsupported-SameUser :
      (name : Str) (line : ℕ) (raw : Str) (p : Progress)
      → SameUser (add_unsupported to_ascii name line raw p).policy p.policy
  unfolding add_unsupported add_suppression add_conservative add_omitted diagnostic
      suppress_list_blocks
  add_unsupported-SameUser name line raw p = record { allow = ground arith; block = ground arith }

  add_unconditional-SameUser :
      (name raw : Str) (r : Str × Bool) (p : Progress)
      → SameUser (add_unconditional name raw r p).policy p.policy
  unfolding add_unconditional
  add_unconditional-SameUser name raw (host, true) p = record { allow = refl; block = refl }
  add_unconditional-SameUser name raw (host, false) p = record { allow = refl; block = refl }

  add_rule-SameUser :
      (name : Str) (line : ℕ) (raw : Str) (p : Progress)
      → SameUser (add_rule to_ascii name line raw p).policy p.policy
  unfolding add_rule
  add_rule-SameUser name line raw p = elim (Option-cases (applicable_rule to_ascii raw)) [
    | inl e ↦
        rw (e, add_rule)
          (add_unsupported-SameUser name line raw (count_badfilter (has_badfilter raw) p))
    | inr (r, e) ↦
        rw (e, add_rule)
          (add_unconditional-SameUser name raw r (count_badfilter (has_badfilter raw) p))
  ]

  add_line-SameUser :
      (name : Str) (i : ℕ) (line : Str) (p : Progress)
      → SameUser (add_line to_ascii name i line p).policy p.policy
  unfolding add_line add_clean_line add_suppression diagnostic suppress_list_blocks
  add_line-SameUser name i line p = elim (Bool-cases (starts_with (codes "!#") (clean line))) [
    | inl e ↦ rw e (record { allow = refl; block = refl })
    | inr e ↦ elim (Bool-cases (is_ignored (clean line) || cosmetic_only_exception (clean line))) [
      | inl e' ↦ rw (e, e') (record { allow = refl; block = refl })
      | inr e' ↦ rw (e, e') (add_rule-SameUser name (i + 1) (clean line) (count_line p))
    ]
  ]

  add_lines-SameUser :
      (name : Str) (i : ℕ) (ls : List Str) (p : Progress)
      → SameUser (add_lines to_ascii name i ls p).policy p.policy
  unfolding add_lines
  add_lines-SameUser name i [] p = record { allow = refl; block = refl }
  add_lines-SameUser name i (line ∷ rest) p =
      let later = add_lines-SameUser name (i + 1) rest (add_line to_ascii name i line p) in
      let here = add_line-SameUser name i line p in
      record { allow = later.allow ∙ here.allow; block = later.block ∙ here.block }

  -- Compiling the lists leaves the user's maps alone.
  pub add_sources-SameUser :
      (sources : List RuleSource) (p : DnsPolicy) → SameUser (add_sources to_ascii sources p) p
  unfolding add_sources add_source
  add_sources-SameUser [] p = record { allow = refl; block = refl }
  add_sources-SameUser (source ∷ rest) p =
      let later = add_sources-SameUser rest (add_source to_ascii source p) in
      let here =
        add_lines-SameUser source.name 0 (lines source.text)
          (record { policy = p; source = empty_report source.name }) in
      record { allow = later.allow ∙ here.allow; block = later.block ∙ here.block }
