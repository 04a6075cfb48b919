-- ===== src/Dns/Blocklist/Counts.antt =====
-- companion/src/dns/blocklist.rs, `DnsPolicy::compile`: the reports on the sources.
use not_another_ad_blocker.Prelude.{
  ℕ, ◌+◌, ◌≡◌, refl, ◌∙◌, ap, subst, append_assoc, append-nil, Bool, true, false, List, [], ◌∷◌,
  ◌++◌, Option, arith, inl, inr, Bool-cases, Option-cases, ok, length, ◌||◌,
}
use not_another_ad_blocker.Text.{Str, codes, lines, starts_with, str_eq}
use not_another_ad_blocker.Dns.Blocklist.Lines.{is_ignored, cosmetic_only_exception, has_badfilter}
use not_another_ad_blocker.Dns.Blocklist.Policy.{
  RuleSource, SourceReport, HostRules, DnsPolicy, Progress, empty_report, suppress_list_blocks,
  diagnostic, add_unconditional, add_suppression, add_conservative, add_omitted, add_unsupported,
  applicable_rule, add_rule, add_clean_line, add_line, add_lines, clean, count_line,
  count_badfilter,
}
use not_another_ad_blocker.Dns.Blocklist.Compile.{
  start, update_source, count_rules, count_candidate, count_allow, counted_sources, add_source,
  add_sources, finish, compile,
}
use not_another_ad_blocker.Dns.Blocklist.Parts.{compile-Parts}

abbrev balance : SourceReport → ℕ
balance r = r.ignored + (r.blocks + (r.allows + r.unsupported))

-- The report counts each line of the source once.
pub record IsReport (source : RuleSource) (r : SourceReport) : Type 0 where
  pub name : r.name ≡ source.name
  pub all_lines : r.lines ≡ length (lines source.text)
  pub balanced : r.lines ≡ r.ignored + (r.blocks + (r.allows + r.unsupported))

-- A report for each source, in their order.
abbrev pub AreReports : List RuleSource → List SourceReport → Type 0
AreReports [] [] = Unit
AreReports [] (r ∷ rs) = ⊥
AreReports (s ∷ ss) [] = ⊥
AreReports (s ∷ ss) (r ∷ rs) = IsReport s r × AreReports ss rs

-- The counts after a number of lines, but for `extra` lines not counted yet; the reports before
-- are left alone.
record IsCounting (p q : Progress) (extra : ℕ) : Type 0 where
  name : q.source.name ≡ p.source.name
  counted : q.source.lines ≡ p.source.lines
  balanced : balance q.source ≡ balance p.source + extra
  kept : q.policy.report.sources ≡ p.policy.report.sources

module _ (to_ascii : Str → Option Str) where
  add_unsupported-IsCounting :
      (name : Str) (line : ℕ) (raw : Str) (p : Progress)
      → IsCounting p (add_unsupported to_ascii name line raw p) 1
  unfolding add_unsupported add_suppression add_conservative add_omitted diagnostic
      suppress_list_blocks
  add_unsupported-IsCounting name line raw p = record {
    name = ground arith;
    counted = ground arith;
    balanced = ground arith;
    kept = ground arith;
  }

  add_unconditional-IsCounting :
      (name raw : Str) (r : Str × Bool) (p : Progress)
      → IsCounting p (add_unconditional name raw r p) 1
  unfolding add_unconditional
  add_unconditional-IsCounting name raw (host, true) p = record {
    name = refl;
    counted = refl;
    balanced = omega arith;
    kept = refl;
  }
  add_unconditional-IsCounting name raw (host, false) p = record {
    name = refl;
    counted = refl;
    balanced = omega arith;
    kept = refl;
  }

  add_rule-IsCounting :
      (name : Str) (line : ℕ) (raw : Str) (p : Progress)
      → IsCounting p (add_rule to_ascii name line raw p) 1
  unfolding add_rule
  add_rule-IsCounting name line raw p = elim (Option-cases (applicable_rule to_ascii raw)) [
    | inl e ↦
        let c = add_unsupported-IsCounting name line raw (count_badfilter (has_badfilter raw) p) in
        rw (e, add_rule)
          (record { name = c.name; counted = c.counted; balanced = c.balanced; kept = c.kept })
    | inr (r, e) ↦
        let c = add_unconditional-IsCounting name raw r (count_badfilter (has_badfilter raw) p) in
        rw (e, add_rule)
          (record { name = c.name; counted = c.counted; balanced = c.balanced; kept = c.kept })
  ]

  add_clean_line-IsCounting :
      (name : Str) (line : ℕ) (raw : Str) (p : Progress)
      → IsCounting p (add_clean_line to_ascii name line raw p) 1
  unfolding add_clean_line add_suppression diagnostic suppress_list_blocks
  add_clean_line-IsCounting name line raw p = elim (Bool-cases (starts_with (codes "!#") raw)) [
    | inl e ↦ rw e (record { name = refl; counted = refl; balanced = omega arith; kept = refl })
    | inr e ↦ elim (Bool-cases (is_ignored raw || cosmetic_only_exception raw)) [
      | inl e' ↦
          rw (e, e') (record { name = refl; counted = refl; balanced = omega arith; kept = refl })
      | inr e' ↦ rw (e, e') (add_rule-IsCounting name line raw p)
    ]
  ]

  add_lines-IsCounting :
      (name : Str) (i : ℕ) (ls : List Str) (p : Progress)
      → ((add_lines to_ascii name i ls p).source.name ≡ p.source.name)
        × ((add_lines to_ascii name i ls p).source.lines ≡ p.source.lines + length ls)
        × (balance (add_lines to_ascii name i ls p).source ≡ balance p.source + length ls)
        × ((add_lines to_ascii name i ls p).policy.report.sources ≡ p.policy.report.sources)
  unfolding add_lines add_line
  add_lines-IsCounting name i [] p = (refl, omega arith, omega arith, refl)
  add_lines-IsCounting name i (line ∷ rest) p =
      let c = add_clean_line-IsCounting name (i + 1) (clean line) (count_line p) in
      let (named, counted, balanced, kept) =
        add_lines-IsCounting name (i + 1) rest (add_line to_ascii name i line p) in
      let here : balance (add_line to_ascii name i line p).source ≡ balance p.source + 1 =
        c.balanced in
      (
        named ∙ c.name,
        counted ∙ ap (λ n. n + length rest) c.counted ∙ omega arith,
        balanced ∙ ap (λ n. n + length rest) here ∙ omega arith,
        kept ∙ c.kept,
      )

  AreReports-append :
      (ss : List RuleSource) (rs : List SourceReport) (s : RuleSource) (r : SourceReport)
      → AreReports ss rs
      → IsReport s r
      → AreReports (ss ++ s ∷ []) (rs ++ r ∷ [])
  AreReports-append [] [] s r a h = (h, tt)
  AreReports-append [] (r' ∷ rs) s r a h = elim a [ ]
  AreReports-append (s' ∷ ss) [] s r a h = elim a [ ]
  AreReports-append (s' ∷ ss) (r' ∷ rs) s r (h', a) h = (h', AreReports-append ss rs s r a h)

  add_source-AreReports :
      (before : List RuleSource) (source : RuleSource) (p : DnsPolicy)
      → AreReports before p.report.sources
      → AreReports (before ++ source ∷ []) (add_source to_ascii source p).report.sources
  unfolding add_source
  add_source-AreReports before source p a =
      let first : Progress = record { policy = p; source = empty_report source.name } in
      let (named, counted, balanced, kept) =
        add_lines-IsCounting source.name 0 (lines source.text) first in
      let done = add_lines to_ascii source.name 0 (lines source.text) first in
      rw kept (
        AreReports-append before p.report.sources source done.source a (record {
          name = named;
          all_lines = counted ∙ omega arith;
          balanced = omega (arith, counted, balanced);
        }))

  add_sources-AreReports :
      (before sources : List RuleSource) (p : DnsPolicy)
      → AreReports before p.report.sources
      → AreReports (before ++ sources) (add_sources to_ascii sources p).report.sources
  unfolding add_sources
  add_sources-AreReports before [] p a = rw (append-nil before) a
  add_sources-AreReports before (source ∷ rest) p a =
      subst
        (λ ss.
          AreReports ss (add_sources to_ascii rest (add_source to_ascii source p)).report.sources)
        (append_assoc before (source ∷ []) rest)
        (add_sources-AreReports (before ++ source ∷ []) rest (add_source to_ascii source p)
          (add_source-AreReports before source p a))

-- A change that leaves the counts of lines alone.
abbrev Leaves : (SourceReport → SourceReport) → Type 0
Leaves change = (s : RuleSource) (r : SourceReport) → IsReport s r → IsReport s (change r)

update_source-AreReports :
    (change : SourceReport → SourceReport) (name : Str) (ss : List RuleSource)
    (rs : List SourceReport)
    → Leaves change
    → AreReports ss rs
    → AreReports ss (update_source change name rs)
unfolding update_source
update_source-AreReports change name [] [] leaves a = tt
update_source-AreReports change name [] (r ∷ rs) leaves a = elim a [ ]
update_source-AreReports change name (s ∷ ss) [] leaves a = elim a [ ]
update_source-AreReports change name (s ∷ ss) (r ∷ rs) leaves (h, a) =
    elim (Bool-cases (str_eq r.name name)) [
      | inl e ↦ rw e (leaves s r h, a)
      | inr e ↦ rw e (h, update_source-AreReports change name ss rs leaves a)
    ]

count_rules-AreReports :
    (change : SourceReport → SourceReport) (rules : HostRules) (ss : List RuleSource)
    (rs : List SourceReport)
    → Leaves change
    → AreReports ss rs
    → AreReports ss (count_rules change rules rs)
unfolding count_rules
count_rules-AreReports change [] ss rs leaves a = a
count_rules-AreReports change ((host, matched) ∷ rules) ss rs leaves a =
    count_rules-AreReports change rules ss (update_source change matched.source rs) leaves
      (update_source-AreReports change matched.source ss rs leaves a)

count_candidate-Leaves : (suppressed : Bool) → Leaves (count_candidate suppressed)
count_candidate-Leaves suppressed s r h = record {
  name = h.name;
  all_lines = h.all_lines;
  balanced = h.balanced;
}

count_allow-Leaves : Leaves count_allow
count_allow-Leaves s r h = record { name = h.name; all_lines = h.all_lines; balanced = h.balanced }

module _ (to_ascii : Str → Option Str) where
  -- A compiled policy reports on each source, in order and under its name, and counts each of its
  -- lines exactly once: as ignored, as a block, as an exception, or as unsupported.
  pub compile-AreReports :
      (sources : List RuleSource) (user_allow user_block : List Str) (p : DnsPolicy)
      → compile to_ascii sources user_allow user_block ≡ ok p
      → AreReports sources p.report.sources
  unfolding finish counted_sources
  compile-AreReports sources user_allow user_block p h =
      let parts = compile-Parts to_ascii sources user_allow user_block p h in
      let built = add_sources to_ascii sources (start parts.allow parts.block) in
      rw parts.whole (
        count_rules-AreReports count_allow built.list_allow sources
          (count_rules (count_candidate built.report.list_blocks_suppressed) built.list_block
            built.report.sources)
          count_allow-Leaves
          (count_rules-AreReports (count_candidate built.report.list_blocks_suppressed)
            built.list_block sources built.report.sources
            (count_candidate-Leaves built.report.list_blocks_suppressed)
            (add_sources-AreReports to_ascii [] sources (start parts.allow parts.block) tt)))
