-- ===== src/Dns/Blocklist/Policy.antt =====
-- companion/src/dns/blocklist.rs: the compiled policy, its report, and what one line adds to them.
use not_another_ad_blocker.Prelude.{
  ℕ, ◌+◌, Bool, true, false, ◌&&◌, ◌||◌, not, List, [], ◌∷◌, ◌++◌, Option, none, some, leb, ltb,
  ◌==◌, length, if◌then◌else◌,
}
use not_another_ad_blocker.Text.{Str, len, is_some, starts_with, codes, trim, trim_start}
use not_another_ad_blocker.Text.Ordered.{get}
use not_another_ad_blocker.Rules.Syntax.{max_line_bytes}
use not_another_ad_blocker.Dns.Blocklist.Lines.{
  has_badfilter, cosmetic_only_exception, page_level_exception, is_ignored, unconditional_rule,
  exception_suffix,
}
use not_another_ad_blocker.Dns.Blocklist.Truncate.{truncate_utf8}

abbrev pub max_sources : ℕ
max_sources = 2

abbrev pub max_source_bytes : ℕ
max_source_bytes = 8388608

abbrev pub max_source_lines : ℕ
max_source_lines = 300000

abbrev pub max_user_hosts : ℕ
max_user_hosts = 10000

abbrev pub max_diagnostics : ℕ
max_diagnostics = 200

abbrev pub max_suppression_reasons : ℕ
max_suppression_reasons = 20

abbrev pub max_source_name_bytes : ℕ
max_source_name_bytes = 128

abbrev pub max_diagnostic_rule_bytes : ℕ
max_diagnostic_rule_bytes = 256

pub record RuleSource : Type 0 where
  pub name : Str
  pub text : Str

pub record SourceReport : Type 0 where
  pub name : Str
  pub lines : ℕ
  pub blocks : ℕ
  pub candidate_block_rules : ℕ
  pub allows : ℕ
  pub list_allow_rules : ℕ
  pub conservative_allows : ℕ
  pub effective_block_rules : ℕ
  pub badfilters : ℕ
  pub ignored : ℕ
  pub unsupported : ℕ

abbrev pub empty_report : Str → SourceReport
empty_report name = record {
  name = name;
  lines = 0;
  blocks = 0;
  candidate_block_rules = 0;
  allows = 0;
  list_allow_rules = 0;
  conservative_allows = 0;
  effective_block_rules = 0;
  badfilters = 0;
  ignored = 0;
  unsupported = 0;
}

pub record CompileDiagnostic : Type 0 where
  pub source : Str
  pub line : ℕ
  pub rule : Str
  pub message : Str

pub record CoverageSummary : Type 0 where
  pub input_lines : ℕ
  pub candidate_block_lines : ℕ
  pub candidate_block_rules : ℕ
  pub effective_block_rules : ℕ
  pub list_allow_rules : ℕ
  pub conservative_allow_lines : ℕ
  pub ignored_lines : ℕ
  pub unsupported_lines : ℕ
  pub list_blocks_suppressed : Bool
  pub suppression_reasons_total : ℕ

pub record CompileReport : Type 0 where
  pub sources : List SourceReport
  pub user_allow_rules : ℕ
  pub user_block_rules : ℕ
  pub list_allow_rules : ℕ
  pub list_block_rules : ℕ
  pub effective_list_block_rules : ℕ
  pub list_blocks_suppressed : Bool
  pub suppression_reasons : List CompileDiagnostic
  pub suppression_reasons_total : ℕ
  pub diagnostics : List CompileDiagnostic
  pub diagnostics_total : ℕ
  pub diagnostics_omitted : ℕ
  pub coverage : CoverageSummary

pub record MatchedRule : Type 0 where
  pub source : Str
  pub rule : Str

abbrev pub HostRules : Type 0
HostRules = List (Str × MatchedRule)

-- `entry(host).or_insert(rule)`.
unfoldable pub or_insert : Str → MatchedRule → HostRules → HostRules
or_insert host rule rules = if is_some (get host rules) then rules else (host, rule) ∷ rules

pub record DnsPolicy : Type 0 where
  pub user_allow : HostRules
  pub user_block : HostRules
  pub list_allow : HostRules
  pub list_block : HostRules
  pub report : CompileReport

unfoldable pub suppress_list_blocks : Str → ℕ → Str → Str → DnsPolicy → DnsPolicy
suppress_list_blocks source line rule message p =
    let report = p.report in
    let reason : CompileDiagnostic = record {
      source = source;
      line = line;
      rule = truncate_utf8 rule max_diagnostic_rule_bytes;
      message = truncate_utf8 message max_diagnostic_rule_bytes;
    } in
    record p {
      report = record report {
        list_blocks_suppressed = true;
        suppression_reasons_total = report.suppression_reasons_total + 1;
        suppression_reasons =
            if ltb (length report.suppression_reasons) max_suppression_reasons
            then report.suppression_reasons ++ reason ∷ []
            else report.suppression_reasons;
      };
    }

unfoldable pub diagnostic : Str → ℕ → Str → Str → DnsPolicy → DnsPolicy
diagnostic source line rule message p =
    let report = p.report in
    let entry : CompileDiagnostic = record {
      source = source;
      line = line;
      rule = truncate_utf8 rule max_diagnostic_rule_bytes;
      message = message;
    } in
    record p {
      report = record report {
        diagnostics_total = report.diagnostics_total + 1;
        diagnostics =
            if ltb (length report.diagnostics) max_diagnostics
            then report.diagnostics ++ entry ∷ []
            else report.diagnostics;
      };
    }

-- The policy and the report on the current source, which the loop over its lines changes.
pub record Progress : Type 0 where
  pub policy : DnsPolicy
  pub source : SourceReport

-- A rule that DNS can apply.
unfoldable pub add_unconditional : Str → Str → Str × Bool → Progress → Progress
add_unconditional name raw (host, true) p =
    let policy = p.policy in
    let source = p.source in
    let rule : MatchedRule = record { source = name; rule = raw } in
    record {
      policy = record policy { list_allow = or_insert host rule policy.list_allow };
      source = record source { allows = source.allows + 1 };
    }
add_unconditional name raw (host, false) p =
    let policy = p.policy in
    let source = p.source in
    let rule : MatchedRule = record { source = name; rule = raw } in
    record {
      policy = record policy { list_block = or_insert host rule policy.list_block };
      source = record source { blocks = source.blocks + 1 };
    }

abbrev pub count_unsupported : SourceReport → SourceReport
count_unsupported source = record source { unsupported = source.unsupported + 1 }

-- An unsupported directive, or an exception that names no hostname, suppresses the list's blocks.
unfoldable pub add_suppression : Str → ℕ → Str → Str → Progress → Progress
add_suppression name line raw message p = record {
  policy = diagnostic name line raw message (suppress_list_blocks name line raw message p.policy);
  source = count_unsupported p.source;
}

-- An exception that DNS cannot apply protects the hostname that it names.
unfoldable pub add_conservative : Str → ℕ → Str → Str → Progress → Progress
add_conservative name line raw host p =
    let policy = p.policy in
    let source = p.source in
    let rule : MatchedRule = record {
      source = name;
      rule = truncate_utf8 raw max_diagnostic_rule_bytes;
    } in
    record {
      policy =
          diagnostic name line raw
            (codes "Unsupported exception or badfilter protects its entire hostname suffix")
            (record policy { list_allow = or_insert host rule policy.list_allow });
      source = record source {
        unsupported = source.unsupported + 1;
        conservative_allows = source.conservative_allows + 1;
      };
    }

-- A block that DNS cannot apply is left out.
unfoldable pub add_omitted : Str → ℕ → Str → Progress → Progress
add_omitted name line raw p = record {
  policy =
      diagnostic name line raw
        (codes "Only unconditional ||hostname^ rules can block DNS; this rule was omitted")
        p.policy;
  source = count_unsupported p.source;
}

-- White space, then byte-order marks, then white space again are taken off.
unfoldable pub clean : Str → Str
clean raw = trim (trim_start (λ c. c == 0xFEFF) (trim raw))

abbrev pub count_badfilter : Bool → Progress → Progress
count_badfilter badfilter p =
    let source = p.source in
    record p {
      source = record source {
        badfilters = if badfilter then source.badfilters + 1 else source.badfilters;
      };
    }

abbrev pub count_line : Progress → Progress
count_line p =
    let source = p.source in record p { source = record source { lines = source.lines + 1 } }

abbrev pub count_ignored : Progress → Progress
count_ignored p =
    let source = p.source in record p { source = record source { ignored = source.ignored + 1 } }

module _ (to_ascii : Str → Option Str) where
  -- A line that is no unconditional rule.
  unfoldable pub add_unsupported : Str → ℕ → Str → Progress → Progress
  add_unsupported name line raw p =
      if starts_with (codes "@@") raw || has_badfilter raw
      then if page_level_exception raw
        then add_suppression name line raw
            (codes
              "Page-wide network exceptions suppress all list blocks because DNS has no page context")
            p
        else elim (exception_suffix to_ascii raw) [
          | some host ↦ add_conservative name line raw host p
          | none ↦
              add_suppression name line raw
                (codes
                  "Unscopable exception or badfilter suppresses all list blocks; user rules still apply")
                p
        ]
      else add_omitted name line raw p

  -- `unconditional_rule`, where the line is no badfilter and not too long.
  unfoldable pub applicable_rule : Str → Option (Str × Bool)
  applicable_rule raw =
      if not (has_badfilter raw) && leb (len raw) max_line_bytes
      then unconditional_rule to_ascii raw
      else none

  -- A line that is neither a directive nor ignored.
  unfoldable pub add_rule : Str → ℕ → Str → Progress → Progress
  add_rule name line raw p = elim (applicable_rule raw) [
    | some rule ↦ add_unconditional name raw rule (count_badfilter (has_badfilter raw) p)
    | none ↦ add_unsupported name line raw (count_badfilter (has_badfilter raw) p)
  ]

  -- One round of the loop, on the line with its white space and byte-order marks taken off.
  unfoldable pub add_clean_line : Str → ℕ → Str → Progress → Progress
  add_clean_line name line raw p =
      if starts_with (codes "!#") raw
      then add_suppression name line raw
          (codes
            "Unsupported preprocessing directive suppresses all list blocks; user rules still apply")
          p
      else if is_ignored raw || cosmetic_only_exception raw
      then count_ignored p
      else add_rule name line raw p

  unfoldable pub add_line : Str → ℕ → Str → Progress → Progress
  add_line name index original p = add_clean_line name (index + 1) (clean original) (count_line p)

  unfoldable pub add_lines : Str → ℕ → List Str → Progress → Progress
  add_lines name index [] p = p
  add_lines name index (line ∷ rest) p =
      add_lines name (index + 1) rest (add_line name index line p)
