-- ===== src/Dns/Blocklist/Compile.antt =====
-- companion/src/dns/blocklist.rs, `DnsPolicy::compile`: the checks on the sources, the loop over
-- them, and the totals of the report.
use not_another_ad_blocker.Prelude.{
  ℕ, ◌+◌, ◌-◌, Bool, false, ◌||◌, List, [], ◌∷◌, ◌++◌, Option, ltb, any, take, length,
  if◌then◌else◌, Result, ok, err, ◌>>=◌,
}
use not_another_ad_blocker.Text.{Str, codes, len, is_empty, lines, trim, str_eq}
use not_another_ad_blocker.Text.Chars.{is_control}
use not_another_ad_blocker.Text.Ordered.{set_contains, set_insert}
use not_another_ad_blocker.Dns.Blocklist.Hostname.{normalize_hostname}
use not_another_ad_blocker.Dns.Blocklist.Policy.{
  max_sources, max_source_bytes, max_source_lines, max_user_hosts, max_source_name_bytes,
  RuleSource, SourceReport, empty_report, CoverageSummary, CompileReport, HostRules, or_insert,
  DnsPolicy, Progress, add_lines,
}

-- The checks on each source, with the names before it.
unfoldable pub check_sources : List Str → List RuleSource → Result Str (Unit {0})
check_sources names [] = ok tt
check_sources names (source ∷ rest) =
    let later = check_sources (set_insert source.name names) rest in
    if set_contains source.name names
    then err (codes "Filter source names must be unique: " ++ source.name)
    else if is_empty (trim source.name)
        || ltb max_source_name_bytes (len source.name)
        || any is_control source.name
    then err (codes "Source names must contain 1–128 bytes without control characters")
    else if ltb max_source_bytes (len source.text)
    then err (codes "Source " ++ (source.name ++ codes " exceeds the 8388608-byte limit"))
    else if ltb max_source_lines (length (take (max_source_lines + 1) (lines source.text)))
    then err (codes "Source " ++ (source.name ++ codes " exceeds the 300000-line limit"))
    else later

abbrev pub empty_coverage : CoverageSummary
empty_coverage = record {
  input_lines = 0;
  candidate_block_lines = 0;
  candidate_block_rules = 0;
  effective_block_rules = 0;
  list_allow_rules = 0;
  conservative_allow_lines = 0;
  ignored_lines = 0;
  unsupported_lines = 0;
  list_blocks_suppressed = false;
  suppression_reasons_total = 0;
}

abbrev pub empty_compile_report : CompileReport
empty_compile_report = record {
  sources = [];
  user_allow_rules = 0;
  user_block_rules = 0;
  list_allow_rules = 0;
  list_block_rules = 0;
  effective_list_block_rules = 0;
  list_blocks_suppressed = false;
  suppression_reasons = [];
  suppression_reasons_total = 0;
  diagnostics = [];
  diagnostics_total = 0;
  diagnostics_omitted = 0;
  coverage = empty_coverage;
}

abbrev pub start : HostRules → HostRules → DnsPolicy
start user_allow user_block = record {
  user_allow = user_allow;
  user_block = user_block;
  list_allow = [];
  list_block = [];
  report = empty_compile_report;
}

-- The report on a finished source joins the policy's.
abbrev pub push_report : Progress → DnsPolicy
push_report p =
    let policy = p.policy in
    let report = policy.report in
    record policy { report = record report { sources = report.sources ++ p.source ∷ [] } }

-- The first report with the name is changed.
unfoldable pub update_source :
    (SourceReport → SourceReport) → Str → List SourceReport → List SourceReport
update_source change name [] = []
update_source change name (source ∷ rest) =
    let later = update_source change name rest in
    if str_eq source.name name then change source ∷ rest else source ∷ later

-- Each rule of a map is counted for the source that it came from.
unfoldable pub count_rules :
    (SourceReport → SourceReport) → HostRules → List SourceReport → List SourceReport
count_rules change [] sources = sources
count_rules change ((host, matched) ∷ rules) sources =
    count_rules change rules (update_source change matched.source sources)

abbrev pub count_candidate : Bool → SourceReport → SourceReport
count_candidate suppressed source = record source {
  candidate_block_rules = source.candidate_block_rules + 1;
  effective_block_rules =
      if suppressed then source.effective_block_rules else source.effective_block_rules + 1;
}

abbrev pub count_allow : SourceReport → SourceReport
count_allow source = record source { list_allow_rules = source.list_allow_rules + 1 }

abbrev pub sum_of : (SourceReport → ℕ) → List SourceReport → ℕ
sum_of f [] = 0
sum_of f (source ∷ rest) = f source + sum_of f rest

-- The reports on the sources, with the rules in the maps counted for each.
unfoldable pub counted_sources : DnsPolicy → List SourceReport
counted_sources p =
    count_rules count_allow p.list_allow
      (count_rules (count_candidate p.report.list_blocks_suppressed) p.list_block p.report.sources)

abbrev pub effective_blocks : DnsPolicy → ℕ
effective_blocks p = if p.report.list_blocks_suppressed then 0 else length p.list_block

unfoldable pub coverage_of : DnsPolicy → CoverageSummary
coverage_of p = record {
  input_lines = sum_of (λ source. source.lines) (counted_sources p);
  candidate_block_lines = sum_of (λ source. source.blocks) (counted_sources p);
  candidate_block_rules = length p.list_block;
  effective_block_rules = effective_blocks p;
  list_allow_rules = length p.list_allow;
  conservative_allow_lines = sum_of (λ source. source.conservative_allows) (counted_sources p);
  ignored_lines = sum_of (λ source. source.ignored) (counted_sources p);
  unsupported_lines = sum_of (λ source. source.unsupported) (counted_sources p);
  list_blocks_suppressed = p.report.list_blocks_suppressed;
  suppression_reasons_total = p.report.suppression_reasons_total;
}

unfoldable pub finish : DnsPolicy → DnsPolicy
finish p =
    let report = p.report in
    record p {
      report = record report {
        sources = counted_sources p;
        user_allow_rules = length p.user_allow;
        user_block_rules = length p.user_block;
        list_allow_rules = length p.list_allow;
        list_block_rules = length p.list_block;
        effective_list_block_rules = effective_blocks p;
        diagnostics_omitted = report.diagnostics_total - length report.diagnostics;
        coverage = coverage_of p;
      };
    }

module _ (to_ascii : Str → Option Str) where
  unfoldable pub compile_user_hosts_from : Str → HostRules → List Str → Result Str HostRules
  compile_user_hosts_from source rules [] = ok rules
  compile_user_hosts_from source rules (hostname ∷ rest) = do
    host ← normalize_hostname to_ascii hostname
    compile_user_hosts_from source (or_insert host (record { source = source; rule = host }) rules)
        rest

  unfoldable pub compile_user_hosts : List Str → Str → Result Str HostRules
  compile_user_hosts hosts source =
      if ltb max_user_hosts (length hosts)
      then err (source ++ codes " accepts at most 10000 hostnames")
      else compile_user_hosts_from source [] hosts

  -- The loop over the sources.
  unfoldable pub add_source : RuleSource → DnsPolicy → DnsPolicy
  add_source source policy = push_report (
      add_lines to_ascii source.name 0 (lines source.text)
        (record { policy = policy; source = empty_report source.name }))

  unfoldable pub add_sources : List RuleSource → DnsPolicy → DnsPolicy
  add_sources [] policy = policy
  add_sources (source ∷ rest) policy = add_sources rest (add_source source policy)

  unfoldable pub compile : List RuleSource → List Str → List Str → Result Str DnsPolicy
  compile sources user_allow user_block =
      if ltb max_sources (length sources)
      then err (codes "At most 2 DNS filter sources are supported")
      else do
        _ ← check_sources [] sources
        allow ← compile_user_hosts user_allow (codes "user allow")
        block ← compile_user_hosts user_block (codes "user block")
        ok (finish (add_sources sources (start allow block)))
