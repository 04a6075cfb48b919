-- ===== src/Dns/Tests.antt =====
-- companion/src/dns/blocklist.rs and diagnostics.rs: runs on a small list, and the theorems at
-- concrete inputs.
use not_another_ad_blocker.Prelude.{
  ℕ, ◌≡◌, ◌≢◌, ◌≤◌, min, refl, Bool, true, false, List, [], ◌∷◌, map, Option, none, some, length,
  Result, ok, err, Any, ◌↔◌, ◌⊎◌, arith,
}
use not_another_ad_blocker.Text.{Str, codes}
use not_another_ad_blocker.Text.{
  encode_char, bytes, len, strip_prefix, starts_with, strip_suffix, ends_with, split_once, contains,
  find_split, split, join, trim_start, trim_end, trim_matches, trim, lines, to_ascii_lowercase,
}
use not_another_ad_blocker.Text.Chars.{
  is_digit, is_alphabetic, is_alphanumeric, to_lower, is_whitespace, is_control,
}
use not_another_ad_blocker.Text.Ordered.{set_insert, set_contains, get, insert}
use not_another_ad_blocker.Rules.Selector.{
  is_mark, is_tag_byte, is_ident_start, is_ident_byte, skip, skip_tag, after_hyphen, skip_ident,
  segments, valid_compound_bytes, valid_compound, valid_child, valid_selector, canonical_selector,
}
use not_another_ad_blocker.Rules.Hostname.{is_host_char}
use not_another_ad_blocker.Rules.Parse.{
  cosmetic_domains, parse_cosmetic, split_exception, split_modifiers, split_boundary, parse_network,
  parse_rule,
}
use not_another_ad_blocker.Rules.Syntax.{
  is_label_byte, first_passes, last_passes, valid_label, valid_hostname, is_path_byte,
  valid_literal_path,
}
use not_another_ad_blocker.Dns.Blocklist.Policy.{
  or_insert, suppress_list_blocks, diagnostic, add_unconditional, add_suppression, add_conservative,
  add_omitted, clean, add_unsupported, applicable_rule, add_rule, add_clean_line, add_line,
  add_lines,
}
use not_another_ad_blocker.Dns.Blocklist.Hostname.{
  strip_root_dot, decimal, is_octet, is_ip_addr, check_host, normalize_hostname,
}
use not_another_ad_blocker.Dns.Blocklist.Lines.{
  eq_ignore_ascii_case, has_badfilter, cosmetic_only_exception, page_level_exception, is_ignored,
  unconditional_rule, exception_suffix,
}
use not_another_ad_blocker.Dns.Blocklist.Decide.{
  parent_domain, suffix_match_from, suffix_match, decide_host, decide,
}
use not_another_ad_blocker.Dns.Blocklist.Truncate.{
  is_char_boundary, floor_boundary, slice_to, truncate_utf8,
}
use not_another_ad_blocker.Dns.Blocklist.Compile.{
  check_sources, update_source, count_rules, counted_sources, coverage_of, finish,
  compile_user_hosts_from, compile_user_hosts, add_source, add_sources, compile,
}
use not_another_ad_blocker.Dns.Diagnostics.{
  saturating_suc, printable, bounded, new, outcome_name, count_outcome, entry_of, push_recent,
  record_activity, snapshot, clear, record_all,
}
use not_another_ad_blocker.Dns.Diagnostics.Recent.{last}
use not_another_ad_blocker.Dns.Blocklist.Policy.{RuleSource, MatchedRule, DnsPolicy}
use not_another_ad_blocker.Dns.Blocklist.Compile.{start}
use not_another_ad_blocker.Dns.Blocklist.Suffixes.{IsDomainOf, Lists, suffix_match_lem}
use not_another_ad_blocker.Dns.Blocklist.Decisions.{Blocks, decide-Blocks_iff}
use not_another_ad_blocker.Dns.Blocklist.Unconditional.{IsUnconditional, unconditional_rule_iff}
use not_another_ad_blocker.Dns.Blocklist.Provenance.{Named, HasBlock, compile-blocks_sound}
use not_another_ad_blocker.Dns.Diagnostics.{Activity, Diagnostics, entry_of, u64_max}
use not_another_ad_blocker.Dns.Blocklist.Counts.{AreReports, compile-AreReports}
use not_another_ad_blocker.Dns.Diagnostics.Recent.{record_all-recent}
use not_another_ad_blocker.Dns.Blocklist.Decide.{undecided}

unfoldable pub program : Unit {0}
unfolding encode_char bytes len strip_prefix starts_with strip_suffix ends_with split_once contains
    find_split split join trim_start trim_end trim_matches trim lines to_ascii_lowercase is_digit
    is_alphabetic is_alphanumeric to_lower is_whitespace is_control set_insert set_contains get
    insert is_mark is_tag_byte is_ident_start is_ident_byte skip skip_tag after_hyphen skip_ident
    segments valid_compound_bytes valid_compound valid_child valid_selector canonical_selector
    is_host_char cosmetic_domains parse_cosmetic split_exception split_modifiers split_boundary
    parse_network parse_rule is_label_byte first_passes last_passes valid_label valid_hostname
    is_path_byte valid_literal_path or_insert suppress_list_blocks diagnostic add_unconditional
    add_suppression add_conservative add_omitted clean add_unsupported applicable_rule add_rule
    add_clean_line add_line add_lines strip_root_dot decimal is_octet is_ip_addr check_host
    normalize_hostname eq_ignore_ascii_case has_badfilter cosmetic_only_exception
    page_level_exception is_ignored unconditional_rule exception_suffix parent_domain
    suffix_match_from suffix_match decide_host decide is_char_boundary floor_boundary slice_to
    truncate_utf8 check_sources update_source count_rules counted_sources coverage_of finish
    compile_user_hosts_from compile_user_hosts add_source add_sources compile saturating_suc
    printable bounded new outcome_name count_outcome entry_of push_recent record_activity snapshot
    clear record_all last
program = tt

-- A conversion that keeps each name.
abbrev pub as_given : Str → Option Str
as_given s = some s

abbrev list_sources : List RuleSource
list_sources =
    record {
      name = codes "list";
      text = codes "||ads.example.com^\n||track.example.net^$third-party\n@@||ok.ads.example.com^";
    }
    ∷ []

abbrev user_blocks : List Str
user_blocks = codes "bad.example.org" ∷ []

abbrev value_or : {E A : Type 0} → Result E A → A → A
value_or (ok x) y = x
value_or (err e) y = y

abbrev is_ok : {E A : Type 0} → Result E A → Bool
is_ok (ok x) = true
is_ok (err e) = false

ok_value_or : {E A : Type 0} (r : Result E A) (y : A) → is_ok r ≡ true → r ≡ ok (value_or r y)
ok_value_or (ok x) y h = refl
ok_value_or (err e) y h = absurd (ground arith)

abbrev policy : DnsPolicy
policy = value_or (compile as_given list_sources [] user_blocks) (start [] [])

abbrev name : Str
name = codes "x.ads.example.com"

sources-accepted : is_ok (compile as_given list_sources [] user_blocks) ≡ true
unfolding program
sources-accepted = refl

policy-compiled : compile as_given list_sources [] user_blocks ≡ ok policy
policy-compiled =
    ok_value_or (compile as_given list_sources [] user_blocks) (start [] []) sources-accepted

name-blocked : (decide as_given policy name).blocked ≡ true
unfolding program
name-blocked = refl

excepted_run : (decide as_given policy (codes "ok.ads.example.com")).blocked ≡ false
unfolding program
excepted_run = refl

conditional_run : (decide as_given policy (codes "track.example.net")).blocked ≡ false
unfolding program
conditional_run = refl

compile-blocks_sound_example :
    (host : Str) × (domain : Str) × (normalize_hostname as_given name ≡ ok host)
    × IsDomainOf host domain
    × (Named as_given user_blocks domain ⊎ Any (HasBlock as_given domain) list_sources)
compile-blocks_sound_example =
    compile-blocks_sound as_given list_sources [] user_blocks policy name policy-compiled
      name-blocked

decide-Blocks_iff_example :
    ((decide as_given policy name).blocked ≡ true)
    ↔ ((host : Str) × (normalize_hostname as_given name ≡ ok host) × Blocks policy host)
decide-Blocks_iff_example = decide-Blocks_iff as_given policy name

suffix_match_lem_example :
    ((suffix_match policy.list_block name ≢ none) ↔ Lists policy.list_block name)
    × ((rule : MatchedRule)
        → suffix_match policy.list_block name ≡ some rule
        → (domain : Str) × IsDomainOf name domain × (get domain policy.list_block ≡ some rule))
suffix_match_lem_example = suffix_match_lem policy.list_block name

unconditional_rule_iff_example :
    (unconditional_rule as_given (codes "@@||ok.example.com^")
      ≡ some (codes "ok.example.com", true))
    ↔ IsUnconditional as_given (codes "@@||ok.example.com^") (codes "ok.example.com") true
unconditional_rule_iff_example =
    unconditional_rule_iff as_given (codes "@@||ok.example.com^") (codes "ok.example.com") true

abbrev activity : ℕ → Activity
activity now = record {
  now_ms = now;
  hostname = name;
  query_type = codes "A";
  outcome = codes "blocked";
  decision = undecided;
}

abbrev three : List Activity
three = activity 1 ∷ activity 2 ∷ activity 3 ∷ []

abbrev log : Diagnostics
log = record_all three (new 2)

record_all-recent_example :
    ((snapshot log).recent ≡ last (min 2 1000) (map entry_of three))
    × (length (snapshot log).recent ≤ min 2 1000)
    × ((snapshot log).total ≡ min (length three) u64_max)
    × ((snapshot (clear log)).recent ≡ [])
    × ((snapshot (clear log)).total ≡ (snapshot log).total)
    × ((snapshot (clear log)).outcomes ≡ (snapshot log).outcomes)
record_all-recent_example = record_all-recent 2 three

compile-AreReports_example : AreReports list_sources policy.report.sources
compile-AreReports_example =
    compile-AreReports as_given list_sources [] user_blocks policy policy-compiled
