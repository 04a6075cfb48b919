-- ===== src/Subscriptions/Tests.antt =====
-- companion/src/subscription_rules.rs: runs on small lists, and the theorems at concrete inputs.
use not_another_ad_blocker.Prelude.{
  ◌≡◌, ◌≤◌, refl, true, false, List, [], ◌∷◌, ◌++◌, none, String, length, Result, ok, err, Any, All,
  inl, inr, ◌⊎◌,
}
use not_another_ad_blocker.Text.{Str}
use not_another_ad_blocker.Text.{
  encode_char, bytes, len, strip_prefix, starts_with, strip_suffix, ends_with, split_once, contains,
  find_split, split, join, trim_start, trim_end, trim_matches, trim, lines, to_ascii_lowercase,
}
use not_another_ad_blocker.Text.Chars.{
  is_digit, is_alphabetic, is_alphanumeric, to_lower, is_whitespace, is_control,
}
use not_another_ad_blocker.Text.Ordered.{set_insert, set_contains, get, insert, remove}
use not_another_ad_blocker.Rules.Selector.{
  is_mark, is_tag_byte, is_ident_start, is_ident_byte, skip, skip_tag, after_hyphen, skip_ident,
  segments, valid_compound_bytes, valid_compound, valid_child, valid_selector, canonical_selector,
}
use not_another_ad_blocker.Rules.Syntax.{
  is_label_byte, first_passes, last_passes, valid_label, valid_hostname, is_path_byte,
  valid_literal_path,
}
use not_another_ad_blocker.Dns.Blocklist.Truncate.{
  is_char_boundary, floor_boundary, slice_to, truncate_utf8,
}
use not_another_ad_blocker.Subscriptions.Syntax.{
  host_valid, scope_items, scopes, is_pattern_byte, pattern_core, pattern_valid, anchored_host,
  named, resource,
}
use not_another_ad_blocker.Subscriptions.Network.{
  before, add_party, add_domains, add_resource, add_other, match_option, add_option, add_options,
  without, types_of, rules_of, network,
}
use not_another_ad_blocker.Subscriptions.Diagnostics.{increment, add}
use not_another_ad_blocker.Subscriptions.Pack.{
  whole_host, packed_host, chunks_from, chunks, add_host, pack_rule, pack_rules, unpack_chunks,
  unpack_groups, pack_network,
}
use not_another_ad_blocker.Subscriptions.Lines.{
  add_diagnostic, add_unsupported, set_extend, add_hide_exception, add_hide, drop_options,
  badfilter_target, domain_option, exempt_domains, add_exemption, add_page_exemption,
}
use not_another_ad_blocker.Subscriptions.Compile.{
  check_sources, remove_all, retain_exceptions, excluded_for, is_omitted, insert_new, sort_in,
  sort_rules, packed_rules, supported_rules, sorted_rules, add_sources, add_hides, give_out,
  within_budget, compile_subscriptions,
}
use not_another_ad_blocker.Subscriptions.Filter.{
  insert_rule, insert_rules, insert_badfilters, add_badfilter, add_guard, add_network,
  add_protected, add_exempting, add_filter, add_rule, add_trimmed, add_line, add_lines,
}
use not_another_ad_blocker.Text.{codes}
use not_another_ad_blocker.Subscriptions.Network.{BrowserRule, split_options, without_mark}
use not_another_ad_blocker.Subscriptions.Lines.{allow_guard}
use not_another_ad_blocker.Subscriptions.Compile.{Source, Subscriptions, is_block}
use not_another_ad_blocker.Subscriptions.Encoding.{
  show_example, show_hide_example, show_example-IsInjective,
}
use not_another_ad_blocker.Subscriptions.Packing.{Serves}
use not_another_ad_blocker.Subscriptions.Packed.{pack_network-Serves}
use not_another_ad_blocker.Subscriptions.Justified.{
  Collected, IsHostRule, IsForHosts, pack_network-justified,
}
use not_another_ad_blocker.Subscriptions.Sorting.{AreNumbered}
use not_another_ad_blocker.Subscriptions.Budget.{
  after_sources, compile-AreNumbered, compile-exceptions,
}
use not_another_ad_blocker.Subscriptions.Translation.{IsRuleFor, is_empty_rules, network-AreRules}
use not_another_ad_blocker.Subscriptions.Samples.{AreBrief, compile-AreBrief}
use not_another_ad_blocker.Subscriptions.Sources.{HasLine, AreAccounts, compile-AreAccounts}
use not_another_ad_blocker.Subscriptions.Unhidden.{IsUnhiding, compile-unhides}

program : Unit {0}
unfolding encode_char bytes len strip_prefix starts_with strip_suffix ends_with split_once contains
    find_split split join trim_start trim_end trim_matches trim lines to_ascii_lowercase is_digit
    is_alphabetic is_alphanumeric to_lower is_whitespace is_control set_insert set_contains get
    insert remove is_mark is_tag_byte is_ident_start is_ident_byte skip skip_tag after_hyphen
    skip_ident segments valid_compound_bytes valid_compound valid_child valid_selector
    canonical_selector is_label_byte first_passes last_passes valid_label valid_hostname
    is_path_byte valid_literal_path is_char_boundary floor_boundary slice_to truncate_utf8
    host_valid scope_items scopes is_pattern_byte pattern_core pattern_valid anchored_host named
    resource before add_party add_domains add_resource add_other match_option add_option add_options
    without types_of rules_of network increment add whole_host packed_host chunks_from chunks
    add_host pack_rule pack_rules unpack_chunks unpack_groups pack_network add_diagnostic
    add_unsupported set_extend add_hide_exception add_hide drop_options badfilter_target
    domain_option exempt_domains add_exemption add_page_exemption check_sources remove_all
    retain_exceptions excluded_for is_omitted insert_new sort_in sort_rules packed_rules
    supported_rules sorted_rules add_sources add_hides give_out within_budget compile_subscriptions
    insert_rule insert_rules insert_badfilters add_badfilter add_guard add_network add_protected
    add_exempting add_filter add_rule add_trimmed add_line add_lines
program = tt

-- Two blocks, an exception, and hiding rules one of which is taken back.
abbrev list_text : Str
list_text =
    codes "||ads.test^"
    ++ 10 ∷ codes "||Track.test^"
    ++ 10 ∷ codes "@@||good.test/x*$image"
    ++ 10 ∷ codes "##.ad"
    ++ 10 ∷ codes "##.bar"
    ++ 10 ∷ codes "#@#.bar"
    ++ 10 ∷ codes "/regex/"

abbrev sources : List Source
sources = record { id = codes "easylist"; text = list_text } ∷ []

abbrev result_of : Result String Subscriptions → Subscriptions
result_of (ok out) = out
result_of (err message) = record {
  network = 0;
  cosmetic = 0;
  unsupported = 0;
  ignored = 0;
  coverage = record {
    network_supported = 0;
    network_dropped = 0;
    cosmetic_supported = 0;
    cosmetic_dropped = 0;
    exception_safety_suppressed = 0;
    diagnostics_total = 0;
    diagnostics_truncated = false;
  };
  network_rules = [];
  cosmetic_rules = [];
  diagnostics = [];
  list_stats = [];
  unsupported_reasons = [];
}

abbrev out : Subscriptions
out = result_of (compile_subscriptions show_example show_hide_example sources 100)

compiled : compile_subscriptions show_example show_hide_example sources 100 ≡ ok out
unfolding program
compiled = refl

counts_example :
    out.network ∷ out.cosmetic ∷ out.unsupported ∷ out.ignored ∷ [] ≡ 2 ∷ 1 ∷ 1 ∷ 1 ∷ []
unfolding program
counts_example = refl

compile-AreNumbered_example :
    (length out.network_rules ≤ 100)
    × (100 ≤ 29800)
    × AreNumbered 1 out.network_rules
    × (length out.cosmetic_rules ≤ 10000)
    × (out.network ≡ length out.network_rules)
    × (out.cosmetic ≡ length out.cosmetic_rules)
compile-AreNumbered_example =
    compile-AreNumbered show_example show_hide_example sources 100 out compiled

abbrev Allows : BrowserRule → Type 0
Allows r = r.action ≡ codes "allow"

compile-exceptions_example :
    (Any
        (λ r. Allows r × (is_block r ≡ false))
        (packed_rules show_example (after_sources show_example sources))
      → Any (λ e. Allows e.rule) out.network_rules)
    × (Any (λ e. Allows e.rule) out.network_rules
        → Any Allows (packed_rules show_example (after_sources show_example sources)))
compile-exceptions_example =
    compile-exceptions show_example show_hide_example Allows sources 100 out compiled

abbrev exception : Str
exception = codes "@@||good.test/x*$image"

abbrev unhiding : Str
unhiding = codes "#@#.bar"

unhiding-IsUnhiding : IsUnhiding unhiding (codes ".bar")
unfolding program
unhiding-IsUnhiding = record {
  written = refl;
  scope = [];
  parts = refl;
  valid = refl;
  everywhere = refl;
}

has_unhiding : Any (HasLine unhiding) sources
unfolding program
has_unhiding = inl (inr (inr (inr (inr (inr (inl refl))))))

compile-unhides_example :
    All (λ rule. rule.selector ≡ canonical_selector (codes ".bar") → ⊥) out.cosmetic_rules
compile-unhides_example =
    compile-unhides show_example show_hide_example show_example-IsInjective sources 100 out unhiding
      (codes ".bar") compiled has_unhiding unhiding-IsUnhiding

-- A hiding rule, and an exemption from hiding.
abbrev exempting : List Source
exempting =
    record { id = codes "easylist"; text = codes "##.ad" ++ 10 ∷ codes "@@||good.test^$elemhide" }
    ∷ []

abbrev exempted : Subscriptions
exempted = result_of (compile_subscriptions show_example show_hide_example exempting 100)

hiding_given : exempted.cosmetic ≡ 1
unfolding program
hiding_given = refl

abbrev exemption : Str
exemption = codes "@@||good.test^$elemhide"

compile-AreAccounts_example : AreAccounts sources out.list_stats
compile-AreAccounts_example =
    compile-AreAccounts show_example show_hide_example show_example-IsInjective sources 100 out
      compiled

compile-AreBrief_example :
    AreBrief out.diagnostics out.unsupported_reasons out.coverage.diagnostics_total
compile-AreBrief_example =
    compile-AreBrief show_example show_hide_example show_example-IsInjective sources 100 out
      compiled

-- An exception whose pattern is a regular expression.
abbrev unrepresentable : List Source
unrepresentable =
    record { id = codes "easyprivacy"; text = codes "||ads.test^" ++ 10 ∷ codes "@@/ads/" } ∷ []

abbrev nothing : Subscriptions
nothing = result_of (compile_subscriptions show_example show_hide_example unrepresentable 100)

nothing_blocked : nothing.network ≡ 0
unfolding program
nothing_blocked = refl

abbrev rules_in : Result String (List BrowserRule) → List BrowserRule
rules_in (ok rules) = rules
rules_in (err message) = []

abbrev filter : Str
filter = codes "||ads.test^$image,domain=news.test"

abbrev filter_rules : List BrowserRule
filter_rules = rules_in (network filter)

filter_translated : network filter ≡ ok filter_rules
unfolding program
filter_translated = refl

network-AreRules_example :
    (pattern_valid (split_options (without_mark filter)).0 ≡ true)
    × (is_empty_rules filter_rules ≡ false)
    × All
        (IsRuleFor (starts_with (codes "@@") filter) (split_options (without_mark filter)).0)
        filter_rules
network-AreRules_example = network-AreRules filter filter_rules filter_translated

-- The rules of the list, by their texts.
abbrev collected : List (Str × BrowserRule)
collected = (after_sources show_example sources).network_rules

abbrev block_of : Str → BrowserRule
block_of host = elim (rules_in (network (codes "||" ++ (host ++ codes "^")))) [
  | [] ↦ allow_guard host
  | r ∷ rules ↦ r
]

collected_block : Any (λ e. e.1 ≡ block_of (codes "ads.test")) collected
unfolding program
collected_block = inr (inl refl)

pack_network-Serves_example :
    Any (Serves (block_of (codes "ads.test"))) (pack_network show_example collected)
pack_network-Serves_example =
    pack_network-Serves show_example show_example-IsInjective collected
      (block_of (codes "ads.test")) collected_block

pack_network-justified_example :
    All
      (λ o. ((packed_host o ≡ none) × Collected collected o) ⊎ IsForHosts (IsHostRule collected) o)
      (pack_network show_example collected)
pack_network-justified_example =
    pack_network-justified show_example show_example-IsInjective collected

-- A badfilter for another exception with the same pattern takes the guard back.
abbrev guarded : List Source
guarded =
    record { id = codes "easylist"; text = codes "||ads.test^" ++ 10 ∷ codes "@@||ads.test^$popup" }
    ∷ []

abbrev unguarded : List Source
unguarded =
    record {
      id = codes "easylist";
      text =
          codes "||ads.test^"
          ++ 10 ∷ codes "@@||ads.test^$popup"
          ++ 10 ∷ codes "@@||ads.test^$badfilter";
    }
    ∷ []

guard_kept :
    (result_of (compile_subscriptions show_example show_hide_example guarded 100)).network ≡ 2
unfolding program
guard_kept = refl

guard_lost :
    (result_of (compile_subscriptions show_example show_hide_example unguarded 100)).network ≡ 1
unfolding program
guard_lost = refl
