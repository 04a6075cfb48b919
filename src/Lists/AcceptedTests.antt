-- ===== src/Lists/AcceptedTests.antt =====
-- companion/src/lists.rs: a download that is accepted, and the theorem at it.
use not_another_ad_blocker.Prelude.{◌≡◌, refl, ◌++◌, List, [], ◌∷◌, String, ok, err}
use not_another_ad_blocker.Text.{Str, codes}
use not_another_ad_blocker.Text.{
  encode_char, bytes, len, strip_prefix, starts_with, strip_suffix, ends_with, split_once, contains,
  find_split, split, join, trim_start, trim_end, trim_matches, trim, lines, to_ascii_lowercase,
}
use not_another_ad_blocker.Text.Chars.{
  is_digit, is_alphabetic, is_alphanumeric, to_lower, is_whitespace, is_control,
}
use not_another_ad_blocker.Text.Ordered.{set_insert, set_contains, get, insert, remove}
use not_another_ad_blocker.Rules.Selector.{
  is_mark, is_tag_byte, is_ident_start, is_ident_byte, skip, skip_tag, after_hyphen, skip_ident,
  segments, valid_compound_bytes, valid_compound, valid_child, valid_selector, canonical_selector,
}
use not_another_ad_blocker.Rules.Syntax.{
  is_label_byte, first_passes, last_passes, valid_label, valid_hostname, is_path_byte,
  valid_literal_path,
}
use not_another_ad_blocker.Dns.Blocklist.Truncate.{
  is_char_boundary, floor_boundary, slice_to, truncate_utf8,
}
use not_another_ad_blocker.Subscriptions.Syntax.{
  host_valid, scope_items, scopes, is_pattern_byte, pattern_core, pattern_valid, anchored_host,
  named, resource,
}
use not_another_ad_blocker.Subscriptions.Network.{
  before, add_party, add_domains, add_resource, add_other, match_option, add_option, add_options,
  without, types_of, rules_of, network,
}
use not_another_ad_blocker.Subscriptions.Diagnostics.{increment, add}
use not_another_ad_blocker.Subscriptions.Pack.{
  whole_host, packed_host, chunks_from, chunks, add_host, pack_rule, pack_rules, unpack_chunks,
  unpack_groups, pack_network,
}
use not_another_ad_blocker.Subscriptions.Lines.{
  add_diagnostic, add_unsupported, set_extend, add_hide_exception, add_hide, drop_options,
  badfilter_target, domain_option, exempt_domains, add_exemption, add_page_exemption,
}
use not_another_ad_blocker.Subscriptions.Filter.{
  insert_rule, insert_rules, insert_badfilters, add_badfilter, add_guard, add_network,
  add_protected, add_exempting, add_filter, add_rule, add_trimmed, add_line, add_lines,
}
use not_another_ad_blocker.Subscriptions.Compile.{
  check_sources, remove_all, retain_exceptions, excluded_for, is_omitted, insert_new, sort_in,
  sort_rules, packed_rules, supported_rules, sorted_rules, add_sources, add_hides, give_out,
  within_budget, compile_subscriptions,
}
use not_another_ad_blocker.Lists.Downloads.{
  find_source, select, insert_by_id, sort_sources, validate_refresh, has_header, check_list_lines,
  validate_text, validate_list,
}
use not_another_ad_blocker.Subscriptions.Compile as Compile
use not_another_ad_blocker.Subscriptions.Encoding.{show_example, show_hide_example}
use not_another_ad_blocker.Lists.Downloads.{RefreshRequest, easylist, utf8}
use not_another_ad_blocker.Lists.Accepted.{AreAccepted, compile-accepted}

program : Unit {0}
unfolding encode_char bytes len strip_prefix starts_with strip_suffix ends_with split_once contains
    find_split split join trim_start trim_end trim_matches trim lines to_ascii_lowercase is_digit
    is_alphabetic is_alphanumeric to_lower is_whitespace is_control set_insert set_contains get
    insert remove is_mark is_tag_byte is_ident_start is_ident_byte skip skip_tag after_hyphen
    skip_ident segments valid_compound_bytes valid_compound valid_child valid_selector
    canonical_selector is_label_byte first_passes last_passes valid_label valid_hostname
    is_path_byte valid_literal_path is_char_boundary floor_boundary slice_to truncate_utf8
    host_valid scope_items scopes is_pattern_byte pattern_core pattern_valid anchored_host named
    resource before add_party add_domains add_resource add_other match_option add_option add_options
    without types_of rules_of network increment add whole_host packed_host chunks_from chunks
    add_host pack_rule pack_rules unpack_chunks unpack_groups pack_network add_diagnostic
    add_unsupported set_extend add_hide_exception add_hide drop_options badfilter_target
    domain_option exempt_domains add_exemption add_page_exemption insert_rule insert_rules
    insert_badfilters add_badfilter add_guard add_network add_protected add_exempting add_filter
    add_rule add_trimmed add_line add_lines check_sources remove_all retain_exceptions excluded_for
    is_omitted insert_new sort_in sort_rules packed_rules supported_rules sorted_rules add_sources
    add_hides give_out within_budget compile_subscriptions find_source select insert_by_id
    sort_sources validate_refresh has_header check_list_lines validate_text validate_list
program = tt

-- A list with an exception, for which a budget of 0 has no room.
abbrev request : RefreshRequest
request = record { ids = codes "easylist" ∷ []; network_budget = 0 }

abbrev downloaded : Str
downloaded = codes "[Adblock Plus 2.0]" ++ 10 ∷ codes "@@||good.test^"

abbrev texts : List Compile.Source
texts = record { id = codes "easylist"; text = downloaded } ∷ []

request_valid : validate_refresh request ≡ ok (easylist ∷ [])
unfolding program
request_valid = refl

texts_accepted : AreAccepted (easylist ∷ []) texts
unfolding program
texts_accepted = (refl, (utf8 downloaded, refl), tt)

abbrev refusal : String
refusal = "Supported exceptions exceed the browser rule budget; previous rules must be retained"

refused : compile_subscriptions show_example show_hide_example texts 0 ≡ err refusal
unfolding program
refused = refl

compile-accepted_example :
    refusal ≡ "Supported exceptions exceed the browser rule budget; previous rules must be retained"
compile-accepted_example =
    compile-accepted show_example show_hide_example request (easylist ∷ []) texts refusal
      request_valid texts_accepted refused
