-- ===== src/Dns/ConfigTests.antt =====
-- companion/src/dns/config.rs: a configuration, and the theorems at it.
use not_another_ad_blocker.Prelude.{
  ℕ, ◌≡◌, ◌↔◌, refl, true, List, [], ◌∷◌, Option, some, Result, ok, err, All,
}
use not_another_ad_blocker.Text.{Str, codes}
use not_another_ad_blocker.Text.{
  encode_char, bytes, len, strip_prefix, starts_with, strip_suffix, ends_with, split_once, contains,
  find_split, split, join, trim_start, trim_end, trim_matches, trim, lines, to_ascii_lowercase,
}
use not_another_ad_blocker.Text.Chars.{
  is_digit, is_alphabetic, is_alphanumeric, to_lower, is_whitespace, is_control,
}
use not_another_ad_blocker.Text.Ordered.{set_insert, set_contains, get, insert, remove}
use not_another_ad_blocker.Rules.Selector.{
  is_mark, is_tag_byte, is_ident_start, is_ident_byte, skip, skip_tag, after_hyphen, skip_ident,
  segments, valid_compound_bytes, valid_compound, valid_child, valid_selector, canonical_selector,
}
use not_another_ad_blocker.Rules.Hostname.{is_host_char}
use not_another_ad_blocker.Rules.Parse.{
  cosmetic_domains, parse_cosmetic, split_exception, split_modifiers, split_boundary, parse_network,
  parse_rule,
}
use not_another_ad_blocker.Rules.Syntax.{
  is_label_byte, first_passes, last_passes, valid_label, valid_hostname, is_path_byte,
  valid_literal_path,
}
use not_another_ad_blocker.Dns.Blocklist.Policy.{
  or_insert, suppress_list_blocks, diagnostic, add_unconditional, add_suppression, add_conservative,
  add_omitted, clean, add_unsupported, applicable_rule, add_rule, add_clean_line, add_line,
  add_lines,
}
use not_another_ad_blocker.Dns.Blocklist.Hostname.{
  strip_root_dot, decimal, is_octet, is_ip_addr, check_host, normalize_hostname,
}
use not_another_ad_blocker.Dns.Blocklist.Lines.{
  eq_ignore_ascii_case, has_badfilter, cosmetic_only_exception, page_level_exception, is_ignored,
  unconditional_rule, exception_suffix,
}
use not_another_ad_blocker.Dns.Blocklist.Truncate.{
  is_char_boundary, floor_boundary, slice_to, truncate_utf8,
}
use not_another_ad_blocker.Dns.Blocklist.Compile.{
  check_sources, update_source, count_rules, counted_sources, coverage_of, finish,
  compile_user_hosts_from, compile_user_hosts, add_source, add_sources, compile,
}
use not_another_ad_blocker.Dns.Config.{
  is_loopback, is_unspecified, is_multicast, is_broadcast, to_canonical, check_upstream,
  check_upstreams, check_limits, validate, cannot_open, cannot_read, without_mark, check_text,
  read_file, read_bounded, read_lists, load,
}
use not_another_ad_blocker.Dns.Blocklist.Policy.{RuleSource, DnsPolicy}
use not_another_ad_blocker.Dns.Config.{
  v4, v6, SocketAddr, DnsConfig, default_listen, default_timeout, default_cache,
  default_concurrency, default_activity, File,
}
use not_another_ad_blocker.Dns.Config.Valid.{
  IsValid, IsRead, AreRead, validate_iff, validate-apart, load-IsValid,
}

program : Unit {0}
unfolding encode_char bytes len strip_prefix starts_with strip_suffix ends_with split_once contains
    find_split split join trim_start trim_end trim_matches trim lines to_ascii_lowercase is_digit
    is_alphabetic is_alphanumeric to_lower is_whitespace is_control set_insert set_contains get
    insert remove is_mark is_tag_byte is_ident_start is_ident_byte skip skip_tag after_hyphen
    skip_ident segments valid_compound_bytes valid_compound valid_child valid_selector
    canonical_selector is_host_char cosmetic_domains parse_cosmetic split_exception split_modifiers
    split_boundary parse_network parse_rule is_label_byte first_passes last_passes valid_label
    valid_hostname is_path_byte valid_literal_path or_insert suppress_list_blocks diagnostic
    add_unconditional add_suppression add_conservative add_omitted clean add_unsupported
    applicable_rule add_rule add_clean_line add_line add_lines strip_root_dot decimal is_octet
    is_ip_addr check_host normalize_hostname eq_ignore_ascii_case has_badfilter
    cosmetic_only_exception page_level_exception is_ignored unconditional_rule exception_suffix
    is_char_boundary floor_boundary slice_to truncate_utf8 check_sources update_source count_rules
    counted_sources coverage_of finish compile_user_hosts_from compile_user_hosts add_source
    add_sources compile is_loopback is_unspecified is_multicast is_broadcast to_canonical
    check_upstream check_upstreams check_limits validate cannot_open cannot_read without_mark
    check_text read_file read_bounded read_lists load
program = tt

abbrev upstream : SocketAddr
upstream = record { ip = v4 192 0 2 53; port = 53 }

abbrev config : DnsConfig
config = record {
  listen = default_listen;
  upstreams = upstream ∷ [];
  timeout_ms = default_timeout;
  cache_entries = default_cache;
  max_in_flight = default_concurrency;
  activity_capacity = default_activity;
  filter_lists = record { name = codes "easylist"; path = codes "list" } ∷ [];
  allowlist = [];
  blocklist = [];
}

config_validates : validate config ≡ ok tt
unfolding program
config_validates = refl

-- The listener's own address, mapped into IPv6.
mapped_listener :
    validate
      (record config { upstreams = record { ip = v6 0 0 0 0 0 65535 32512 1; port = 5354 } ∷ [] })
    ≡ err (codes "An upstream cannot point back to the local DNS listener")
unfolding program
mapped_listener = refl

validate_iff_example : validate config ≡ ok tt ↔ IsValid config
validate_iff_example = validate_iff config

validate-apart_example :
    All
      (λ u. to_canonical u.ip ≡ to_canonical config.listen.ip → u.port ≡ config.listen.port → ⊥)
      config.upstreams
validate-apart_example = validate-apart config config_validates

abbrev disk : Str → Result Str File
disk path = ok (record { is_file = ok true; take_text = λ n. ok (codes "||ads.test^") })

abbrev shown : ℕ → Str
shown n = n ∷ []

abbrev parser : Str → Result Str DnsConfig
parser text = ok config

abbrev beside : Str → Str → Str
beside path name = name

abbrev ascii : Str → Option Str
ascii name = some name

loaded :
    (policy : DnsPolicy) × (load disk shown parser beside ascii (codes "config")
      ≡ ok (config, policy))
unfolding program
loaded = (_, refl)

load-IsValid_example :
    ((text : Str) × IsRead disk (codes "config") 1048576 text × (parser text ≡ ok config))
    × IsValid config
    × ((sources : List RuleSource) × AreRead disk
          (beside (codes "config"))
          config.filter_lists
          sources
        × (compile ascii sources config.allowlist config.blocklist ≡ ok loaded.0))
load-IsValid_example =
    load-IsValid disk shown parser beside ascii (codes "config") config loaded.0 loaded.1
