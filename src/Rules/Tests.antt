-- ===== src/Rules/Tests.antt =====
-- companion/src/rules.rs: runs on small lists, and the theorems at concrete inputs.
use not_another_ad_blocker.Prelude.{
  ℕ, ◌+◌, ◌≡◌, ◌≢◌, ◌≤◌, refl, true, false, List, [], ◌∷◌, none, some, length, ok, err, Any, All,
  ◌↔◌, inl, arith,
}
use not_another_ad_blocker.Text.{Str, codes}
use not_another_ad_blocker.Text.{
  encode_char, bytes, len, strip_prefix, starts_with, strip_suffix, ends_with, split_once, contains,
  find_split, split, join, trim_start, trim_end, trim_matches, trim, lines, to_ascii_lowercase,
}
use not_another_ad_blocker.Text.Chars.{
  is_digit, is_alphabetic, is_alphanumeric, to_lower, is_whitespace, is_control,
}
use not_another_ad_blocker.Text.Ordered.{set_insert, set_contains, get, insert}
use not_another_ad_blocker.Rules.Ids.{
  key_for, hash_bytes, stable_hash, next_id, probe, assign_ids_from, assign_ids,
}
use not_another_ad_blocker.Rules.Selector.{
  is_mark, is_tag_byte, is_ident_start, is_ident_byte, skip, skip_tag, after_hyphen, skip_ident,
  segments, valid_compound_bytes, valid_compound, valid_child, valid_selector, canonical_selector,
}
use not_another_ad_blocker.Rules.Hostname.{is_host_char}
use not_another_ad_blocker.Rules.Parse.{
  cosmetic_domains, parse_cosmetic, split_exception, split_modifiers, split_boundary, parse_network,
  parse_rule,
}
use not_another_ad_blocker.Rules.Syntax.{
  is_label_byte, first_passes, last_passes, valid_label, valid_hostname, is_path_byte,
  valid_literal_path,
}
use not_another_ad_blocker.Rules.Compile.{
  check_lines, is_ignored, add_rule, add_line, add_lines, emit_rule, emit, finish, strip_bom,
  compile,
}
use not_another_ad_blocker.Rules.Syntax.{network, max_selector_bytes}
use not_another_ad_blocker.Rules.Compile.{Compilation, compilation, start}
use not_another_ad_blocker.Rules.Compile.Limits.{IsWithinLimits, compile-total}
use not_another_ad_blocker.Rules.Compile.Network.{States, Emits, IsRuleFor, compile-network_sound}
use not_another_ad_blocker.Rules.Compile.Emitted.{compile-network_complete}
use not_another_ad_blocker.Rules.Compile.Accounting.{count_unsupported, compile-stats}
use not_another_ad_blocker.Rules.Ids.Assigned.{AreIds, assign_ids-AreIds}
use not_another_ad_blocker.Rules.Selector.Grammar.{Compound, valid_compound_bytes_iff}
use not_another_ad_blocker.Rules.Selector.Spaces.{without_spaces}
use not_another_ad_blocker.Rules.Selector.Canonical.{canonical_selector-valid_selector}
use not_another_ad_blocker.Rules.Parse.Accepts.{IsNetworkLine}
use not_another_ad_blocker.Rules.Parse.Written.{parse_rule-network_iff}

program : Unit {0}
unfolding encode_char bytes len strip_prefix starts_with strip_suffix ends_with split_once contains
    find_split split join trim_start trim_end trim_matches trim lines to_ascii_lowercase is_digit
    is_alphabetic is_alphanumeric to_lower is_whitespace is_control set_insert set_contains get
    insert key_for hash_bytes stable_hash next_id probe assign_ids_from assign_ids is_mark
    is_tag_byte is_ident_start is_ident_byte skip skip_tag after_hyphen skip_ident segments
    valid_compound_bytes valid_compound valid_child valid_selector canonical_selector is_host_char
    cosmetic_domains parse_cosmetic split_exception split_modifiers split_boundary parse_network
    parse_rule is_label_byte first_passes last_passes valid_label valid_hostname is_path_byte
    valid_literal_path check_lines is_ignored add_rule add_line add_lines emit_rule emit finish
    strip_bom compile
program = tt

abbrev list_text : Str
list_text =
    codes
      "||ads.example.com^\n! a comment\n@@||ok.example.com^$third-party\nexample.org##.banner\n/banner/"

abbrev list_name : Str
list_name = codes "list"

abbrev first_line : Str
first_line = codes "||ads.example.com^"

abbrev compiled : Compilation
compiled = elim (compile list_text list_name) [
  | some (ok c) ↦ c
  | some (err message) ↦ compilation start []
  | none ↦ compilation start []
]

list_text-compiled : compile list_text list_name ≡ some (ok compiled)
unfolding program
list_text-compiled = refl

counts_of_compiled :
    (compiled.stats.network ≡ 2) × (compiled.stats.unsupported ≡ 1) × (compiled.stats.ignored ≡ 1)
unfolding program
counts_of_compiled = (refl, refl, refl)

selector_run : canonical_selector (codes "div.card:has(>  .ad )") ≡ codes "div.card:has(>.ad)"
unfolding program
selector_run = refl

parse_rule-network_iff_example :
    (parse_rule first_line ≡ ok (network first_line false false))
    ↔ IsNetworkLine first_line (network first_line false false)
parse_rule-network_iff_example = parse_rule-network_iff first_line first_line false false

compile-total_example :
    (compile list_text list_name ≢ none)
    × (((c : Compilation) × (compile list_text list_name ≡ some (ok c))) ↔ IsWithinLimits list_text)
compile-total_example = compile-total list_text list_name

compile-network_sound_example :
    All (Emits (λ rule. Any (States rule) (lines (strip_bom list_text)))) compiled.network_rules
compile-network_sound_example =
    compile-network_sound list_text list_name compiled list_text-compiled

first_line-States : Any (States (network first_line false false)) (lines (strip_bom list_text))
unfolding program
first_line-States = inl (refl, refl)

compile-network_complete_example : Any (IsRuleFor first_line false false) compiled.network_rules
compile-network_complete_example =
    compile-network_complete list_text list_name compiled first_line false false list_text-compiled
      first_line-States

compile-stats_example :
    (compiled.stats.ignored + length compiled.diagnostics ≡ length (lines (strip_bom list_text)))
    × (compiled.stats.unsupported ≡ count_unsupported compiled.diagnostics)
    × (compiled.stats.network ≡ length compiled.network_rules)
    × (compiled.stats.cosmetic ≡ length compiled.cosmetic_rules)
compile-stats_example = compile-stats list_text list_name compiled list_text-compiled

-- All keys collide.
assign_ids-AreIds_example :
    (ids : List (Str × ℕ)) × (assign_ids (codes "a" ∷ codes "b" ∷ codes "c" ∷ []) (λ key. 999999998)
      ≡ some ids)
    × AreIds (codes "a" ∷ codes "b" ∷ codes "c" ∷ []) ids
assign_ids-AreIds_example =
    assign_ids-AreIds (codes "a" ∷ codes "b" ∷ codes "c" ∷ []) (λ key. 999999998) (omega arith)

assign_ids_run :
    assign_ids (codes "a" ∷ codes "b" ∷ []) (λ key. 999999998)
    ≡ some ((codes "a", 999999999) ∷ (codes "b", 1) ∷ [])
unfolding program
assign_ids_run = refl

valid_compound_bytes_iff_example : (valid_compound_bytes (bytes (codes "div.ad")) ≡ true) ↔ (
    (bytes (codes "div.ad") ≢ [])
    × (length (bytes (codes "div.ad")) ≤ max_selector_bytes)
    × Compound (bytes (codes "div.ad")))
valid_compound_bytes_iff_example = valid_compound_bytes_iff (bytes (codes "div.ad"))

child_selector-valid : valid_selector (codes "div.card:has(>  .ad )") ≡ true
unfolding program
child_selector-valid = refl

canonical_selector-valid_selector_example :
    (valid_selector (canonical_selector (codes "div.card:has(>  .ad )")) ≡ true)
    × (canonical_selector (canonical_selector (codes "div.card:has(>  .ad )"))
        ≡ canonical_selector (codes "div.card:has(>  .ad )"))
    × (canonical_selector (codes "div.card:has(>  .ad )")
        ≡ without_spaces (codes "div.card:has(>  .ad )"))
canonical_selector-valid_selector_example =
    canonical_selector-valid_selector (codes "div.card:has(>  .ad )") child_selector-valid
