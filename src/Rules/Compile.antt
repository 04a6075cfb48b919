-- ===== src/Rules/Compile.antt =====
-- companion/src/rules.rs, `compile`: the limits, the loop over the lines, and the emitted rules.
-- The outer `none` of `compile` stands for a probe that does not end and for a missing identifier,
-- which the source would panic on.
pub mod Parts
pub mod Limits
pub mod Accounting
pub mod Network
pub mod Emitted
use mathlib.Core.Option
use not_another_ad_blocker.Prelude.{
  ℕ, ◌+◌, Bool, true, false, ◌||◌, List, [], ◌∷◌, ◌++◌, map, Option, none, some, ltb, length,
  and_then, if◌then◌else◌, String, Result, ok, err, ◌>>=◌,
}
use not_another_ad_blocker.Text.{
  Str, codes, len, is_empty, is_some, lines, starts_with, str_eq, strip_prefix, trim,
}
use not_another_ad_blocker.Text.Ordered.{get, insert, set_contains, set_insert}
use not_another_ad_blocker.Rules.Syntax.{
  max_text_bytes, max_line_bytes, max_nonempty_lines, resource_types, NormalizedRule, network,
  cosmetic,
}
use not_another_ad_blocker.Rules.Parse.{parse_rule}
use not_another_ad_blocker.Rules.Ids.{key_for, stable_hash, assign_ids}

pub data Target : Type 0 where
  mv3_network cosmetic_rule unsupported_rule : Target

pub record Action : Type 0 where
  pub kind : Str

pub record Condition : Type 0 where
  pub url_filter : Str
  pub resource_types : List Str
  pub domain_type : Option Str

pub record NetworkRule : Type 0 where
  pub id : ℕ
  pub priority : ℕ
  pub action : Action
  pub condition : Condition

pub record CosmeticRule : Type 0 where
  pub domains : List Str
  pub selector : Str
  pub raw : Str
  pub source : Str

pub record Diagnostic : Type 0 where
  pub line : ℕ
  pub raw : Str
  pub target : Target
  pub message : String

pub record Stats : Type 0 where
  pub network : ℕ
  pub cosmetic : ℕ
  pub unsupported : ℕ
  pub ignored : ℕ

pub record Compilation : Type 0 where
  pub network_rules : List NetworkRule
  pub cosmetic_rules : List CosmeticRule
  pub diagnostics : List Diagnostic
  pub stats : Stats

-- The bounds are checked before any rule is produced.
unfoldable pub check_lines : ℕ → List Str → Result String (Unit {0})
check_lines nonempty [] = ok tt
check_lines nonempty (line ∷ rest) =
    let nonempty' = if is_empty (trim line) then nonempty else nonempty + 1 in
    let later = check_lines nonempty' rest in
    if ltb max_line_bytes (len line)
    then err "A filter line exceeds the 2,048-byte limit"
    else if ltb max_nonempty_lines nonempty'
    then err "Filter list exceeds the 2,000 nonempty-line limit"
    else later

-- Blank lines, comments and the two list headers.
unfoldable pub is_ignored : Str → Bool
is_ignored raw =
    is_empty raw
    || starts_with (codes "!") raw
    || str_eq raw (codes "[Adblock]")
    || str_eq raw (codes "[Adblock Plus 2.0]")

-- The variables of the loop over the lines.
pub record Progress : Type 0 where
  pub network_map : List (Str × NormalizedRule)
  pub cosmetic_keys : List Str
  pub cosmetic_rules : List CosmeticRule
  pub diagnostics : List Diagnostic
  pub unsupported : ℕ
  pub ignored : ℕ

abbrev pub start : Progress
start = record {
  network_map = [];
  cosmetic_keys = [];
  cosmetic_rules = [];
  diagnostics = [];
  unsupported = 0;
  ignored = 0;
}

abbrev pub message_for : Bool → String
message_for true = "Duplicate supported rule; emitted once"
message_for false = "Compiled successfully"

abbrev pub diagnostic : ℕ → Str → Target → String → Diagnostic
diagnostic index raw target message = record {
  line = index + 1;
  raw = raw;
  target = target;
  message = message;
}

-- A parsed line, or the reason against it.
unfoldable pub add_rule : Str → ℕ → Str → Result String NormalizedRule → Progress → Progress
add_rule source index raw (ok (network pattern exception third_party)) p =
    let rule = network pattern exception third_party in
    let duplicate = is_some (get (key_for rule) p.network_map) in
    record p {
      network_map = insert (key_for rule) rule p.network_map;
      diagnostics = p.diagnostics ++ diagnostic index raw mv3_network (message_for duplicate) ∷ [];
    }
add_rule source index raw (ok (cosmetic domains selector)) p =
    let key = key_for (cosmetic domains selector) in
    let duplicate = set_contains key p.cosmetic_keys in
    let rule : CosmeticRule = record {
      domains = domains;
      selector = selector;
      raw = raw;
      source = source;
    } in
    record p {
      cosmetic_keys = set_insert key p.cosmetic_keys;
      cosmetic_rules = if duplicate then p.cosmetic_rules else p.cosmetic_rules ++ rule ∷ [];
      diagnostics =
          p.diagnostics ++ diagnostic index raw cosmetic_rule (message_for duplicate) ∷ [];
    }
add_rule source index raw (err message) p = record p {
  diagnostics = p.diagnostics ++ diagnostic index raw unsupported_rule message ∷ [];
  unsupported = p.unsupported + 1;
}

unfoldable pub add_line : Str → ℕ → Str → Progress → Progress
add_line source index original p =
    if is_ignored (trim original)
    then record p { ignored = p.ignored + 1 }
    else add_rule source index (trim original) (parse_rule (trim original)) p

unfoldable pub add_lines : Str → ℕ → List Str → Progress → Progress
add_lines source index [] p = p
add_lines source index (line ∷ rest) p =
    add_lines source (index + 1) rest (add_line source index line p)

-- The browser's rule for a normalized one.
unfoldable pub emit_rule : ℕ → Str → Bool → Bool → NetworkRule
emit_rule id pattern exception third_party = record {
  id = id;
  priority = if exception then 2 else 1;
  action = record { kind = if exception then codes "allow" else codes "block" };
  condition = record {
    url_filter = pattern;
    resource_types = resource_types;
    domain_type = if third_party then some (codes "thirdParty") else none;
  };
}

unfoldable pub emit : List (Str × ℕ) → List (Str × NormalizedRule) → Option (List NetworkRule)
emit ids [] = some []
emit ids ((key, network pattern exception third_party) ∷ rest) =
    and_then (get key ids) (λ id.
      Option.map (λ rules. emit_rule id pattern exception third_party ∷ rules) (emit ids rest))
emit ids ((key, cosmetic domains selector) ∷ rest) = emit ids rest

abbrev pub compilation : Progress → List NetworkRule → Compilation
compilation p rules = record {
  network_rules = rules;
  cosmetic_rules = p.cosmetic_rules;
  diagnostics = p.diagnostics;
  stats = record {
    network = length rules;
    cosmetic = length p.cosmetic_rules;
    unsupported = p.unsupported;
    ignored = p.ignored;
  };
}

unfoldable pub finish : Progress → Option Compilation
finish p =
    and_then (assign_ids (map (λ entry. entry.0) p.network_map) stable_hash)
      (λ ids. Option.map (compilation p) (emit ids p.network_map))

-- The byte-order mark is not part of the first line.
unfoldable pub strip_bom : Str → Str
strip_bom text = elim (strip_prefix (0xFEFF ∷ []) text) [ some rest ↦ rest | none ↦ text ]

unfoldable pub compile : Str → Str → Option (Result String Compilation)
compile text source =
    if ltb max_text_bytes (len text)
    then some (err "Filter text exceeds the 128 KiB limit")
    else elim (check_lines 0 (lines (strip_bom text))) [
      | err message ↦ some (err message)
      | ok _ ↦ Option.map ok (finish (add_lines source 0 (lines (strip_bom text)) start))
    ]
