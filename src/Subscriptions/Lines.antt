-- ===== src/Subscriptions/Lines.antt =====
-- companion/src/subscription_rules.rs, `compile_subscriptions`: what one line of a list adds.
use mathlib.Core.Option
use not_another_ad_blocker.Prelude.{
  ℕ, ◌+◌, Bool, true, false, ◌&&◌, ◌||◌, not, List, [], ◌∷◌, ◌++◌, Option, none, some, ◌==◌, any,
  if◌then◌else◌, ok, err,
}
use not_another_ad_blocker.Text.{
  Str, codes, is_empty, one_of, strip_prefix, starts_with, join, trim_end,
}
use not_another_ad_blocker.Text.Ordered.{get, insert, set_insert}
use not_another_ad_blocker.Rules.Syntax.{resource_types}
use not_another_ad_blocker.Rules.Selector.{valid_selector, canonical_selector}
use not_another_ad_blocker.Subscriptions.Syntax.{Scope, scopes, anchored_host}
use not_another_ad_blocker.Subscriptions.Network.{
  RuleCondition, BrowserRule, allow_action, allow_all_action, frame_types, no_options, with_types,
  before,
}
use not_another_ad_blocker.Subscriptions.Diagnostics.{Diagnostics, no_diagnostics, add}

pub record Hide : Type 0 where
  pub domains : List Str
  pub excluded : List Str
  pub selector : Str
  pub source : Str
  pub raw : Str
  pub line : ℕ

-- The counts of one source.
pub record Counts : Type 0 where
  pub accepted_network : ℕ
  pub accepted_cosmetic : ℕ
  pub unsupported : ℕ
  pub ignored : ℕ

abbrev pub no_counts : Counts
no_counts = record { accepted_network = 0; accepted_cosmetic = 0; unsupported = 0; ignored = 0 }

-- The variables of the loop over the lines.
pub record Progress : Type 0 where
  pub diagnostic : Diagnostics
  pub network_rules : List (Str × BrowserRule)
  pub hides : List Hide
  pub exception_domains : List (Str × List Str)
  pub suppressed_selectors : List Str
  pub generic_excluded : List Str
  pub all_excluded : List Str
  pub suppress_generic : Bool
  pub suppress_cosmetic : Bool
  pub suppress_network_blocks : Bool
  pub badfilters : List Str
  pub counts : Counts

abbrev pub start : Progress
start = record {
  diagnostic = no_diagnostics;
  network_rules = [];
  hides = [];
  exception_domains = [];
  suppressed_selectors = [];
  generic_excluded = [];
  all_excluded = [];
  suppress_generic = false;
  suppress_cosmetic = false;
  suppress_network_blocks = false;
  badfilters = [];
  counts = no_counts;
}

-- A line of a source, and where it stands.
pub record Place : Type 0 where
  pub source : Str
  pub line : ℕ
  pub raw : Str

abbrev pub add_ignored : Progress → Progress
add_ignored p = let c = p.counts in record p { counts = record c { ignored = c.ignored + 1 } }

abbrev pub add_accepted : Progress → Progress
add_accepted p =
    let c = p.counts in record p { counts = record c { accepted_network = c.accepted_network + 1 } }

unfoldable pub add_diagnostic : Place → Str → Progress → Progress
add_diagnostic at reason p = record p {
  diagnostic = add at.source at.line at.raw reason p.diagnostic;
}

unfoldable pub add_unsupported : Place → Str → Progress → Progress
add_unsupported at reason p =
    let c = p.counts in
    add_diagnostic at reason (record p { counts = record c { unsupported = c.unsupported + 1 } })

-- `BTreeSet::extend`.
unfoldable pub set_extend : List Str → List Str → List Str
set_extend [] s = s
set_extend (k ∷ ks) s = set_extend ks (set_insert k s)

-- Included domains only, and at least one.
abbrev pub only_included : Scope → Option (List Str)
only_included ([], excluded) = none
only_included (d ∷ ds, []) = some (d ∷ ds)
only_included (d ∷ ds, e ∷ es) = none

abbrev pub included_scope : Str → ℕ → Option (List Str)
included_scope scope delimiter = elim (scopes scope delimiter) [
  | err message ↦ none
  | ok parsed ↦ only_included parsed
]

-- "scope#@#selector": the selector is not hidden on some domains, or nowhere.
unfoldable pub add_hide_exception : Place → Str → Str → Progress → Progress
add_hide_exception at scope selector p =
    if not (valid_selector selector)
    then add_unsupported at (codes "Unsupported cosmetic exception selector") p
    else let canonical = canonical_selector selector in
      elim (included_scope scope b',') [
        | some domains ↦
            let old : List Str = Option.get_or (get canonical p.exception_domains) [] in
            add_ignored (record p {
              exception_domains = insert canonical (set_extend domains old) p.exception_domains;
            })
        | none ↦
            add_ignored
              (record p { suppressed_selectors = set_insert canonical p.suppressed_selectors })
      ]

abbrev pub add_accepted_hide : Hide → Progress → Progress
add_accepted_hide hide p =
    let c = p.counts in
    record p {
      counts = record c { accepted_cosmetic = c.accepted_cosmetic + 1 };
      hides = p.hides ++ hide ∷ [];
    }

-- "scope##selector".
unfoldable pub add_hide : Place → Str → Str → Progress → Progress
add_hide at scope selector p = elim (scopes scope b',') [
  | err message ↦ add_unsupported at (codes "Unsupported cosmetic selector or scope") p
  | ok parsed ↦
      if valid_selector selector
      then add_accepted_hide
          (record {
            domains = parsed.0;
            excluded = parsed.1;
            selector = canonical_selector selector;
            source = at.source;
            raw = at.raw;
            line = at.line;
          })
          p
      else add_unsupported at (codes "Unsupported cosmetic selector or scope") p
]

-- The options without those that are named.
unfoldable pub drop_options : List Str → List Str → List Str
drop_options names [] = []
drop_options names (option ∷ options) =
    let rest = drop_options names options in if one_of names option then rest else option ∷ rest

abbrev pub badfilter : List Str
badfilter = codes "badfilter" ∷ []

-- The filter that a badfilter takes back.
unfoldable pub badfilter_target : Str → List Str → Str
badfilter_target raw options =
    trim_end (λ c. c == b'$')
      (before (codes "$") raw ++ (codes "$" ++ join (codes ",") (drop_options badfilter options)))

abbrev pub hiding_options : List Str
hiding_options = codes "generichide" ∷ codes "elemhide" ∷ []

-- Options that make no network rule by themselves.
abbrev pub passive_options : List Str
passive_options =
    codes "third-party"
    ∷ codes "~third-party"
    ∷ codes "first-party"
    ∷ codes "~first-party"
    ∷ codes "match-case"
    ∷ codes ""
    ∷ []

abbrev pub is_active_option : Str → Bool
is_active_option option =
    not (starts_with (codes "domain=") option) && not (one_of passive_options option)

-- `find_map(|s| s.strip_prefix("domain="))`.
unfoldable pub domain_option : List Str → Option Str
domain_option [] = none
domain_option (option ∷ options) =
    let rest = domain_option options in
    elim (strip_prefix (codes "domain=") option) [ some value ↦ some value | none ↦ rest ]

-- The domains of a cosmetic exemption, where it names them.
unfoldable pub exempt_domains : Str → List Str → Option (List Str)
exempt_domains pattern options = elim (domain_option options) [
  | some value ↦ included_scope value b'|'
  | none ↦ Option.map (λ host. host ∷ []) (anchored_host pattern)
]

abbrev pub exempts_all : List Str → Bool
exempts_all options = any (λ o. one_of (codes "elemhide" ∷ codes "document" ∷ []) o) options

unfoldable pub add_exemption : Str → List Str → Progress → Progress
add_exemption pattern options p = elim (exempt_domains pattern options) [
  | some domains ↦
      if exempts_all options
      then record p { all_excluded = set_extend domains p.all_excluded }
      else record p { generic_excluded = set_extend domains p.generic_excluded }
  | none ↦
      if exempts_all options
      then record p { suppress_cosmetic = true }
      else record p { suppress_generic = true }
]

-- A page exemption protects the page that the pattern names.
unfoldable pub add_page_exemption : Str → Progress → Progress
add_page_exemption pattern p = elim (anchored_host pattern) [
  | some host ↦ record p { all_excluded = set_insert host p.all_excluded }
  | none ↦ record p { suppress_cosmetic = true }
]

abbrev pub guard_condition : Str → List Str → RuleCondition
guard_condition pattern types = with_types types (no_options pattern).condition

abbrev pub allow_guard : Str → BrowserRule
allow_guard pattern = record {
  priority = 2;
  action = allow_action;
  condition = guard_condition pattern resource_types;
}

abbrev pub frame_guard : Str → BrowserRule
frame_guard pattern = record {
  priority = 2;
  action = allow_all_action;
  condition = guard_condition pattern frame_types;
}

abbrev pub guards_page : List Str → Bool
guards_page options = any (λ o. one_of (codes "document" ∷ codes "genericblock" ∷ []) o) options

abbrev pub is_comment : Str → Bool
is_comment raw = is_empty raw || starts_with (codes "!") raw || starts_with (codes "[Adblock") raw
