-- ===== src/Subscriptions/Compile.antt =====
-- companion/src/subscription_rules.rs, `compile_subscriptions`: the checks on the sources, the loop
-- over them, and the rules that are given out. The result's JSON object is a record.
use mathlib.Core.Option
use not_another_ad_blocker.Prelude.{
  ℕ, ◌+◌, ◌-◌, Bool, true, false, ◌&&◌, ◌||◌, not, List, [], ◌∷◌, map, String, ltb, ◌==◌, take,
  length, if◌then◌else◌, Result, ok, err,
}
use not_another_ad_blocker.Text.{
  Str, codes, str_eq, str_lt, len, is_some, one_of, lines, trim_start,
}
use not_another_ad_blocker.Text.Ordered.{get, insert, remove, set_insert, set_contains}
use not_another_ad_blocker.Subscriptions.Network.{BrowserRule, block_action, is_empty_set}
use not_another_ad_blocker.Subscriptions.Diagnostics.{Sample}
use not_another_ad_blocker.Subscriptions.Pack.{pack_network}
use not_another_ad_blocker.Subscriptions.Lines.{
  Hide, Counts, no_counts, Progress, start, set_extend, add_diagnostic,
}
use not_another_ad_blocker.Subscriptions.Filter.{add_lines}

abbrev pub max_network_budget : ℕ
max_network_budget = 29800

abbrev pub max_bytes : ℕ
max_bytes = 8388608

abbrev pub max_lines : ℕ
max_lines = 300000

abbrev pub max_cosmetic : ℕ
max_cosmetic = 10000

pub record Source : Type 0 where
  pub id : Str
  pub text : Str

pub record ListStats : Type 0 where
  pub id : Str
  pub counts : Counts

pub record EmittedRule : Type 0 where
  pub id : ℕ
  pub rule : BrowserRule

pub record HidingRule : Type 0 where
  pub domains : List Str
  pub excluded_domains : List Str
  pub selector : Str
  pub raw : Str
  pub source : Str

pub record Coverage : Type 0 where
  pub network_supported : ℕ
  pub network_dropped : ℕ
  pub cosmetic_supported : ℕ
  pub cosmetic_dropped : ℕ
  pub exception_safety_suppressed : ℕ
  pub diagnostics_total : ℕ
  pub diagnostics_truncated : Bool

pub record Subscriptions : Type 0 where
  pub network : ℕ
  pub cosmetic : ℕ
  pub unsupported : ℕ
  pub ignored : ℕ
  pub coverage : Coverage
  pub network_rules : List EmittedRule
  pub cosmetic_rules : List HidingRule
  pub diagnostics : List Sample
  pub list_stats : List ListStats
  pub unsupported_reasons : List (Str × ℕ)

abbrev pub known_sources : List Str
known_sources = codes "easylist" ∷ codes "easyprivacy" ∷ []

abbrev pub is_empty_list : List Source → Bool
is_empty_list [] = true
is_empty_list (s ∷ ss) = false

abbrev pub sum_of : (ListStats → ℕ) → List ListStats → ℕ
sum_of f [] = 0
sum_of f (s ∷ ss) = f s + sum_of f ss

unfoldable pub check_sources : List Str → List Source → Result String (Unit {0})
check_sources ids [] = ok tt
check_sources ids (source ∷ sources) =
    let later = check_sources (set_insert source.id ids) sources in
    if not (one_of known_sources source.id) || set_contains source.id ids
    then err "Unknown or duplicate source ID"
    else if ltb max_bytes (len source.text) || ltb max_lines (length (lines source.text))
    then err "Subscription input exceeds size or line limit"
    else later

-- The rules that no badfilter takes back.
unfoldable pub remove_all : List Str → List (Str × BrowserRule) → List (Str × BrowserRule)
remove_all [] rules = rules
remove_all (key ∷ keys) rules = remove_all keys (remove key rules)

abbrev pub is_block : BrowserRule → Bool
is_block r = str_eq r.action block_action

-- `retain(|r| r["action"]["type"] != "block")`.
unfoldable pub retain_exceptions : List BrowserRule → List BrowserRule
retain_exceptions [] = []
retain_exceptions (r ∷ rules) =
    let rest = retain_exceptions rules in if is_block r then rest else r ∷ rest

abbrev pub drop_blocks : Bool → List BrowserRule → List BrowserRule
drop_blocks suppressed rules = if suppressed then retain_exceptions rules else rules

abbrev pub number_rules : ℕ → List BrowserRule → List EmittedRule
number_rules id [] = []
number_rules id (r ∷ rules) = record { id = id; rule = r } ∷ number_rules (id + 1) rules

-- The domains on which a hiding rule is not to hide.
unfoldable pub excluded_for : Hide → Progress → List Str
excluded_for hide p =
    let own = set_extend p.all_excluded (set_extend hide.excluded []) in
    let generic = if is_empty_set hide.domains then set_extend p.generic_excluded own else own in
    set_extend (Option.get_or (get hide.selector p.exception_domains) []) generic

unfoldable pub is_omitted : Hide → Progress → Bool
is_omitted hide p =
    p.suppress_cosmetic
    || (p.suppress_generic && is_empty_set hide.domains)
    || set_contains hide.selector p.suppressed_selectors
    || ltb 200 (length (excluded_for hide p))

abbrev pub hiding_rule : Hide → Progress → HidingRule
hiding_rule hide p = record {
  domains = hide.domains;
  excluded_domains = excluded_for hide p;
  selector = hide.selector;
  raw = hide.raw;
  source = hide.source;
}

-- `entry(key).or_insert(rule)`.
unfoldable pub insert_new : Str → HidingRule → List (Str × HidingRule) → List (Str × HidingRule)
insert_new key rule rules = if is_some (get key rules) then rules else insert key rule rules

-- The hiding rules, the diagnostics and the number of rules that were omitted.
pub record Hiding : Type 0 where
  pub rules : List (Str × HidingRule)
  pub progress : Progress
  pub omitted : ℕ

abbrev pub omit : Hide → Hiding → Hiding
omit hide h = record h {
  progress =
      add_diagnostic (record { source = hide.source; line = hide.line; raw = hide.raw })
        (codes "Cosmetic rule omitted to honor an exemption safely") h.progress;
  omitted = h.omitted + 1;
}

module _ (show : BrowserRule → Str) where
  -- The order of the rules: exceptions first, then by their texts.
  abbrev pub sorts_before : BrowserRule → BrowserRule → Bool
  sorts_before r s =
      (not (is_block r) && is_block s)
      || (not (is_block r && not (is_block s)) && str_lt (show r) (show s))

  -- Behind the rules that do not sort after it, so that the sort is stable.
  unfoldable pub sort_in : BrowserRule → List BrowserRule → List BrowserRule
  sort_in r [] = r ∷ []
  sort_in r (s ∷ rules) =
      let rest = sort_in r rules in if sorts_before s r then s ∷ rest else r ∷ s ∷ rules

  -- `sort_by_cached_key`.
  unfoldable pub sort_rules : List BrowserRule → List BrowserRule
  sort_rules [] = []
  sort_rules (r ∷ rules) = sort_in r (sort_rules rules)

-- The lines of a source, less its byte order mark.
abbrev pub source_lines : Source → List Str
source_lines source = lines (trim_start (λ c. c == 0xFEFF) source.text)

-- The rules after the badfilters and the suppression, in their order.
module _ (show : BrowserRule → Str) where
  unfoldable pub packed_rules : Progress → List BrowserRule
  packed_rules p = pack_network show (remove_all p.badfilters p.network_rules)

  unfoldable pub supported_rules : Progress → List BrowserRule
  supported_rules p = drop_blocks p.suppress_network_blocks (packed_rules p)

  unfoldable pub sorted_rules : Progress → List BrowserRule
  sorted_rules p = sort_rules show (supported_rules p)

  -- The loop over the sources, with the statistics of each.
  unfoldable pub add_sources : List Source → Progress → List ListStats × Progress
  add_sources [] p = ([], p)
  add_sources (source ∷ sources) p =
      let done =
        add_lines show source.id 0 (source_lines source) (record p { counts = no_counts }) in
      let later = add_sources sources done in
      (record { id = source.id; counts = done.counts } ∷ later.0, later.1)

-- The loop over the hiding rules.
module _ (show_hide : List Str → List Str → Str → Str) where
  unfoldable pub add_hides : List Hide → Hiding → Hiding
  add_hides [] h = h
  add_hides (hide ∷ hides) h = add_hides hides (
      if is_omitted hide h.progress then omit hide h else record h {
        rules =
            insert_new (show_hide hide.domains (excluded_for hide h.progress) hide.selector)
              (hiding_rule hide h.progress) h.rules;
      })

module _ (show : BrowserRule → Str) (show_hide : List Str → List Str → Str → Str) where
  -- The result, from what the lines left and the network rules in their order.
  unfoldable pub give_out : ℕ → List ListStats → Progress → Subscriptions
  give_out budget stats p =
      let sorted = sorted_rules show p in
      let hiding = add_hides show_hide p.hides (record { rules = []; progress = p; omitted = 0 }) in
      let kept = take budget sorted in
      let cosmetics = take max_cosmetic (map (λ e. e.1) hiding.rules) in
      let diagnostic = hiding.progress.diagnostic in
      record {
        network = length kept;
        cosmetic = length cosmetics;
        unsupported = sum_of (λ s. s.counts.unsupported) stats;
        ignored = sum_of (λ s. s.counts.ignored) stats;
        coverage = record {
          network_supported = length (supported_rules show p);
          network_dropped = length sorted - budget;
          cosmetic_supported = length p.hides;
          cosmetic_dropped = length hiding.rules - max_cosmetic;
          exception_safety_suppressed =
              (length (packed_rules show p) - length (supported_rules show p)) + hiding.omitted;
          diagnostics_total = diagnostic.total;
          diagnostics_truncated = ltb (length diagnostic.samples) diagnostic.total;
        };
        network_rules = number_rules 1 kept;
        cosmetic_rules = cosmetics;
        diagnostics = diagnostic.samples;
        list_stats = stats;
        unsupported_reasons = diagnostic.reasons;
      }

  unfoldable pub within_budget : ℕ → List ListStats → Progress → Result String Subscriptions
  within_budget budget stats p =
      if ltb budget (length (retain_exceptions (sorted_rules show p)))
      then err
          "Supported exceptions exceed the browser rule budget; previous rules must be retained"
      else ok (give_out budget stats p)

  unfoldable pub compile_subscriptions : List Source → ℕ → Result String Subscriptions
  compile_subscriptions sources budget =
      if ltb max_network_budget budget
      then err "Network budget exceeds 29800"
      else elim (check_sources [] sources) [
        | err message ↦ err message
        | ok _ ↦
            if is_empty_list sources
            then err "Select at least one source"
            else within_budget budget (add_sources show sources start).0
                (add_sources show sources start).1
      ]
