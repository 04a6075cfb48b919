-- ===== src/Subscriptions/Network.antt =====
-- companion/src/subscription_rules.rs, `network`: the browser's rules for one network filter. A
-- rule's JSON object is a record, and a key that may be missing is an option.
use not_another_ad_blocker.Prelude.{
  ℕ, Bool, true, false, ◌&&◌, ◌||◌, not, List, [], ◌∷◌, ◌++◌, Option, none, some, String, ◌==◌,
  if◌then◌else◌, Result, ok, err,
}
use not_another_ad_blocker.Text.{
  Str, codes, str_eq, is_empty, is_some, one_of, strip_prefix, starts_with, split, split_once,
  trim_start,
}
use not_another_ad_blocker.Text.Ordered.{set_insert, set_contains}
use not_another_ad_blocker.Rules.Syntax.{resource_types}
use not_another_ad_blocker.Subscriptions.Syntax.{scopes, pattern_valid, resource, Scope}

pub record RuleCondition : Type 0 where
  pub url_filter : Option Str
  pub domain_type : Option Str
  pub case_sensitive : Bool
  pub initiator_domains : Option (List Str)
  pub excluded_initiator_domains : Option (List Str)
  pub types : List Str
  pub request_domains : Option (List Str)

pub record BrowserRule : Type 0 where
  pub priority : ℕ
  pub action : Str
  pub condition : RuleCondition

abbrev pub block_action : Str
block_action = codes "block"

abbrev pub allow_action : Str
allow_action = codes "allow"

abbrev pub allow_all_action : Str
allow_all_action = codes "allowAllRequests"

-- The variables of the loop over the options.
pub record Options : Type 0 where
  pub condition : RuleCondition
  pub positive : List Str
  pub negative : List Str
  pub document : Bool
  pub seen : List Str

abbrev pub no_options : Str → Options
no_options pattern = record {
  condition = record {
    url_filter = some pattern;
    domain_type = none;
    case_sensitive = false;
    initiator_domains = none;
    excluded_initiator_domains = none;
    types = [];
    request_domains = none;
  };
  positive = [];
  negative = [];
  document = false;
  seen = [];
}

abbrev pub third_party_options : List Str
third_party_options = codes "third-party" ∷ codes "3p" ∷ codes "~first-party" ∷ codes "~1p" ∷ []

abbrev pub first_party_options : List Str
first_party_options = codes "~third-party" ∷ codes "~3p" ∷ codes "first-party" ∷ codes "1p" ∷ []

-- `split(..).next()`: the text up to the first such character.
unfoldable pub before : Str → Str → Str
before mark text = elim (split_once mark text) [ some (head, rest) ↦ head | none ↦ text ]

unfoldable pub add_party : Str → Options → Result String Options
add_party party o =
    let condition = o.condition in
    if is_some condition.domain_type
    then err "Conflicting party modifiers"
    else ok (record o { condition = record condition { domain_type = some party } })

abbrev pub keep_domains : List Str → Option (List Str) → Option (List Str)
keep_domains [] old = old
keep_domains (d ∷ ds) old = some (d ∷ ds)

abbrev pub with_domains : Scope → Options → Options
with_domains (included, excluded) o =
    let condition = o.condition in
    record o {
      condition = record condition {
        initiator_domains = keep_domains included condition.initiator_domains;
        excluded_initiator_domains = keep_domains excluded condition.excluded_initiator_domains;
      };
    }

unfoldable pub add_domains : Str → Options → Result String Options
add_domains value o =
    if is_empty value then err "Empty domain restriction" else elim (scopes value b'|') [
      | err message ↦ err message
      | ok scope ↦ ok (with_domains scope o)
    ]

abbrev pub with_kind : Bool → Str → Options → Options
with_kind true kind o = record o { negative = set_insert kind o.negative }
with_kind false kind o = record o { positive = set_insert kind o.positive }

unfoldable pub add_resource : Str → Options → Result String Options
add_resource option o = elim (resource (trim_start (λ c. c == b'~') option)) [
  | none ↦ err "Unsupported network modifier"
  | some kind ↦ ok (with_kind (starts_with (codes "~") option) kind o)
]

-- An option that is none of the named ones.
unfoldable pub add_other : Str → Options → Result String Options
add_other option o = elim (strip_prefix (codes "domain=") option) [
  | some value ↦ add_domains value o
  | none ↦ add_resource option o
]

unfoldable pub match_option : Bool → Str → Options → Result String Options
match_option exception option o =
    if one_of third_party_options option
    then add_party (codes "thirdParty") o
    else if one_of first_party_options option
    then add_party (codes "firstParty") o
    else if str_eq option (codes "match-case")
    then (let condition = o.condition in
        ok (record o { condition = record condition { case_sensitive = true } }))
    else if str_eq option (codes "document") && exception
    then ok (record o { document = true })
    else add_other option o

unfoldable pub add_option : Bool → Str → Options → Result String Options
add_option exception option o =
    if set_contains (before (codes "=") option) o.seen
    then err "Duplicate network modifier"
    else match_option exception option
        (record o { seen = set_insert (before (codes "=") option) o.seen })

-- The loop over the options; empty ones are left out.
unfoldable pub add_options : Bool → List Str → Options → Result String Options
add_options exception [] o = ok o
add_options exception (option ∷ options) o = elim (is_empty option) [
  | true ↦ add_options exception options o
  | false ↦ elim (add_option exception option o) [
    | err message ↦ err message
    | ok o' ↦ add_options exception options o'
  ]
]

-- The kinds that are not excluded.
unfoldable pub without : List Str → List Str → List Str
without negative [] = []
without negative (kind ∷ kinds) =
    let rest = without negative kinds in if set_contains kind negative then rest else kind ∷ rest

abbrev pub is_empty_set : List Str → Bool
is_empty_set [] = true
is_empty_set (k ∷ ks) = false

unfoldable pub types_of : Options → List Str
types_of o = without o.negative (if is_empty_set o.positive then resource_types else o.positive)

abbrev pub frame_types : List Str
frame_types = codes "main_frame" ∷ codes "sub_frame" ∷ []

abbrev pub with_types : List Str → RuleCondition → RuleCondition
with_types types condition = record condition { types = types }

abbrev pub page_rule : RuleCondition → BrowserRule
page_rule condition = record {
  priority = 2;
  action = allow_all_action;
  condition = with_types frame_types condition;
}

abbrev pub request_rule : Bool → List Str → RuleCondition → BrowserRule
request_rule exception types condition = record {
  priority = if exception then 2 else 1;
  action = if exception then allow_action else block_action;
  condition = with_types types condition;
}

-- A page exemption, and a rule for requests unless the page exemption stands alone.
unfoldable pub rules_of : Bool → Options → List BrowserRule
rules_of exception o =
    (if o.document then page_rule o.condition ∷ [] else [])
    ++ (if not o.document || not (is_empty_set o.positive) || not (is_empty_set o.negative)
        then request_rule exception (types_of o) o.condition ∷ []
        else [])

abbrev pub split_options : Str → Str × Str
split_options body = elim (split_once (codes "$") body) [ some r ↦ r | none ↦ (body, []) ]

abbrev pub without_mark : Str → Str
without_mark raw = elim (strip_prefix (codes "@@") raw) [ some body ↦ body | none ↦ raw ]

unfoldable pub network : Str → Result String (List BrowserRule)
network raw =
    let exception = starts_with (codes "@@") raw in
    let parts = split_options (without_mark raw) in
    if not (pattern_valid parts.0)
    then err "Unsupported network pattern or regular expression"
    else elim (add_options exception (split b',' parts.1) (no_options parts.0)) [
      | err message ↦ err message
      | ok o ↦
          if is_empty_set (types_of o)
          then err "Network resource restrictions match no supported type"
          else ok (rules_of exception o)
    ]
