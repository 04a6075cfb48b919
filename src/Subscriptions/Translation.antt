-- ===== src/Subscriptions/Translation.antt =====
-- companion/src/subscription_rules.rs, `network`: what the rules of a network filter are.
use not_another_ad_blocker.Prelude.{
  ◌≡◌, refl, subst, Bool, true, false, ◌&&◌, ◌||◌, not, ◌==◌, List, [], ◌∷◌, ◌++◌, none, some, All,
  arith, inl, inr, Bool-cases, Option-cases, Result-cases, ok, ok_inj, if◌then◌else◌,
}
use not_another_ad_blocker.Text.{
  Str, codes, str_eq, is_empty, is_some, one_of, starts_with, strip_prefix, split, trim_start,
}
use not_another_ad_blocker.Text.Ordered.{set_insert, set_contains}
use not_another_ad_blocker.Subscriptions.Syntax.{pattern_valid, scopes, resource}
use not_another_ad_blocker.Subscriptions.Network.{
  BrowserRule, Options, no_options, add_party, add_domains, add_resource, add_other, match_option,
  add_option, add_options, before, network, rules_of, types_of, is_empty_set, split_options,
  without_mark, page_rule, request_rule, third_party_options, first_party_options,
}
use not_another_ad_blocker.Subscriptions.Compile.{is_block}

-- What the options leave as it was: the pattern; and only an exception is for pages.
pub record AreFor (exception : Bool) (pattern : Str) (o : Options) : Type 0 where
  pub same_pattern : o.condition.url_filter ≡ some pattern
  pub undirected : o.condition.request_domains ≡ none
  pub for_pages : o.document ≡ true → exception ≡ true

-- A rule of a filter.
pub record IsRuleFor (exception : Bool) (pattern : Str) (r : BrowserRule) : Type 0 where
  pub same_pattern : r.condition.url_filter ≡ some pattern
  pub undirected : r.condition.request_domains ≡ none
  pub blocks : is_block r ≡ not exception
  pub priority : r.priority ≡ (if exception then 2 else 1)
  pub typed : is_empty_set r.condition.types ≡ false

abbrev pub is_empty_rules : List BrowserRule → Bool
is_empty_rules [] = true
is_empty_rules (r ∷ rules) = false

-- Two rules, each of which may be left out.
All-either :
    (P : BrowserRule → Type 0) (a b : Bool) (r s : BrowserRule)
    → (a ≡ true → P r)
    → P s
    → All P ((if a then r ∷ [] else []) ++ (if b then s ∷ [] else []))
All-either P true true r s p q = (p refl, (q, tt))
All-either P true false r s p q = (p refl, tt)
All-either P false true r s p q = (q, tt)
All-either P false false r s p q = tt

module _ (exception : Bool) (pattern : Str) where
  add_party-AreFor :
      (party : Str) (o o' : Options)
      → add_party party o ≡ ok o'
      → AreFor exception pattern o
      → AreFor exception pattern o'
  unfolding add_party
  add_party-AreFor party o o' e i = elim (Bool-cases (is_some o.condition.domain_type)) [
    | inl taken ↦ absurd (ground arith)
    | inr free ↦ subst (AreFor exception pattern) (ok_inj (rw free at e)) (record {
      same_pattern = i.same_pattern;
      undirected = i.undirected;
      for_pages = i.for_pages;
    })
  ]

  add_domains-AreFor :
      (value : Str) (o o' : Options)
      → add_domains value o ≡ ok o'
      → AreFor exception pattern o
      → AreFor exception pattern o'
  unfolding add_domains
  add_domains-AreFor value o o' e i = elim (Bool-cases (is_empty value)) [
    | inl nothing ↦ absurd (ground arith)
    | inr there ↦ elim (Result-cases (scopes value b'|')) [
      | inr (m, bad) ↦ absurd (ground arith)
      | inl (scope, good) ↦
          subst (AreFor exception pattern) (ok_inj (rw (add_domains, there, good) at e)) (record {
            same_pattern = i.same_pattern;
            undirected = i.undirected;
            for_pages = i.for_pages;
          })
    ]
  ]

  add_resource-AreFor :
      (option : Str) (o o' : Options)
      → add_resource option o ≡ ok o'
      → AreFor exception pattern o
      → AreFor exception pattern o'
  unfolding add_resource
  add_resource-AreFor option o o' e i =
      elim (Option-cases (resource (trim_start (λ c. c == b'~') option))) [
        | inl unknown ↦ absurd (ground arith)
        | inr (kind, known) ↦ elim (Bool-cases (starts_with (codes "~") option)) [
          | inl neg ↦
              subst (AreFor exception pattern) (ok_inj (rw (add_resource, known, neg) at e))
                (record {
                  same_pattern = i.same_pattern;
                  undirected = i.undirected;
                  for_pages = i.for_pages;
                })
          | inr pos ↦
              subst (AreFor exception pattern) (ok_inj (rw (add_resource, known, pos) at e))
                (record {
                  same_pattern = i.same_pattern;
                  undirected = i.undirected;
                  for_pages = i.for_pages;
                })
        ]
      ]

  add_other-AreFor :
      (option : Str) (o o' : Options)
      → add_other option o ≡ ok o'
      → AreFor exception pattern o
      → AreFor exception pattern o'
  unfolding add_other
  add_other-AreFor option o o' e i = elim (Option-cases (strip_prefix (codes "domain=") option)) [
    | inl other ↦ add_resource-AreFor option o o' (rw (add_other, other) at e) i
    | inr (value, named) ↦ add_domains-AreFor value o o' (rw (add_other, named) at e) i
  ]

  match_option-AreFor :
      (option : Str) (o o' : Options)
      → match_option exception option o ≡ ok o'
      → AreFor exception pattern o
      → AreFor exception pattern o'
  unfolding match_option
  match_option-AreFor option o o' e i = elim (Bool-cases (one_of third_party_options option)) [
    | inl third ↦ add_party-AreFor (codes "thirdParty") o o' (rw third at e) i
    | inr a ↦ elim (Bool-cases (one_of first_party_options option)) [
      | inl first ↦ add_party-AreFor (codes "firstParty") o o' (rw (a, first) at e) i
      | inr b ↦ elim (Bool-cases (str_eq option (codes "match-case"))) [
        | inl sensitive ↦
            subst (AreFor exception pattern) (ok_inj (rw (a, b, sensitive) at e)) (record {
              same_pattern = i.same_pattern;
              undirected = i.undirected;
              for_pages = i.for_pages;
            })
        | inr c ↦ elim (Bool-cases (str_eq option (codes "document") && exception)) [
          | inl page ↦ subst (AreFor exception pattern) (ok_inj (rw (a, b, c, page) at e)) (record {
            same_pattern = i.same_pattern;
            undirected = i.undirected;
            for_pages = λ d. ground arith;
          })
          | inr d ↦ add_other-AreFor option o o' (rw (a, b, c, d) at e) i
        ]
      ]
    ]
  ]

  add_option-AreFor :
      (option : Str) (o o' : Options)
      → add_option exception option o ≡ ok o'
      → AreFor exception pattern o
      → AreFor exception pattern o'
  unfolding add_option
  add_option-AreFor option o o' e i =
      elim (Bool-cases (set_contains (before (codes "=") option) o.seen)) [
        | inl again ↦ absurd (ground arith)
        | inr new ↦
            match_option-AreFor option
              (record o { seen = set_insert (before (codes "=") option) o.seen }) o' (rw new at e)
              (record {
                same_pattern = i.same_pattern;
                undirected = i.undirected;
                for_pages = i.for_pages;
              })
      ]

  add_options-AreFor :
      (options : List Str) (o o' : Options)
      → add_options exception options o ≡ ok o'
      → AreFor exception pattern o
      → AreFor exception pattern o'
  unfolding add_options
  add_options-AreFor [] o o' e i = subst (AreFor exception pattern) (ok_inj e) i
  add_options-AreFor (option ∷ options) o o' e i = elim (Bool-cases (is_empty option)) [
    | inl nothing ↦ add_options-AreFor options o o' (rw (add_options, nothing) at e) i
    | inr there ↦ elim (Result-cases (add_option exception option o)) [
      | inr (m, bad) ↦ absurd (ground arith)
      | inl (next, good) ↦
          add_options-AreFor options next o' (rw (add_options, there, good) at e)
            (add_option-AreFor option o next good i)
    ]
  ]

  page_rule-IsRuleFor :
      (o : Options)
      → AreFor exception pattern o
      → o.document ≡ true
      → IsRuleFor exception pattern (page_rule o.condition)
  page_rule-IsRuleFor o i page = record {
    same_pattern = i.same_pattern;
    undirected = i.undirected;
    blocks = ground (arith, i.for_pages page);
    priority = ground (arith, i.for_pages page);
    typed = refl;
  }

  request_rule-IsRuleFor :
      (o : Options)
      → AreFor exception pattern o
      → is_empty_set (types_of o) ≡ false
      → IsRuleFor exception pattern (request_rule exception (types_of o) o.condition)
  request_rule-IsRuleFor o i typed = record {
    same_pattern = i.same_pattern;
    undirected = i.undirected;
    blocks = elim (Bool-cases exception) [ inl e ↦ rw e refl | inr e ↦ rw e refl ];
    priority = refl;
    typed = typed;
  }

  rules_of-AreRules :
      (o : Options)
      → AreFor exception pattern o
      → is_empty_set (types_of o) ≡ false
      → All (IsRuleFor exception pattern) (rules_of exception o)
  unfolding rules_of
  rules_of-AreRules o i typed =
      All-either (IsRuleFor exception pattern) o.document
        (not o.document || not (is_empty_set o.positive) || not (is_empty_set o.negative))
        (page_rule o.condition) (request_rule exception (types_of o) o.condition)
        (page_rule-IsRuleFor o i) (request_rule-IsRuleFor o i typed)

  rules_of-some : (o : Options) → is_empty_rules (rules_of exception o) ≡ false
  unfolding rules_of
  rules_of-some o = elim (Bool-cases o.document) [ inl e ↦ rw e refl | inr e ↦ rw e refl ]

-- A filter is translated into rules, and at least one: all have its pattern, which is valid, and some
-- type of resource; for an exception none blocks and all outrank the blocks, and for another filter
-- all block.
pub network-AreRules :
    (raw : Str) (rules : List BrowserRule)
    → network raw ≡ ok rules
    → (pattern_valid (split_options (without_mark raw)).0 ≡ true)
      × (is_empty_rules rules ≡ false)
      × All (IsRuleFor (starts_with (codes "@@") raw) (split_options (without_mark raw)).0) rules
unfolding network
network-AreRules raw rules e =
    let exception = starts_with (codes "@@") raw in
    let parts = split_options (without_mark raw) in
    elim (Bool-cases (pattern_valid parts.0)) [
      | inr bad ↦ absurd (ground arith)
      | inl valid ↦
          elim (Result-cases (add_options exception (split b',' parts.1) (no_options parts.0))) [
            | inr (m, bad) ↦ absurd (ground arith)
            | inl (o, good) ↦ elim (Bool-cases (is_empty_set (types_of o))) [
              | inl nothing ↦ absurd (ground arith)
              | inr typed ↦
                  let same : rules_of exception o ≡ rules =
                    ok_inj (rw (network, valid, good, typed) at e) in
                  let i =
                    add_options-AreFor exception parts.0 (split b',' parts.1) (no_options parts.0) o
                      good
                      (record {
                        same_pattern = refl;
                        undirected = refl;
                        for_pages = λ d. absurd (ground arith);
                      }) in
                  rw⁻¹ same (
                    valid,
                    rules_of-some exception parts.0 o,
                    rules_of-AreRules exception parts.0 o i typed,
                  )
            ]
          ]
    ]
