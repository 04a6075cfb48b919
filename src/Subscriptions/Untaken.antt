-- ===== src/Subscriptions/Untaken.antt =====
-- companion/src/subscription_rules.rs, `compile_subscriptions`: what every line but a badfilter leaves
-- of the keys that badfilters take back.
use not_another_ad_blocker.Prelude.{
  ◌≡◌, refl, ◌∙◌, ◌&&◌, List, [], ◌∷◌, arith, any, inl, inr, Bool-cases, Option-cases, Result-cases,
}
use not_another_ad_blocker.Text.{Str, codes, str_eq, one_of, starts_with}
use not_another_ad_blocker.Rules.Selector.{valid_selector}
use not_another_ad_blocker.Subscriptions.Syntax.{scopes, pattern_valid}
use not_another_ad_blocker.Subscriptions.Network.{BrowserRule, network}
use not_another_ad_blocker.Subscriptions.Lines.{
  Progress, Place, add_accepted, add_diagnostic, add_unsupported, add_hide_exception, add_hide,
  included_scope, drop_options, hiding_options, is_active_option, add_exemption, add_page_exemption,
  guards_page,
}
use not_another_ad_blocker.Subscriptions.Filter.{
  insert_rule, insert_rules, add_guard, add_network, add_protected, add_exempting,
}

-- The keys that badfilters left are the same.
abbrev pub Same : Progress → Progress → Type 0
Same p q = q.badfilters ≡ p.badfilters

pub add_unsupported-Same :
    (at : Place) (reason : Str) (p : Progress) → Same p (add_unsupported at reason p)
unfolding add_unsupported add_diagnostic
add_unsupported-Same at reason p = refl

pub add_hide_exception-Same :
    (at : Place) (scope selector : Str) (p : Progress)
    → Same p (add_hide_exception at scope selector p)
unfolding add_hide_exception
add_hide_exception-Same at scope selector p = elim (Bool-cases (valid_selector selector)) [
  | inr e ↦ rw e (add_unsupported-Same at (codes "Unsupported cosmetic exception selector") p)
  | inl e ↦ elim (Option-cases (included_scope scope b',')) [
    | inr (domains, e') ↦ rw (e, e') refl
    | inl e' ↦ rw (e, e') refl
  ]
]

pub add_hide-Same :
    (at : Place) (scope selector : Str) (p : Progress) → Same p (add_hide at scope selector p)
unfolding add_hide
add_hide-Same at scope selector p = elim (Result-cases (scopes scope b',')) [
  | inr (m, e) ↦
      rw (add_hide, e) (add_unsupported-Same at (codes "Unsupported cosmetic selector or scope") p)
  | inl (parsed, e) ↦ elim (Bool-cases (valid_selector selector)) [
    | inr e' ↦
        rw (add_hide, e, e')
          (add_unsupported-Same at (codes "Unsupported cosmetic selector or scope") p)
    | inl e' ↦ rw (add_hide, e, e') refl
  ]
]

pub add_exemption-Same :
    (pattern : Str) (options : List Str) (p : Progress) → Same p (add_exemption pattern options p)
unfolding add_exemption
add_exemption-Same pattern options p = ground arith

pub add_page_exemption-Same : (pattern : Str) (p : Progress) → Same p (add_page_exemption pattern p)
unfolding add_page_exemption
add_page_exemption-Same pattern p = ground arith

module _ (show : BrowserRule → Str) where
  pub insert_rules-Same :
      (rules : List BrowserRule) (p : Progress) → Same p (insert_rules show rules p)
  unfolding insert_rules insert_rule
  insert_rules-Same [] p = refl
  insert_rules-Same (r ∷ rules) p = insert_rules-Same rules (insert_rule show r p)

  pub add_guard-Same :
      (at : Place) (pattern : Str) (options : List Str) (p : Progress)
      → Same p (add_guard show at pattern options p)
  unfolding add_guard add_diagnostic insert_rule
  add_guard-Same at pattern options p = elim (Bool-cases (pattern_valid pattern)) [
    | inr e ↦ rw e refl
    | inl e ↦ elim (Bool-cases (guards_page options)) [
      | inl e' ↦ rw (e, e') refl
      | inr e' ↦ rw (e, e') refl
    ]
  ]

  pub add_network-Same :
      (at : Place) (translated pattern : Str) (options : List Str) (p : Progress)
      → Same p (add_network show at translated pattern options p)
  unfolding add_network
  add_network-Same at translated pattern options p = elim (Result-cases (network translated)) [
    | inl (rules, e) ↦ rw (add_network, e) (insert_rules-Same rules (add_accepted p))
    | inr (m, e) ↦
        let noted = add_unsupported-Same at (codes m) p in
        elim (Bool-cases (starts_with (codes "@@") at.raw)) [
          | inl e' ↦
              rw (add_network, e, e')
                (add_guard-Same at pattern options (add_unsupported at (codes m) p) ∙ noted)
          | inr e' ↦ rw (add_network, e, e') noted
        ]
  ]

  pub add_protected-Same :
      (at : Place) (translated pattern : Str) (options : List Str) (p : Progress)
      → Same p (add_protected show at translated pattern options p)
  unfolding add_protected
  add_protected-Same at translated pattern options p =
      elim (Bool-cases
        (starts_with (codes "@@") at.raw && any (str_eq (codes "document")) options)) [
          | inl e ↦ rw e (
              add_network-Same at translated pattern options (add_page_exemption pattern p)
              ∙ add_page_exemption-Same pattern p)
          | inr e ↦ rw e (add_network-Same at translated pattern options p)
        ]

  pub add_exempting-Same :
      (at : Place) (pattern : Str) (options : List Str) (p : Progress)
      → Same p (add_exempting show at pattern options p)
  unfolding add_exempting add_diagnostic
  add_exempting-Same at pattern options p =
      let first = add_exemption-Same pattern options p in
      elim (Bool-cases (any (one_of hiding_options) options)) [
        | inr e ↦ rw e (add_protected-Same at at.raw pattern options _ ∙ first)
        | inl e ↦ elim (Bool-cases (any is_active_option (drop_options hiding_options options))) [
          | inl e' ↦ rw (e, e') (add_protected-Same at _ pattern options _ ∙ first)
          | inr e' ↦ rw (e, e') first
        ]
      ]
