-- ===== src/Subscriptions/LineSteps.antt =====
-- companion/src/subscription_rules.rs: each line is counted once and loses no rule, where different
-- rules have different texts.
use not_another_ad_blocker.Prelude.{
  ℕ, ◌+◌, ◌≡◌, refl, subst, true, ◌&&◌, not, All, List, [], ◌∷◌, arith, any, length, ltb, inl, inr,
  Bool-cases, Option-cases, Result-cases,
}
use not_another_ad_blocker.Text.{
  Str, codes, str_eq, len, one_of, contains, starts_with, split, split_once, trim,
}
use not_another_ad_blocker.Text.Laws.{eq_of_str_eq, str_eq_refl}
use not_another_ad_blocker.Text.Ordered.{get-insert}
use not_another_ad_blocker.Subscriptions.Syntax.{pattern_valid}
use not_another_ad_blocker.Subscriptions.Network.{BrowserRule, network, split_options, without_mark}
use not_another_ad_blocker.Subscriptions.Lines.{
  Progress, Place, add_accepted, add_unsupported, drop_options, badfilter, badfilter_target,
  hiding_options, is_active_option, add_exemption, add_page_exemption, allow_guard, frame_guard,
  guards_page, is_comment,
}
use not_another_ad_blocker.Subscriptions.Filter.{
  insert_rule, insert_rules, insert_badfilters, add_badfilter, add_guard, add_network,
  add_protected, add_exempting, add_filter, add_rule, add_trimmed, add_line, add_lines,
}
use not_another_ad_blocker.Subscriptions.Steps.{
  same, IsInjective, Holds, IsStep, IsStep-refl, IsStep-trans, after_quiet, before_quiet,
  add_ignored-IsStep, add_accepted-IsStep, add_diagnostic-IsStep, add_unsupported-IsStep,
  add_hide_exception-IsStep, add_hide-IsStep, add_exemption-IsStep, add_page_exemption-IsStep,
  insert_badfilters-IsStep,
}

module _ (show : BrowserRule → Str) (injective : IsInjective show) where
  -- A rule that is put in is held, and displaces no other.
  pub insert_rule-Holds : (r : BrowserRule) (p : Progress) → Holds show (insert_rule show r p) r
  unfolding insert_rule
  insert_rule-Holds r p =
      ground (arith, get-insert (show r) (show r) r p.network_rules, str_eq_refl (show r))

  pub insert_rule-IsStep : (r : BrowserRule) (p : Progress) → IsStep show 0 p (insert_rule show r p)
  unfolding insert_rule
  insert_rule-IsStep r p = record {
    grows = record {
      noted = same p.diagnostic;
      suppressed = λ h. h;
      unhidden = λ h. h;
      unhidden_generic = λ h. h;
      generically = λ d h. h;
      excluded = λ d h. h;
      selectors = λ s h. h;
    };
    counted = omega arith;
    kept = λ s h. elim (Bool-cases (str_eq (show r) (show s))) [
      | inl e ↦
          let equal : r ≡ s = injective r s (eq_of_str_eq (show r) (show s) e) in
          ground (arith, get-insert (show r) (show s) r p.network_rules, equal)
      | inr e ↦ ground (arith, get-insert (show r) (show s) r p.network_rules)
    ];
  }

  insert_rules-IsStep :
      (rules : List BrowserRule) (p : Progress) → IsStep show 0 p (insert_rules show rules p)
  unfolding insert_rules
  insert_rules-IsStep [] p = IsStep-refl show p
  insert_rules-IsStep (r ∷ rules) p =
      after_quiet show 0 (insert_rule-IsStep r p) (insert_rules-IsStep rules (insert_rule show r p))

  pub insert_rules-Holds :
      (rules : List BrowserRule) (p : Progress) → All (Holds show (insert_rules show rules p)) rules
  unfolding insert_rules
  insert_rules-Holds [] p = tt
  insert_rules-Holds (r ∷ rules) p = (
    (insert_rules-IsStep rules (insert_rule show r p)).kept r (insert_rule-Holds r p),
    insert_rules-Holds rules (insert_rule show r p),
  )

  add_badfilter-IsStep :
      (at : Place) (options : List Str) (p : Progress)
      → IsStep show 1 p (add_badfilter show at options p)
  unfolding add_badfilter
  add_badfilter-IsStep at options p =
      elim (Result-cases (network (badfilter_target at.raw options))) [
        | inl (rules, e) ↦
            rw (add_badfilter, e)
              (after_quiet show 1 (insert_badfilters-IsStep show rules p)
                (add_ignored-IsStep show (insert_badfilters show rules p)))
        | inr (m, e) ↦
            rw (add_badfilter, e)
              (add_unsupported-IsStep show at (codes "Unsupported badfilter target") p)
      ]

  suppress-IsStep : (p : Progress) → IsStep show 0 p (record p { suppress_network_blocks = true })
  suppress-IsStep p = record {
    grows = record {
      noted = same p.diagnostic;
      suppressed = λ h. refl;
      unhidden = λ h. h;
      unhidden_generic = λ h. h;
      generically = λ d h. h;
      excluded = λ d h. h;
      selectors = λ s h. h;
    };
    counted = omega arith;
    kept = λ r h. h;
  }

  add_guard-IsStep :
      (at : Place) (pattern : Str) (options : List Str) (p : Progress)
      → IsStep show 0 p (add_guard show at pattern options p)
  unfolding add_guard
  add_guard-IsStep at pattern options p = elim (Bool-cases (pattern_valid pattern)) [
    | inr e ↦ rw e (
        after_quiet show 0 (suppress-IsStep p) (
          add_diagnostic-IsStep show at
            (codes "Unrepresentable exception suppresses subscription network blocks") _))
    | inl e ↦
        let guarded = insert_rule-IsStep (allow_guard pattern) p in
        elim (Bool-cases (guards_page options)) [
          | inl e' ↦
              rw (e, e')
                (after_quiet show 0
                  (after_quiet show 0 guarded (
                    insert_rule-IsStep (frame_guard pattern)
                      (insert_rule show (allow_guard pattern) p)))
                  (add_diagnostic-IsStep show at
                    (codes "Unsupported exception protected by a broader allow guard") _))
          | inr e' ↦
              rw (e, e')
                (after_quiet show 0 guarded (
                  add_diagnostic-IsStep show at
                    (codes "Unsupported exception protected by a broader allow guard") _))
        ]
  ]

  pub add_network-IsStep :
      (at : Place) (translated pattern : Str) (options : List Str) (p : Progress)
      → IsStep show 1 p (add_network show at translated pattern options p)
  unfolding add_network
  add_network-IsStep at translated pattern options p = elim (Result-cases (network translated)) [
    | inl (rules, e) ↦
        rw (add_network, e)
          (before_quiet show 1 (add_accepted-IsStep show p)
            (insert_rules-IsStep rules (add_accepted p)))
    | inr (m, e) ↦
        let noted = add_unsupported-IsStep show at (codes m) p in
        elim (Bool-cases (starts_with (codes "@@") at.raw)) [
          | inl e' ↦
              rw (add_network, e, e')
                (before_quiet show 1 noted
                  (add_guard-IsStep at pattern options (add_unsupported at (codes m) p)))
          | inr e' ↦ rw (add_network, e, e') noted
        ]
  ]

  add_protected-IsStep :
      (at : Place) (translated pattern : Str) (options : List Str) (p : Progress)
      → IsStep show 1 p (add_protected show at translated pattern options p)
  unfolding add_protected
  add_protected-IsStep at translated pattern options p =
      elim (Bool-cases
        (starts_with (codes "@@") at.raw && any (str_eq (codes "document")) options)) [
          | inl e ↦ rw e (
              after_quiet show 1 (add_page_exemption-IsStep show pattern p)
                (add_network-IsStep at translated pattern options (add_page_exemption pattern p)))
          | inr e ↦ rw e (add_network-IsStep at translated pattern options p)
        ]

  -- What follows the exemption.
  pub add_exempting-later :
      (at : Place) (pattern : Str) (options : List Str) (p : Progress)
      → IsStep show 1 (add_exemption pattern options p) (add_exempting show at pattern options p)
  unfolding add_exempting
  add_exempting-later at pattern options p =
      let exempt = add_exemption pattern options p in
      elim (Bool-cases (any (one_of hiding_options) options)) [
        | inr e ↦ rw e (add_protected-IsStep at at.raw pattern options exempt)
        | inl e ↦
            let noted =
              add_diagnostic-IsStep show at
                (codes
                  "Cosmetic exemption applied conservatively; some hiding coverage may be omitted")
                exempt in
            elim (Bool-cases (any is_active_option (drop_options hiding_options options))) [
              | inl e' ↦
                  rw (e, e')
                    (after_quiet show 1 noted (add_protected-IsStep at _ pattern options _))
              | inr e' ↦ rw (e, e') (after_quiet show 1 noted (add_ignored-IsStep show _))
            ]
      ]

  add_exempting-IsStep :
      (at : Place) (pattern : Str) (options : List Str) (p : Progress)
      → IsStep show 1 p (add_exempting show at pattern options p)
  add_exempting-IsStep at pattern options p =
      after_quiet show 1 (add_exemption-IsStep show pattern options p)
        (add_exempting-later at pattern options p)

  pub add_filter-IsStep : (at : Place) (p : Progress) → IsStep show 1 p (add_filter show at p)
  unfolding add_filter
  add_filter-IsStep at p =
      let parts = split_options (without_mark at.raw) in
      let options = split b',' parts.1 in
      elim (Bool-cases (any (one_of badfilter) options)) [
        | inl e ↦ rw e (add_badfilter-IsStep at options p)
        | inr e ↦
            elim (Bool-cases (
              starts_with (codes "@@") at.raw
              && any (one_of (codes "generichide" ∷ codes "elemhide" ∷ codes "document" ∷ []))
                  options)) [
                    | inl e' ↦ rw (e, e') (add_exempting-IsStep at parts.0 options p)
                    | inr e' ↦ rw (e, e') (add_protected-IsStep at at.raw parts.0 options p)
                  ]
      ]

  add_rule-IsStep : (at : Place) (p : Progress) → IsStep show 1 p (add_rule show at p)
  unfolding add_rule
  add_rule-IsStep at p = elim (Option-cases (split_once (codes "#@#") at.raw)) [
    | inr ((scope, selector), e) ↦
        rw (add_rule, e) (add_hide_exception-IsStep show at scope selector p)
    | inl e ↦ elim (Option-cases (split_once (codes "##") at.raw)) [
      | inr ((scope, selector), e') ↦
          rw (add_rule, e, e') (add_hide-IsStep show at scope selector p)
      | inl e' ↦ elim (Bool-cases (contains (codes "#") at.raw)) [
        | inl e'' ↦ rw (add_rule, e, e', e'') (add_unsupported-IsStep show at _ p)
        | inr e'' ↦ rw (add_rule, e, e', e'') (add_filter-IsStep at p)
      ]
    ]
  ]

  pub add_line-IsStep :
      (source : Str) (i : ℕ) (line : Str) (p : Progress)
      → IsStep show 1 p (add_line show source i line p)
  unfolding add_line add_trimmed
  add_line-IsStep source i line p =
      let at : Place = record { source = source; line = i + 1; raw = trim line } in
      elim (Bool-cases (is_comment at.raw)) [
        | inl e ↦ rw e (add_ignored-IsStep show p)
        | inr e ↦
            elim (Bool-cases (
              ltb 2048 (len at.raw)
              && not (starts_with (codes "@@") at.raw)
              && not (contains (codes "#@#") at.raw))) [
                | inl e' ↦
                    rw (e, e') (add_unsupported-IsStep show at (codes "Rule exceeds 2048 bytes") p)
                | inr e' ↦ rw (e, e') (add_rule-IsStep at p)
              ]
      ]

  pub add_lines-IsStep :
      (source : Str) (i : ℕ) (ls : List Str) (p : Progress)
      → IsStep show (length ls) p (add_lines show source i ls p)
  unfolding add_lines
  add_lines-IsStep source i [] p = IsStep-refl show p
  add_lines-IsStep source i (line ∷ rest) p =
      subst (λ k. IsStep show k p (add_lines show source i (line ∷ rest) p)) (omega arith)
        (IsStep-trans show 1 (length rest) (add_line-IsStep source i line p)
          (add_lines-IsStep source (i + 1) rest (add_line show source i line p)))
