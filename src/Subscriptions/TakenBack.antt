-- ===== src/Subscriptions/TakenBack.antt =====
-- companion/src/subscription_rules.rs, `compile_subscriptions`: the rules that badfilters take back are
-- those of lines with a "badfilter" option.
use not_another_ad_blocker.Prelude.{
  ℕ, ◌+◌, ◌≡◌, refl, sym, ap, ◌∙◌, true, ◌&&◌, not, List, [], ◌∷◌, Any, arith, any, ltb, inl, inr,
  ◌⊎◌, Bool-cases, Option-cases, Result-cases, ok,
}
use not_another_ad_blocker.Text.{
  Str, codes, str_eq, len, one_of, contains, starts_with, split, split_once, trim,
}
use not_another_ad_blocker.Text.Laws.{eq_of_str_eq}
use not_another_ad_blocker.Text.Ordered.{set_insert, set_contains, contains-insert}
use not_another_ad_blocker.Subscriptions.Network.{BrowserRule, network, split_options, without_mark}
use not_another_ad_blocker.Subscriptions.Lines.{
  Progress, Place, start, no_counts, badfilter, badfilter_target, is_comment,
}
use not_another_ad_blocker.Subscriptions.Filter.{
  insert_badfilters, add_badfilter, add_filter, add_rule, add_trimmed, add_line, add_lines,
}
use not_another_ad_blocker.Subscriptions.Compile.{Source, source_lines, add_sources}
use not_another_ad_blocker.Subscriptions.Steps.{IsInjective}
use not_another_ad_blocker.Subscriptions.Sources.{HasLine}
use not_another_ad_blocker.Subscriptions.Budget.{after_sources}
use not_another_ad_blocker.Subscriptions.Untaken.{
  add_unsupported-Same, add_hide_exception-Same, add_hide-Same, add_protected-Same,
  add_exempting-Same,
}

abbrev pub options_of : Str → List Str
options_of raw = split b',' (split_options (without_mark raw)).1

-- A line takes a rule back: it has a "badfilter" option, and the rule is in the translation of the rest.
pub record TakesBack (r : BrowserRule) (raw : Str) : Type 0 where
  pub asks : any (one_of badfilter) (options_of raw) ≡ true
  pub rules : List BrowserRule
  pub translated : network (badfilter_target raw (options_of raw)) ≡ ok rules
  pub among : Any (λ s. s ≡ r) rules

module _ (show : BrowserRule → Str) (injective : IsInjective show) (r : BrowserRule) where
  -- A key that is left was there before, or the line takes the rule back.
  abbrev IsTraced : Str → Progress → Progress → Type 0
  IsTraced raw p q =
      set_contains (show r) q.badfilters ≡ true
      → (set_contains (show r) p.badfilters ≡ true) ⊎ TakesBack r raw

  of_same :
      (raw : Str) {before after : List Str}
      → after ≡ before
      → set_contains (show r) after ≡ true
      → (set_contains (show r) before ≡ true) ⊎ TakesBack r raw
  of_same raw same h = inl (sym (ap (set_contains (show r)) same) ∙ h)

  insert_badfilters-traced :
      (rules : List BrowserRule) (p : Progress)
      → set_contains (show r) (insert_badfilters show rules p).badfilters ≡ true
      → (set_contains (show r) p.badfilters ≡ true) ⊎ Any (λ s. s ≡ r) rules
  unfolding insert_badfilters
  insert_badfilters-traced [] p h = inl h
  insert_badfilters-traced (s ∷ rules) p h =
      elim (insert_badfilters-traced rules
        (record p { badfilters = set_insert (show s) p.badfilters }) h) [
          | inr a ↦ inr (inr a)
          | inl there ↦ elim (Bool-cases (str_eq (show s) (show r))) [
            | inl e ↦ inr (inl (injective s r (eq_of_str_eq (show s) (show r) e)))
            | inr e ↦ inl (ground (arith, contains-insert (show s) (show r) p.badfilters))
          ]
        ]

  add_badfilter-IsTraced :
      (at : Place) (p : Progress)
      → any (one_of badfilter) (options_of at.raw) ≡ true
      → IsTraced at.raw p (add_badfilter show at (options_of at.raw) p)
  unfolding add_badfilter
  add_badfilter-IsTraced at p asks h =
      elim (Result-cases (network (badfilter_target at.raw (options_of at.raw)))) [
        | inr (m, e) ↦
            of_same at.raw (add_unsupported-Same at (codes "Unsupported badfilter target") p)
              (rw (add_badfilter, e) at h)
        | inl (rules, e) ↦ elim (insert_badfilters-traced rules p (rw (add_badfilter, e) at h)) [
          | inl before ↦ inl before
          | inr among ↦ inr (record { asks = asks; rules = rules; translated = e; among = among })
        ]
      ]

  add_filter-IsTraced : (at : Place) (p : Progress) → IsTraced at.raw p (add_filter show at p)
  unfolding add_filter
  add_filter-IsTraced at p h = elim (Bool-cases (any (one_of badfilter) (options_of at.raw))) [
    | inl e ↦ add_badfilter-IsTraced at p e (rw (add_filter, e) at h)
    | inr e ↦
        elim (Bool-cases (
          starts_with (codes "@@") at.raw
          && any (one_of (codes "generichide" ∷ codes "elemhide" ∷ codes "document" ∷ []))
              (options_of at.raw))) [
                | inl e' ↦
                    of_same at.raw
                      (add_exempting-Same show at (split_options (without_mark at.raw)).0
                        (options_of at.raw) p)
                      (rw (add_filter, e, e') at h)
                | inr e' ↦
                    of_same at.raw
                      (add_protected-Same show at at.raw (split_options (without_mark at.raw)).0
                        (options_of at.raw) p)
                      (rw (add_filter, e, e') at h)
              ]
  ]

  add_rule-IsTraced : (at : Place) (p : Progress) → IsTraced at.raw p (add_rule show at p)
  unfolding add_rule
  add_rule-IsTraced at p h = elim (Option-cases (split_once (codes "#@#") at.raw)) [
    | inr ((scope, selector), e) ↦
        of_same at.raw (add_hide_exception-Same at scope selector p) (rw (add_rule, e) at h)
    | inl e ↦ elim (Option-cases (split_once (codes "##") at.raw)) [
      | inr ((scope, selector), e') ↦
          of_same at.raw (add_hide-Same at scope selector p) (rw (add_rule, e, e') at h)
      | inl e' ↦ elim (Bool-cases (contains (codes "#") at.raw)) [
        | inl e'' ↦ of_same at.raw (add_unsupported-Same at _ p) (rw (add_rule, e, e', e'') at h)
        | inr e'' ↦ add_filter-IsTraced at p (rw (add_rule, e, e', e'') at h)
      ]
    ]
  ]

  add_line-IsTraced :
      (source : Str) (i : ℕ) (line : Str) (p : Progress)
      → IsTraced (trim line) p (add_line show source i line p)
  unfolding add_line add_trimmed
  add_line-IsTraced source i line p h =
      let at : Place = record { source = source; line = i + 1; raw = trim line } in
      elim (Bool-cases (is_comment at.raw)) [
        | inl e ↦ inl (rw (add_trimmed, e) at h)
        | inr e ↦
            elim (Bool-cases (
              ltb 2048 (len at.raw)
              && not (starts_with (codes "@@") at.raw)
              && not (contains (codes "#@#") at.raw))) [
                | inl e' ↦
                    of_same at.raw (add_unsupported-Same at (codes "Rule exceeds 2048 bytes") p)
                      (rw (add_trimmed, e, e') at h)
                | inr e' ↦ add_rule-IsTraced at p (rw (add_trimmed, e, e') at h)
              ]
      ]

  add_lines-traced :
      (source : Str) (i : ℕ) (ls : List Str) (p : Progress)
      → set_contains (show r) (add_lines show source i ls p).badfilters ≡ true
      → (set_contains (show r) p.badfilters ≡ true)
        ⊎ ((raw : Str) × Any (λ line. trim line ≡ raw) ls × TakesBack r raw)
  unfolding add_lines
  add_lines-traced source i [] p h = inl h
  add_lines-traced source i (line ∷ rest) p h =
      elim (add_lines-traced source (i + 1) rest (add_line show source i line p) h) [
        | inr (raw, later, back) ↦ inr (raw, inr later, back)
        | inl there ↦ elim (add_line-IsTraced source i line p there) [
          | inl before ↦ inl before
          | inr back ↦ inr (trim line, inl refl, back)
        ]
      ]

  add_sources-traced :
      (sources : List Source) (p : Progress)
      → set_contains (show r) (add_sources show sources p).1.badfilters ≡ true
      → (set_contains (show r) p.badfilters ≡ true)
        ⊎ ((raw : Str) × Any (HasLine raw) sources × TakesBack r raw)
  unfolding add_sources
  add_sources-traced [] p h = inl h
  add_sources-traced (s ∷ sources) p h =
      let fresh : Progress = record p { counts = no_counts } in
      elim (add_sources-traced sources (add_lines show s.id 0 (source_lines s) fresh) h) [
        | inr (raw, later, back) ↦ inr (raw, inr later, back)
        | inl there ↦ elim (add_lines-traced s.id 0 (source_lines s) fresh there) [
          | inl before ↦ inl before
          | inr (raw, here, back) ↦ inr (raw, inl here, back)
        ]
      ]

  -- A rule that badfilters take back is one that a line of a source takes back.
  pub after_sources-TakesBack :
      (sources : List Source)
      → set_contains (show r) (after_sources show sources).badfilters ≡ true
      → (raw : Str) × Any (HasLine raw) sources × TakesBack r raw
  unfolding set_contains
  after_sources-TakesBack sources h = elim (add_sources-traced sources start h) [
    | inl never ↦ absurd (ground arith)
    | inr found ↦ found
  ]
