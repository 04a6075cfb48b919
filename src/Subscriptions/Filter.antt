-- ===== src/Subscriptions/Filter.antt =====
-- companion/src/subscription_rules.rs, `compile_subscriptions`: the loop over the lines of a list.
use not_another_ad_blocker.Prelude.{
  ℕ, ◌+◌, true, ◌&&◌, not, List, [], ◌∷◌, ◌++◌, none, some, ltb, any, if◌then◌else◌, ok, err,
}
use not_another_ad_blocker.Text.{
  Str, codes, str_eq, len, one_of, starts_with, contains, split, split_once, join, trim,
}
use not_another_ad_blocker.Text.Ordered.{insert, set_insert}
use not_another_ad_blocker.Subscriptions.Syntax.{pattern_valid}
use not_another_ad_blocker.Subscriptions.Network.{BrowserRule, split_options, without_mark, network}
use not_another_ad_blocker.Subscriptions.Lines.{
  Progress, Place, add_ignored, add_accepted, add_diagnostic, add_unsupported, add_hide_exception,
  add_hide, drop_options, badfilter, badfilter_target, hiding_options, is_active_option,
  add_exemption, add_page_exemption, allow_guard, frame_guard, guards_page, is_comment,
}

module _ (show : BrowserRule → Str) where
  unfoldable pub insert_rule : BrowserRule → Progress → Progress
  insert_rule r p = record p { network_rules = insert (show r) r p.network_rules }

  unfoldable pub insert_rules : List BrowserRule → Progress → Progress
  insert_rules [] p = p
  insert_rules (r ∷ rules) p = insert_rules rules (insert_rule r p)

  unfoldable pub insert_badfilters : List BrowserRule → Progress → Progress
  insert_badfilters [] p = p
  insert_badfilters (r ∷ rules) p =
      insert_badfilters rules (record p { badfilters = set_insert (show r) p.badfilters })

  unfoldable pub add_badfilter : Place → List Str → Progress → Progress
  add_badfilter at options p = elim (network (badfilter_target at.raw options)) [
    | ok rules ↦ add_ignored (insert_badfilters rules p)
    | err message ↦ add_unsupported at (codes "Unsupported badfilter target") p
  ]

  -- An exception that cannot be translated allows more, or suppresses the lists' blocks.
  unfoldable pub add_guard : Place → Str → List Str → Progress → Progress
  add_guard at pattern options p =
      if pattern_valid pattern
      then add_diagnostic at (codes "Unsupported exception protected by a broader allow guard") (
          if guards_page options
          then insert_rule (frame_guard pattern) (insert_rule (allow_guard pattern) p)
          else insert_rule (allow_guard pattern) p)
      else add_diagnostic at
          (codes "Unrepresentable exception suppresses subscription network blocks")
          (record p { suppress_network_blocks = true })

  -- The translation of a network filter, which may be `translated` from the line.
  unfoldable pub add_network : Place → Str → Str → List Str → Progress → Progress
  add_network at translated pattern options p = elim (network translated) [
    | ok rules ↦ insert_rules rules (add_accepted p)
    | err reason ↦
        if starts_with (codes "@@") at.raw
        then add_guard at pattern options (add_unsupported at (codes reason) p)
        else add_unsupported at (codes reason) p
  ]

  unfoldable pub add_protected : Place → Str → Str → List Str → Progress → Progress
  add_protected at translated pattern options p = add_network at translated pattern options (
      if starts_with (codes "@@") at.raw && any (str_eq (codes "document")) options
      then add_page_exemption pattern p
      else p)

  -- The exemption from hiding, and what is left of the line.
  unfoldable pub add_exempting : Place → Str → List Str → Progress → Progress
  add_exempting at pattern options p =
      let exempt = add_exemption pattern options p in
      if any (one_of hiding_options) options
      then (let noted =
            add_diagnostic at
              (codes
                "Cosmetic exemption applied conservatively; some hiding coverage may be omitted")
              exempt in
          let remaining = drop_options hiding_options options in
          if any is_active_option remaining
          then add_protected at
              (codes "@@" ++ (pattern ++ (codes "$" ++ join (codes ",") remaining))) pattern options
              noted
          else add_ignored noted)
      else add_protected at at.raw pattern options exempt

  -- A line that is no cosmetic rule.
  unfoldable pub add_filter : Place → Progress → Progress
  add_filter at p =
      let parts = split_options (without_mark at.raw) in
      let options = split b',' parts.1 in
      if any (one_of badfilter) options
      then add_badfilter at options p
      else if starts_with (codes "@@") at.raw
          && any (one_of (codes "generichide" ∷ codes "elemhide" ∷ codes "document" ∷ [])) options
      then add_exempting at parts.0 options p
      else add_protected at at.raw parts.0 options p

  unfoldable pub add_rule : Place → Progress → Progress
  add_rule at p = elim (split_once (codes "#@#") at.raw) [
    | some (scope, selector) ↦ add_hide_exception at scope selector p
    | none ↦ elim (split_once (codes "##") at.raw) [
      | some (scope, selector) ↦ add_hide at scope selector p
      | none ↦
          if contains (codes "#") at.raw
          then add_unsupported at (codes "Scriptlets and extended cosmetic syntax are unsupported")
              p
          else add_filter at p
    ]
  ]

  unfoldable pub add_trimmed : Place → Progress → Progress
  add_trimmed at p =
      if is_comment at.raw
      then add_ignored p
      else if ltb 2048 (len at.raw)
          && not (starts_with (codes "@@") at.raw)
          && not (contains (codes "#@#") at.raw)
      then add_unsupported at (codes "Rule exceeds 2048 bytes") p
      else add_rule at p

  unfoldable pub add_line : Str → ℕ → Str → Progress → Progress
  add_line source index original p =
      add_trimmed (record { source = source; line = index + 1; raw = trim original }) p

  unfoldable pub add_lines : Str → ℕ → List Str → Progress → Progress
  add_lines source index [] p = p
  add_lines source index (line ∷ rest) p =
      add_lines source (index + 1) rest (add_line source index line p)
