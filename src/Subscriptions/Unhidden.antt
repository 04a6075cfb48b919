-- ===== src/Subscriptions/Unhidden.antt =====
-- companion/src/subscription_rules.rs, `compile_subscriptions`: an exception to a hiding rule, from its
-- line to what is given out.
use not_another_ad_blocker.Prelude.{
  ℕ, ◌+◌, ◌≡◌, refl, ◌∙◌, true, false, ◌&&◌, not, List, none, some, All, All-map, Any, arith, ltb,
  ok,
}
use not_another_ad_blocker.Text.{Str, codes, len, contains, starts_with, split_once, trim}
use not_another_ad_blocker.Text.Laws.{str_eq_refl}
use not_another_ad_blocker.Text.Ordered.{set_contains, contains-insert}
use not_another_ad_blocker.Rules.Selector.{valid_selector, canonical_selector}
use not_another_ad_blocker.Subscriptions.Network.{BrowserRule}
use not_another_ad_blocker.Subscriptions.Lines.{
  Progress, Place, start, included_scope, is_comment, add_hide_exception,
}
use not_another_ad_blocker.Subscriptions.Filter.{add_rule, add_trimmed, add_line}
use not_another_ad_blocker.Subscriptions.Compile.{Source, Subscriptions, compile_subscriptions}
use not_another_ad_blocker.Subscriptions.Steps.{IsInjective}
use not_another_ad_blocker.Subscriptions.Sources.{HasLine, add_sources-keeps}
use not_another_ad_blocker.Subscriptions.Hiding.{compile-AreHonoring}

-- "scope#@#selector", where the scope does not only include domains.
pub record IsUnhiding (raw selector : Str) : Type 0 where
  pub written : is_comment raw ≡ false
  pub scope : Str
  pub parts : split_once (codes "#@#") raw ≡ some (scope, selector)
  pub valid : valid_selector selector ≡ true
  pub everywhere : included_scope scope b',' ≡ none

abbrev IsSuppressed : Str → Progress → Type 0
IsSuppressed selector p = set_contains (canonical_selector selector) p.suppressed_selectors ≡ true

add_hide_exception-IsSuppressed :
    (at : Place) (scope selector : Str) (p : Progress)
    → valid_selector selector ≡ true
    → included_scope scope b',' ≡ none
    → IsSuppressed selector (add_hide_exception at scope selector p)
unfolding add_hide_exception
add_hide_exception-IsSuppressed at scope selector p valid everywhere =
    rw (valid, everywhere)
      (contains-insert (canonical_selector selector) (canonical_selector selector)
          p.suppressed_selectors
        ∙ rw (str_eq_refl (canonical_selector selector)) refl)

contains-split :
    (raw scope selector : Str)
    → split_once (codes "#@#") raw ≡ some (scope, selector)
    → contains (codes "#@#") raw ≡ true
unfolding contains
contains-split raw scope selector e = rw e refl

no_long :
    (raw : Str)
    → contains (codes "#@#") raw ≡ true
    → (ltb 2048 (len raw) && not (starts_with (codes "@@") raw) && not (contains (codes "#@#") raw))
      ≡ false
no_long raw e = ground (arith, e)

module _ (show : BrowserRule → Str) where
  add_rule-IsSuppressed :
      (at : Place) (selector : Str) (p : Progress)
      → IsUnhiding at.raw selector
      → IsSuppressed selector (add_rule show at p)
  unfolding add_rule
  add_rule-IsSuppressed at selector p x =
      rw (add_rule, x.parts)
        (add_hide_exception-IsSuppressed at x.scope selector p x.valid x.everywhere)

  add_line-IsSuppressed :
      (raw selector source : Str) (i : ℕ) (line : Str) (p : Progress)
      → IsUnhiding raw selector
      → trim line ≡ raw
      → IsSuppressed selector (add_line show source i line p)
  unfolding add_line add_trimmed
  add_line-IsSuppressed raw selector source i line p x e =
      let at : Place = record { source = source; line = i + 1; raw = raw } in
      let short : (ltb 2048 (len raw)
            && not (starts_with (codes "@@") raw)
            && not (contains (codes "#@#") raw))
          ≡ false =
        no_long raw (contains-split raw x.scope selector x.parts) in
      rw (e, x.written, short) (add_rule-IsSuppressed at selector p x)

-- Where a line of a source takes a selector back, other than on included domains only, no hiding rule
-- with that selector is given out. Different rules have different texts.
pub compile-unhides :
    (show : BrowserRule → Str) (show_hide : List Str → List Str → Str → Str)
    → IsInjective show
    → (sources : List Source) (budget : ℕ) (out : Subscriptions) (raw selector : Str)
    → compile_subscriptions show show_hide sources budget ≡ ok out
    → Any (HasLine raw) sources
    → IsUnhiding raw selector
    → All (λ rule. rule.selector ≡ canonical_selector selector → ⊥) out.cosmetic_rules
compile-unhides show show_hide injective sources budget out raw selector h line x =
    let suppressed =
      add_sources-keeps show injective (IsSuppressed selector) (λ p q l s. l.grows.selectors _ s)
        raw (λ source i l p e. add_line-IsSuppressed show raw selector source i l p x e) sources
        start line in
    All-map (λ rule i e. absurd (ground (arith, suppressed, i.not_suppressed, e)))
      out.cosmetic_rules (compile-AreHonoring show show_hide sources budget out h)
