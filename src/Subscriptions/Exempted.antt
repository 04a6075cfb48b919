-- ===== src/Subscriptions/Exempted.antt =====
-- companion/src/subscription_rules.rs, `compile_subscriptions`: an exemption from hiding, from its
-- line to the hiding rules that are given out.
use mathlib.Core.Option
use not_another_ad_blocker.Prelude.{◌≡◌, Bool, true, false, [], ◌∷◌, Option, none, some, any, ◌⊎◌}
use not_another_ad_blocker.Text.{Str, codes, one_of, contains, starts_with, split_once}
use not_another_ad_blocker.Text.Ordered.{set_contains}
use not_another_ad_blocker.Subscriptions.Network.{is_empty_set}
use not_another_ad_blocker.Subscriptions.Lines.{Progress, badfilter}
use not_another_ad_blocker.Subscriptions.Compile.{HidingRule, Subscriptions}
use not_another_ad_blocker.Subscriptions.TakenBack.{options_of}

-- An exception with an option against hiding: "elemhide" and "document" are against all hiding, and
-- "generichide" alone is against the rules that are for all domains.
pub record IsExemption (raw : Str) (everything : Bool) : Type 0 where
  pub marked : starts_with (codes "@@") raw ≡ true
  pub plain : contains (codes "#") raw ≡ false
  pub unhidden : split_once (codes "##") raw ≡ none
  pub unexcepted : split_once (codes "#@#") raw ≡ none
  pub kept : any (one_of badfilter) (options_of raw) ≡ false
  pub asks :
      any (one_of (codes "generichide" ∷ codes "elemhide" ∷ codes "document" ∷ [])) (options_of raw)
      ≡ true
  pub reach : any (one_of (codes "elemhide" ∷ codes "document" ∷ [])) (options_of raw) ≡ everything

-- The variables hold the exemption of a domain, or of all pages.
abbrev IsExempt : Bool → Option Str → Progress → Type 0
IsExempt true (some d) p = (p.suppress_cosmetic ≡ true) ⊎ (set_contains d p.all_excluded ≡ true)
IsExempt true none p = p.suppress_cosmetic ≡ true
IsExempt false (some d) p = (p.suppress_generic ≡ true) ⊎ (set_contains d p.generic_excluded ≡ true)
IsExempt false none p = p.suppress_generic ≡ true

-- A hiding rule leaves a domain alone, or all pages: as any rule, or if it is for all domains.
abbrev pub Honors : Bool → Option Str → HidingRule → Type 0
Honors true (some d) rule = set_contains d rule.excluded_domains ≡ true
Honors true none rule = ⊥
Honors false (some d) rule =
    (is_empty_set rule.domains ≡ false) ⊎ (set_contains d rule.excluded_domains ≡ true)
Honors false none rule = is_empty_set rule.domains ≡ false
