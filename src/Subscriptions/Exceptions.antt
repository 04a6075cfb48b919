-- ===== src/Subscriptions/Exceptions.antt =====
-- companion/src/subscription_rules.rs, `compile_subscriptions`: the rules that keep an exception of a
-- list, from its line to what is given out.
use not_another_ad_blocker.Prelude.{
  ◌≡◌, ap, true, false, List, [], ◌∷◌, none, All, arith, any, inl, inr, ◌⊎◌, ok, err,
}
use not_another_ad_blocker.Text.{
  Str, codes, one_of, contains, starts_with, strip_prefix, split_once,
}
use not_another_ad_blocker.Text.Ordered.{set_contains}
use not_another_ad_blocker.Subscriptions.Network.{BrowserRule, network, split_options, without_mark}
use not_another_ad_blocker.Subscriptions.Lines.{
  Progress, hiding_options, badfilter, allow_guard, is_comment,
}
use not_another_ad_blocker.Subscriptions.Compile.{Subscriptions, is_block}
use not_another_ad_blocker.Subscriptions.Packing.{Serves}
use not_another_ad_blocker.Subscriptions.Steps.{IsInjective, Holds}
use not_another_ad_blocker.Subscriptions.TakenBack.{options_of}

-- An exception for requests or pages: no badfilter, and not from hiding alone.
pub record IsException (raw : Str) : Type 0 where
  pub marked : starts_with (codes "@@") raw ≡ true
  pub plain : contains (codes "#") raw ≡ false
  pub unhidden : split_once (codes "##") raw ≡ none
  pub unexcepted : split_once (codes "#@#") raw ≡ none
  pub kept : any (one_of badfilter) (options_of raw) ≡ false
  pub for_requests : any (one_of hiding_options) (options_of raw) ≡ false

-- The rules for an exception: its translation, or if there is none, a guard that allows all that
-- its pattern matches.
abbrev pub protecting : Str → List BrowserRule
protecting raw = elim (network raw) [
  | ok rules ↦ rules
  | err message ↦ allow_guard (split_options (without_mark raw)).0 ∷ []
]

pub marked-IsNotComment : (raw : Str) → starts_with (codes "@@") raw ≡ true → is_comment raw ≡ false
unfolding starts_with strip_prefix
marked-IsNotComment [] e = absurd (ground arith)
marked-IsNotComment (c ∷ s) e = ground arith

module _ (show : BrowserRule → Str) (injective : IsInjective show) where
  -- All the rules are held, or the blocks of the lists are suppressed.
  abbrev pub IsProtected : List BrowserRule → Progress → Type 0
  IsProtected rules p = (p.suppress_network_blocks ≡ true) ⊎ All (Holds show p) rules

-- What serves a rule has its action.
pub Serves-action : (r o : BrowserRule) → Serves r o → o.action ≡ r.action
Serves-action r o (inl same) = ap (λ s. s.action) same
Serves-action r o (inr packed) = ap (λ s. s.action) packed.same

-- A rule that does not block, and that no badfilter takes back.
abbrev pub IsLasting : (BrowserRule → Str) → Progress → BrowserRule → Type 0
IsLasting show p r = (is_block r ≡ false) × (set_contains (show r) p.badfilters ≡ false)
