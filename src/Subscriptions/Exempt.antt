-- ===== src/Subscriptions/Exempt.antt =====
-- companion/src/subscription_rules.rs, `compile_subscriptions`: an exemption from hiding, from its
-- line to what it leaves in the variables of the loop.
use mathlib.Core.Option
use not_another_ad_blocker.Prelude.{
  ◌≡◌, refl, sym, ap, ◌∙◌, subst, true, false, Bool, List, [], ◌∷◌, ◌++◌, Option, none, some, All,
  Any, arith, inl, inr, ◌⊎◌, Bool-cases, Option-cases, Result-cases, ok, err, ok_inj,
}
use not_another_ad_blocker.Text.{
  Str, codes, is_empty, starts_with, strip_prefix, split, to_ascii_lowercase,
}
use not_another_ad_blocker.Text.Laws.{str_eq_refl, strip_prefix-append}
use not_another_ad_blocker.Text.Ordered.{set_contains, contains-insert}
use not_another_ad_blocker.Subscriptions.Syntax.{
  tilde, host_valid, Scope, split_negative, add_scope, scope_items, bounded_scope, scopes,
  anchored_host,
}
use not_another_ad_blocker.Subscriptions.Anchored.{
  IsAnchored, anchored_host_complete, anchored_host_sound,
}
use not_another_ad_blocker.Subscriptions.Lines.{
  domain_option, included_scope, only_included, exempt_domains,
}

abbrev pub is_domain_option : Str → Bool
is_domain_option = starts_with (codes "domain=")

domain_option-none :
    (options : List Str)
    → All (λ o. is_domain_option o ≡ false) options
    → domain_option options ≡ none
unfolding domain_option starts_with
domain_option-none [] a = refl
domain_option-none (o ∷ options) (no_prefix, a) =
    elim (Option-cases (strip_prefix (codes "domain=") o)) [
      | inl e ↦ rw (domain_option, e) (domain_option-none options a)
      | inr (value, e) ↦ absurd (ground arith)
    ]

domain_option_first :
    (before after : List Str) (value : Str)
    → All (λ o. is_domain_option o ≡ false) before
    → domain_option (before ++ ((codes "domain=" ++ value) ∷ after)) ≡ some value
unfolding domain_option starts_with strip_prefix
domain_option_first [] after value a = rw (strip_prefix-append (codes "domain=") value) refl
domain_option_first (o ∷ before) after value (no_prefix, a) =
    elim (Option-cases (strip_prefix (codes "domain=") o)) [
      | inl e ↦ rw (domain_option, e) (domain_option_first before after value a)
      | inr (v, e) ↦ absurd (ground arith)
    ]

-- A domain that a scope includes stays included.
add_scope-keeps :
    (d : Str) (s : Bool × Str) (scope : Scope)
    → set_contains d scope.0 ≡ true
    → set_contains d (add_scope s scope).0 ≡ true
add_scope-keeps d (true, domain) (included, excluded) h = h
add_scope-keeps d (false, domain) (included, excluded) h =
    ground (arith, contains-insert (to_ascii_lowercase domain) d included)

scope_items-keeps :
    (d : Str) (items : List Str) (scope last : Scope)
    → scope_items items scope ≡ ok last
    → set_contains d scope.0 ≡ true
    → set_contains d last.0 ≡ true
unfolding scope_items
scope_items-keeps d [] scope last e h =
    subst (λ (x : Scope). set_contains d x.0 ≡ true) (ok_inj e) h
scope_items-keeps d (item ∷ items) scope last e h =
    elim (Bool-cases (host_valid (split_negative item).1)) [
      | inr bad ↦ absurd (ground arith)
      | inl good ↦
          scope_items-keeps d items (add_scope (split_negative item) scope) last
            (rw (scope_items, good) at e) (add_scope-keeps d (split_negative item) scope h)
    ]

scope_items-included :
    (item : Str) (items : List Str) (scope last : Scope)
    → scope_items items scope ≡ ok last
    → strip_prefix tilde item ≡ none
    → Any (λ i. i ≡ item) items
    → set_contains (to_ascii_lowercase item) last.0 ≡ true
unfolding scope_items set_contains strip_prefix
scope_items-included item [] scope last e positive a = elim a [ ]
scope_items-included item (i ∷ items) scope last e positive a =
    elim (Bool-cases (host_valid (split_negative i).1)) [
      | inr bad ↦ absurd (ground arith)
      | inl good ↦
          let rest = rw (scope_items, good) at e in
          elim a [
            | inl same ↦ scope_items-keeps (to_ascii_lowercase item) items _ last rest (
                subst
                  (λ x.
                    set_contains (to_ascii_lowercase item) (add_scope (split_negative x) scope).0
                    ≡ true)
                  (sym same)
                  (rw positive (
                    contains-insert (to_ascii_lowercase item) (to_ascii_lowercase item) scope.0
                    ∙ rw (str_eq_refl (to_ascii_lowercase item)) refl)))
            | inr later ↦ scope_items-included item items _ last rest positive later
          ]
    ]

-- The included domains of a scope that is within its bounds and has no other.
abbrev bounded_only : (included excluded : List Str) → Option (List Str)
bounded_only included excluded = elim (bounded_scope (included, excluded)) [
  | err message ↦ none
  | ok parsed ↦ only_included parsed
]

bounded_only_sound :
    (included excluded domains : List Str)
    → bounded_only included excluded ≡ some domains
    → included ≡ domains
bounded_only_sound [] excluded domains e = ground arith
bounded_only_sound (d ∷ ds) [] domains e = ground arith
bounded_only_sound (d ∷ ds) (x ∷ xs) domains e = ground arith

included_scope-contains :
    (value item : Str) (domains : List Str)
    → included_scope value b'|' ≡ some domains
    → strip_prefix tilde item ≡ none
    → Any (λ i. i ≡ item) (split b'|' value)
    → set_contains (to_ascii_lowercase item) domains ≡ true
unfolding scopes
included_scope-contains value item domains e positive a = elim (Bool-cases (is_empty value)) [
  | inl empty ↦ absurd (ground arith)
  | inr full ↦ elim (Result-cases (scope_items (split b'|' value) ([], []))) [
    | inr (m, bad) ↦ absurd (ground arith)
    | inl ((included, excluded), done) ↦
        let bounded : scopes value b'|' ≡ bounded_scope (included, excluded) =
          rw (scopes, full, done) refl in
        let same : bounded_only included excluded ≡ some domains =
          (rw (included_scope, bounded) at e) in
        subst (λ ds. set_contains (to_ascii_lowercase item) ds ≡ true)
          (bounded_only_sound included excluded domains same)
          (scope_items-included item (split b'|' value) ([], []) (included, excluded) done positive
            a)
  ]
]

-- What a filter says of the pages that it exempts from hiding: a domain, or all of them.
abbrev pub IsForPage : List Str → Type 0
IsForPage options =
    All (λ o. is_domain_option o ≡ false) options ⊎ Any (λ o. o ≡ codes "document") options

-- A filter names a domain by an item of its first "domain=" option that is not negated, or, if it has
-- no such option or is for documents, by its pattern. If it names none for certain, it is for all.
pub data Exempts (pattern : Str) (options : List Str) : Option Str → Type 0 where
  listed :
      (before after : List Str) (value item : Str)
      → options ≡ before ++ ((codes "domain=" ++ value) ∷ after)
      → All (λ o. is_domain_option o ≡ false) before
      → Any (λ i. i ≡ item) (split b'|' value)
      → strip_prefix tilde item ≡ none
      → Exempts pattern options (some (to_ascii_lowercase item))
  unlisted :
      (before after : List Str) (value : Str)
      → options ≡ before ++ ((codes "domain=" ++ value) ∷ after)
      → All (λ o. is_domain_option o ≡ false) before
      → included_scope value b'|' ≡ none
      → Exempts pattern options none
  anchored :
      (domain : Str)
      → IsForPage options
      → IsAnchored pattern domain
      → Exempts pattern options (some domain)
  unanchored :
      IsForPage options
      → ((domain : Str) → IsAnchored pattern domain → ⊥)
      → Exempts pattern options none

unanchored_none :
    (pattern : Str)
    → ((domain : Str) → IsAnchored pattern domain → ⊥)
    → anchored_host pattern ≡ none
unanchored_none pattern never = elim (Option-cases (anchored_host pattern)) [
  | inl e ↦ e
  | inr (domain, e) ↦ absurd (never domain (anchored_host_sound pattern domain e))
]

-- The domains that were found cover what is exempted.
abbrev pub Covers : Option Str → Option (List Str) → Type 0
Covers (some d) (some domains) = set_contains d domains ≡ true
Covers (some d) none = Unit
Covers none (some domains) = ⊥
Covers none none = Unit

-- They do so, or the filter is for documents and the pattern's host covers it.
pub Exempts-Covers :
    (pattern : Str) (options : List Str) (target : Option Str)
    → Exempts pattern options target
    → Covers target (exempt_domains pattern options)
      ⊎ Any (λ o. o ≡ codes "document") options
        × Covers target (Option.map (λ host. host ∷ []) (anchored_host pattern))
unfolding exempt_domains set_contains
Exempts-Covers pattern options target (listed before after value item same first inside positive) =
    let found : domain_option options ≡ some value =
      ap domain_option same ∙ domain_option_first before after value first in
    elim (Option-cases (included_scope value b'|')) [
      | inl e ↦ inl (rw (exempt_domains, found, e) tt)
      | inr (domains, e) ↦ inl (
          rw (exempt_domains, found, e)
            (included_scope-contains value item domains e positive inside))
    ]
Exempts-Covers pattern options target (unlisted before after value same first unusable) =
    let found : domain_option options ≡ some value =
      ap domain_option same ∙ domain_option_first before after value first in
    inl (rw (exempt_domains, found, unusable) tt)
Exempts-Covers pattern options target (anchored domain (inl plain) a) = inl (
    rw (exempt_domains, domain_option-none options plain, anchored_host_complete pattern domain a)
      (rw (str_eq_refl domain) refl))
Exempts-Covers pattern options target (anchored domain (inr document) a) =
    inr (document, rw (anchored_host_complete pattern domain a) (rw (str_eq_refl domain) refl))
Exempts-Covers pattern options target (unanchored (inl plain) never) =
    inl (rw (exempt_domains, domain_option-none options plain, unanchored_none pattern never) tt)
Exempts-Covers pattern options target (unanchored (inr document) never) =
    inr (document, rw (unanchored_none pattern never) tt)
