-- ===== src/Dns/Blocklist/Suffixes.antt =====
-- companion/src/dns/blocklist.rs, `suffix_match`: a rule matches its hostname and the names below
-- it, label by label.
use mathlib.Core.Option
use not_another_ad_blocker.Prelude.{
  ℕ, zero, suc, ◌≤◌, ◌≡◌, ◌≢◌, refl, sym, ap, ◌∙◌, [], ◌∷◌, ◌++◌, none, some, arith, length,
  length-append, inl, inr, ◌↔◌, Option-cases, Bool-cases, ◌==◌, append_assoc,
}
use not_another_ad_blocker.Text.{Str, codes, split_once, strip_prefix}
use not_another_ad_blocker.Text.Laws.{split_once_sound}
use not_another_ad_blocker.Text.Ordered.{get}
use not_another_ad_blocker.Dns.Blocklist.Policy.{MatchedRule, HostRules}
use not_another_ad_blocker.Dns.Blocklist.Decide.{parent_domain, suffix_match_from, suffix_match}

-- A hostname, or what stands behind one of its dots.
pub data IsDomainOf (host : Str) : Str → Type 0 where
  itself : IsDomainOf host host
  above : (below domain : Str) → host ≡ below ++ (b'.' ∷ domain) → IsDomainOf host domain

-- The rules list a hostname or a domain above it.
abbrev pub Lists : HostRules → Str → Type 0
Lists rules host = (domain : Str) × IsDomainOf host domain × (get domain rules ≢ none)

parent_domain_sound :
    (host : Str) {parent : Str}
    → parent_domain host ≡ some parent
    → (label : Str) × (host ≡ label ++ (b'.' ∷ parent))
unfolding parent_domain
parent_domain_sound host {parent} h =
    let (r, found, same) = (Option.map-eq-some_iff _ _).0 h in
    (r.0, rw (← same) (split_once_sound (codes ".") host found))

parent_domain-cons : (c : ℕ) (host : Str) → c ≢ b'.' → parent_domain (c ∷ host) ≡ parent_domain host
unfolding parent_domain split_once strip_prefix
parent_domain-cons c host ne = elim (Option-cases (split_once (b'.' ∷ []) host)) [
  | inl e ↦ ground arith
  | inr (r, e) ↦ ground arith
]

parent_domain-dot : (host : Str) → parent_domain (b'.' ∷ host) ≡ some host
unfolding parent_domain split_once strip_prefix
parent_domain-dot host = refl

-- A domain above a hostname is its parent, or stands above its parent.
parent_domain_covers :
    (host below domain : Str)
    → host ≡ below ++ (b'.' ∷ domain)
    → (parent : Str) × (parent_domain host ≡ some parent) × IsDomainOf parent domain
parent_domain_covers host [] domain e = (domain, rw e (parent_domain-dot domain), itself)
parent_domain_covers [] (c ∷ below) domain e = cc
parent_domain_covers (d ∷ host) (c ∷ below) domain e = elim (Bool-cases (d == b'.')) [
  | inl dot ↦
      let is_dot : d ≡ b'.' = ground arith in
      (host, rw is_dot (parent_domain-dot host), above below domain (ground arith))
  | inr other ↦
      let (parent, found, is_domain) = parent_domain_covers host below domain (ground arith) in
      (parent, parent_domain-cons d host (ground arith) ∙ found, is_domain)
]

IsDomainOf-trans :
    (host label parent domain : Str)
    → host ≡ label ++ (b'.' ∷ parent)
    → IsDomainOf parent domain
    → IsDomainOf host domain
IsDomainOf-trans host label parent domain e itself = above label parent e
IsDomainOf-trans host label parent domain e (above below d e') =
    above (label ++ (b'.' ∷ below)) domain (
      e
      ∙ ap (λ x. label ++ (b'.' ∷ x)) e'
      ∙ sym (append_assoc label (b'.' ∷ below) (b'.' ∷ domain)))

suffix_match_from_sound :
    (fuel : ℕ) (rules : HostRules) (host : Str) {rule : MatchedRule}
    → suffix_match_from fuel rules host ≡ some rule
    → (domain : Str) × IsDomainOf host domain × (get domain rules ≡ some rule)
unfolding suffix_match_from
suffix_match_from_sound zero rules host h = (host, itself, h)
suffix_match_from_sound (suc fuel) rules host h = elim (Option-cases (get host rules)) [
  | inr (rule, e) ↦ (host, itself, ground arith)
  | inl e ↦ elim (Option-cases (parent_domain host)) [
    | inl e' ↦ absurd (ground arith)
    | inr (parent, e') ↦
        let (domain, is_domain, found) = suffix_match_from_sound fuel rules parent (ground arith) in
        let (label, whole) = parent_domain_sound host e' in
        (domain, IsDomainOf-trans host label parent domain whole is_domain, found)
  ]
]

shorter :
    (host label parent : Str) (fuel : ℕ)
    → host ≡ label ++ (b'.' ∷ parent)
    → length host ≤ suc fuel
    → length parent ≤ fuel
shorter host label parent fuel e h =
    omega (arith, ap (length {A = ℕ}) e, length-append {0} label (b'.' ∷ parent))

suffix_match_from_complete :
    (fuel : ℕ) (rules : HostRules) (host domain : Str)
    → length host ≤ fuel
    → IsDomainOf host domain
    → get domain rules ≢ none
    → suffix_match_from fuel rules host ≢ none
unfolding suffix_match_from
suffix_match_from_complete zero rules host domain short itself listed = listed
suffix_match_from_complete zero rules host domain short (above below d e) listed =
    absurd (omega (arith, ap (length {A = ℕ}) e, length-append {0} below (b'.' ∷ domain)))
suffix_match_from_complete (suc fuel) rules host domain short itself listed = ground arith
suffix_match_from_complete (suc fuel) rules host domain short (above below d e) listed =
    let (parent, found, is_domain) = parent_domain_covers host below domain e in
    let (label, whole) = parent_domain_sound host found in
    let ih =
      suffix_match_from_complete fuel rules parent domain
        (shorter host label parent fuel whole short) is_domain listed in
    ground arith

-- `suffix_match` finds a rule exactly if the map holds one for the hostname or for a domain that
-- stands behind one of its dots, and what it finds is such a rule. Its fuel is enough.
pub suffix_match_lem :
    (rules : HostRules) (host : Str)
    → ((suffix_match rules host ≢ none) ↔ Lists rules host)
      × ((rule : MatchedRule)
          → suffix_match rules host ≡ some rule
          → (domain : Str) × IsDomainOf host domain × (get domain rules ≡ some rule))
unfolding suffix_match
suffix_match_lem rules host = ((to, from), λ rule. suffix_match_from_sound (length host) rules host)
  where
    to : suffix_match_from (length host) rules host ≢ none → Lists rules host
    to h = elim (Option-cases (suffix_match_from (length host) rules host)) [
      | inl e ↦ absurd (h e)
      | inr (rule, e) ↦
          let (domain, is_domain, found) = suffix_match_from_sound (length host) rules host e in
          (domain, is_domain, ground arith)
    ]

    from : Lists rules host → suffix_match_from (length host) rules host ≢ none
    from (domain, is_domain, listed) =
        suffix_match_from_complete (length host) rules host domain (omega arith) is_domain listed
