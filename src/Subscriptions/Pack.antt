-- ===== src/Subscriptions/Pack.antt =====
-- companion/src/subscription_rules.rs, `pack_network`: rules for whole hostnames that agree in all
-- else become rules for up to 1000 hostnames.
use mathlib.Core.Option
use not_another_ad_blocker.Prelude.{
  ℕ, zero, suc, List, [], ◌∷◌, map, Option, none, some, take, drop, length, and_then, if◌then◌else◌,
}
use not_another_ad_blocker.Text.{Str, codes, strip_prefix, strip_suffix, to_ascii_lowercase}
use not_another_ad_blocker.Text.Ordered.{get, insert, set_insert}
use not_another_ad_blocker.Subscriptions.Syntax.{host_valid}
use not_another_ad_blocker.Subscriptions.Network.{BrowserRule}

-- The hostname that a pattern names, if it is nothing else.
unfoldable pub whole_host : Str → Option Str
whole_host pattern = and_then (strip_prefix (codes "||") pattern) (λ rest.
    and_then (strip_suffix (codes "^") rest) (λ host. if host_valid host then some host else none))

abbrev pub without_filter : BrowserRule → BrowserRule
without_filter r =
    let condition = r.condition in record r { condition = record condition { url_filter = none } }

-- A rule that can be packed: what it shares with others, and its hostname.
unfoldable pub packed_host : BrowserRule → Option (BrowserRule × Str)
packed_host r =
    if r.condition.case_sensitive
    then none
    else Option.map (λ host. (without_filter r, to_ascii_lowercase host))
        (whole_host (Option.get_or r.condition.url_filter []))

abbrev pub with_hosts : List Str → BrowserRule → BrowserRule
with_hosts hosts r =
    let condition = r.condition in
    record r { condition = record condition { request_domains = some hosts } }

-- `chunks`: each chunk takes an item at least, so that their number is enough fuel.
unfoldable pub chunks_from : ℕ → ℕ → List Str → List (List Str)
chunks_from zero size xs = []
chunks_from (suc fuel) size [] = []
chunks_from (suc fuel) size (x ∷ xs) =
    take size (x ∷ xs) ∷ chunks_from fuel size (drop size (x ∷ xs))

unfoldable pub chunks : ℕ → List Str → List (List Str)
chunks size xs = chunks_from (length xs) size xs

abbrev pub Group : Type 0
Group = BrowserRule × List Str

-- The rules that stay as they are, and the groups.
pub record Packing : Type 0 where
  pub output : List (Str × BrowserRule)
  pub groups : List (Str × Group)

module _ (show : BrowserRule → Str) where
  unfoldable pub add_host : BrowserRule → Str → List (Str × Group) → List (Str × Group)
  add_host template host groups =
      let group : Group = Option.get_or (get (show template) groups) (template, []) in
      insert (show template) (group.0, set_insert host group.1) groups

  -- One round of the loop over the rules.
  unfoldable pub pack_rule : BrowserRule → Packing → Packing
  pack_rule r p = elim (packed_host r) [
    | some (template, host) ↦ record p { groups = add_host template host p.groups }
    | none ↦ record p { output = insert (show r) r p.output }
  ]

  unfoldable pub pack_rules : List (Str × BrowserRule) → Packing → Packing
  pack_rules [] p = p
  pack_rules ((key, r) ∷ rules) p = pack_rules rules (pack_rule r p)

  unfoldable pub unpack_chunks :
      BrowserRule → List (List Str) → List (Str × BrowserRule) → List (Str × BrowserRule)
  unpack_chunks template [] output = output
  unpack_chunks template (hosts ∷ rest) output =
      unpack_chunks template rest
        (insert (show (with_hosts hosts template)) (with_hosts hosts template) output)

  unfoldable pub unpack_groups :
      List (Str × Group) → List (Str × BrowserRule) → List (Str × BrowserRule)
  unpack_groups [] output = output
  unpack_groups ((key, (template, hosts)) ∷ groups) output =
      unpack_groups groups (unpack_chunks template (chunks 1000 hosts) output)

  unfoldable pub pack_network : List (Str × BrowserRule) → List BrowserRule
  pack_network rules =
      let p = pack_rules rules (record { output = []; groups = [] }) in
      map (λ e. e.1) (unpack_groups p.groups p.output)
