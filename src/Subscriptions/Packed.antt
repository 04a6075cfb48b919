-- ===== src/Subscriptions/Packed.antt =====
-- companion/src/subscription_rules.rs, `pack_network`: every rule is served by one that is given out,
-- and every rule that is given out serves only rules that were collected.
use not_another_ad_blocker.Prelude.{
  ◌≡◌, refl, sym, subst, true, List, [], ◌∷◌, map, Option, none, some, length, arith, Any, inl, inr,
  Option-cases, Any-map,
}
use not_another_ad_blocker.Text.{Str}
use not_another_ad_blocker.Text.Ordered.{get, insert, set_contains, get-Any}
use not_another_ad_blocker.Subscriptions.Network.{BrowserRule}
use not_another_ad_blocker.Subscriptions.Pack.{
  packed_host, with_hosts, chunks, Group, Packing, add_host, pack_rule, pack_rules, unpack_chunks,
  unpack_groups, pack_network,
}
use not_another_ad_blocker.Subscriptions.Steps.{IsInjective}
use not_another_ad_blocker.Subscriptions.Packing.{
  IsChunkOf, chunks_from-Any, ServesAs, Serves, ServesAs-Serves, insert_shown, insert_itself,
  AreKeyed, HasHost, add_host-AreKeyed, add_host-HasHost, add_host-keeps,
}

module _ (show : BrowserRule → Str) (injective : IsInjective show) where
  -- The packing has the rule, as it is or in a group.
  abbrev HasAs : Option (BrowserRule × Str) → BrowserRule → Packing → Type 0
  HasAs none r p = get (show r) p.output ≡ some r
  HasAs (some (template, host)) r p = HasHost show injective template host p.groups

  abbrev Has : BrowserRule → Packing → Type 0
  Has r p = HasAs (packed_host r) r p

  pub pack_rule_plain :
      (r : BrowserRule) (p : Packing)
      → packed_host r ≡ none
      → pack_rule show r p ≡ record p { output = insert (show r) r p.output }
  unfolding pack_rule
  pack_rule_plain r p e = rw (pack_rule, e) refl

  pub pack_rule_host :
      (r template : BrowserRule) (host : Str) (p : Packing)
      → packed_host r ≡ some (template, host)
      → pack_rule show r p ≡ record p { groups = add_host show template host p.groups }
  unfolding pack_rule
  pack_rule_host r template host p e = rw (pack_rule, e) refl

  pub pack_rule-AreKeyed :
      (r : BrowserRule) (p : Packing)
      → AreKeyed show injective p.groups
      → AreKeyed show injective (pack_rule show r p).groups
  pack_rule-AreKeyed r p keyed = elim (Option-cases (packed_host r)) [
    | inl e ↦ subst (λ q. AreKeyed show injective q.groups) (sym (pack_rule_plain r p e)) keyed
    | inr ((template, host), e) ↦
        subst (λ q. AreKeyed show injective q.groups) (sym (pack_rule_host r template host p e))
          (add_host-AreKeyed show injective template host p.groups keyed)
  ]

  pack_rule-Has :
      (r : BrowserRule) (p : Packing)
      → AreKeyed show injective p.groups
      → Has r (pack_rule show r p)
  pack_rule-Has r p keyed = elim (Option-cases (packed_host r)) [
    | inl e ↦ subst (Has r) (sym (pack_rule_plain r p e)) (
        subst (λ o. HasAs o r (record p { output = insert (show r) r p.output })) (sym e)
          (insert_itself show injective r p.output))
    | inr ((template, host), e) ↦ subst (Has r) (sym (pack_rule_host r template host p e)) (
        subst (λ o. HasAs o r (record p { groups = add_host show template host p.groups })) (sym e)
          (add_host-HasHost show injective template host p.groups keyed))
  ]

  pack_rule-keeps :
      (r s : BrowserRule) (p : Packing) (as' : Option (BrowserRule × Str))
      → AreKeyed show injective p.groups
      → HasAs as' s p
      → HasAs as' s (pack_rule show r p)
  pack_rule-keeps r s p as' keyed h = elim (Option-cases (packed_host r)) [
    | inl e ↦ subst (HasAs as' s) (sym (pack_rule_plain r p e)) (with_output as' h)
    | inr ((template, host), e) ↦
        subst (HasAs as' s) (sym (pack_rule_host r template host p e))
          (with_group template host as' h)
  ]
    where
      with_output :
          (o : Option (BrowserRule × Str))
          → HasAs o s p
          → HasAs o s (record p { output = insert (show r) r p.output })
      with_output none g = insert_shown show injective s r p.output g
      with_output (some (t, k)) g = g

      with_group :
          (template : BrowserRule) (host : Str) (o : Option (BrowserRule × Str))
          → HasAs o s p
          → HasAs o s (record p { groups = add_host show template host p.groups })
      with_group template host none g = g
      with_group template host (some (t, k)) g =
          add_host-keeps show injective template t host k p.groups keyed g

  pack_rules-keeps :
      (s : BrowserRule) (rules : List (Str × BrowserRule)) (p : Packing)
      → AreKeyed show injective p.groups
      → Has s p
      → Has s (pack_rules show rules p)
  unfolding pack_rules
  pack_rules-keeps s [] p keyed h = h
  pack_rules-keeps s ((k, r) ∷ rules) p keyed h =
      pack_rules-keeps s rules (pack_rule show r p) (pack_rule-AreKeyed r p keyed)
        (pack_rule-keeps r s p (packed_host s) keyed h)

  pack_rules-Has :
      (s : BrowserRule) (rules : List (Str × BrowserRule)) (p : Packing)
      → AreKeyed show injective p.groups
      → Any (λ e. e.1 ≡ s) rules
      → Has s (pack_rules show rules p)
  unfolding pack_rules
  pack_rules-Has s [] p keyed a = elim a [ ]
  pack_rules-Has s ((k, r) ∷ rules) p keyed (inl same) =
      pack_rules-keeps s rules (pack_rule show r p) (pack_rule-AreKeyed r p keyed)
        (subst (λ x. Has x (pack_rule show r p)) same (pack_rule-Has r p keyed))
  pack_rules-Has s ((k, r) ∷ rules) p keyed (inr a) =
      pack_rules-Has s rules (pack_rule show r p) (pack_rule-AreKeyed r p keyed) a

  unpack_chunks-keeps :
      (s template : BrowserRule) (rest : List (List Str)) (m : List (Str × BrowserRule))
      → get (show s) m ≡ some s
      → get (show s) (unpack_chunks show template rest m) ≡ some s
  unfolding unpack_chunks
  unpack_chunks-keeps s template [] m h = h
  unpack_chunks-keeps s template (hosts ∷ rest) m h =
      unpack_chunks-keeps s template rest
        (insert (show (with_hosts hosts template)) (with_hosts hosts template) m)
        (insert_shown show injective s (with_hosts hosts template) m h)

  unpack_groups-keeps :
      (s : BrowserRule) (groups : List (Str × Group)) (m : List (Str × BrowserRule))
      → get (show s) m ≡ some s
      → get (show s) (unpack_groups show groups m) ≡ some s
  unfolding unpack_groups
  unpack_groups-keeps s [] m h = h
  unpack_groups-keeps s ((k, (template, hosts)) ∷ groups) m h =
      unpack_groups-keeps s groups (unpack_chunks show template (chunks 1000 hosts) m)
        (unpack_chunks-keeps s template (chunks 1000 hosts) m h)

  -- The rule for a chunk that holds the hostname.
  abbrev IsGiven : BrowserRule → Str → List (Str × BrowserRule) → Type 0
  IsGiven template host m =
      (hosts : List Str) × IsChunkOf host hosts
      × (get (show (with_hosts hosts template)) m ≡ some (with_hosts hosts template))

  unpack_chunks-IsGiven :
      (template : BrowserRule) (host : Str) (cs : List (List Str)) (m : List (Str × BrowserRule))
      → Any (IsChunkOf host) cs
      → IsGiven template host (unpack_chunks show template cs m)
  unfolding unpack_chunks
  unpack_chunks-IsGiven template host [] m a = elim a [ ]
  unpack_chunks-IsGiven template host (hosts ∷ cs) m (inl c) =
      let r = with_hosts hosts template in
      (
        hosts,
        c,
        unpack_chunks-keeps r template cs (insert (show r) r m) (insert_itself show injective r m),
      )
  unpack_chunks-IsGiven template host (hosts ∷ cs) m (inr a) =
      unpack_chunks-IsGiven template host cs
        (insert (show (with_hosts hosts template)) (with_hosts hosts template) m) a

  unpack_groups-IsGiven :
      (template : BrowserRule) (host : Str) (groups : List (Str × Group))
      (m : List (Str × BrowserRule))
      → Any (λ e. (e.1.0 ≡ template) × (set_contains host e.1.1 ≡ true)) groups
      → IsGiven template host (unpack_groups show groups m)
  unfolding unpack_groups chunks
  unpack_groups-IsGiven template host [] m a = elim a [ ]
  unpack_groups-IsGiven template host ((k, (t, hosts)) ∷ groups) m (inl (same, inside)) =
      let all = unpack_chunks show t (chunks 1000 hosts) m in
      let (chunk, c, found) =
        unpack_chunks-IsGiven t host (chunks 1000 hosts) m
          (chunks_from-Any host (length hosts) hosts (omega arith) inside) in
      subst (λ x. IsGiven x host (unpack_groups show groups all)) same
        (chunk, c, unpack_groups-keeps (with_hosts chunk t) groups all found)
  unpack_groups-IsGiven template host ((k, (t, hosts)) ∷ groups) m (inr a) =
      unpack_groups-IsGiven template host groups (unpack_chunks show t (chunks 1000 hosts) m) a

  Any-values :
      (Q : BrowserRule → Type 0) (m : List (Str × BrowserRule))
      → Any (λ e. Q e.1) m
      → Any Q (map (λ e. e.1) m)
  Any-values Q [] a = elim a [ ]
  Any-values Q (e ∷ m) (inl q) = inl q
  Any-values Q (e ∷ m) (inr a) = inr (Any-values Q m a)

  pub empty-AreKeyed : AreKeyed show injective []
  unfolding get
  empty-AreKeyed k g found = absurd (ground arith)

  -- Where different rules have different texts, every collected rule is served by one that is given
  -- out: by itself, or, if its pattern is a hostname between its marks and nothing else, by a rule
  -- for at most 1000 hostnames, that one in lower case among them, which agrees with it in all else.
  pub pack_network-Serves :
      (rules : List (Str × BrowserRule)) (r : BrowserRule)
      → Any (λ e. e.1 ≡ r) rules
      → Any (Serves r) (pack_network show rules)
  unfolding pack_network
  pack_network-Serves rules r a =
      let p = pack_rules show rules (record { output = []; groups = [] }) in
      let has = pack_rules-Has r rules (record { output = []; groups = [] }) empty-AreKeyed a in
      Any-map (λ o s. ServesAs-Serves r o s) (pack_network show rules)
        (Any-values (ServesAs (packed_host r) r) (unpack_groups show p.groups p.output)
          (from_packing (packed_host r) p has))
    where
      from_packing :
          (as' : Option (BrowserRule × Str)) (p : Packing)
          → HasAs as' r p
          → Any (λ e. ServesAs as' r e.1) (unpack_groups show p.groups p.output)
      from_packing none p h =
          get-Any (λ o. o ≡ r) (show r) r (unpack_groups show p.groups p.output)
            (unpack_groups-keeps r p.groups p.output h) refl
      from_packing (some (template, host)) p (hosts, found, inside) =
          let (chunk, (holds, short), given) =
            unpack_groups-IsGiven template host p.groups p.output (
              get-Any (λ g. (g.0 ≡ template) × (set_contains host g.1 ≡ true)) (show template)
                (template, hosts) p.groups found (refl, inside)) in
          get-Any (ServesAs (some (template, host)) r) (show (with_hosts chunk template))
            (with_hosts chunk template) (unpack_groups show p.groups p.output) given
            (chunk, refl, holds, short)
