-- ===== src/Subscriptions/Justified.antt =====
-- companion/src/subscription_rules.rs, `pack_network`: compacting broadens no rule.
use mathlib.Core.Option
use not_another_ad_blocker.Prelude.{
  ◌≤◌, ◌≡◌, refl, sym, subst, true, List, [], ◌∷◌, map, Option, none, some, length, arith, All, Any,
  All-map, inl, inr, ◌⊎◌, Bool-cases, Option-cases,
}
use not_another_ad_blocker.Text.{Str, str_eq}
use not_another_ad_blocker.Text.Laws.{eq_of_str_eq}
use not_another_ad_blocker.Text.Ordered.{
  get, insert, set_insert, set_contains, contains-insert, insert-All, get-All,
}
use not_another_ad_blocker.Subscriptions.Network.{BrowserRule}
use not_another_ad_blocker.Subscriptions.Pack.{
  packed_host, with_hosts, chunks, chunks_from, Group, Packing, add_host, pack_rule, pack_rules,
  unpack_chunks, unpack_groups, pack_network,
}
use not_another_ad_blocker.Subscriptions.WholeHosts.{IsWholeHost, packed_host-IsWholeHost}
use not_another_ad_blocker.Subscriptions.Steps.{IsInjective}
use not_another_ad_blocker.Subscriptions.Packing.{
  AreKeyed, old_group, add_host-AreKeyed, chunks_from-All,
}
use not_another_ad_blocker.Subscriptions.Packed.{pack_rule_plain, pack_rule_host, empty-AreKeyed}

-- A rule that was collected.
abbrev pub Collected : List (Str × BrowserRule) → BrowserRule → Type 0
Collected rules r = Any (λ e. e.1 ≡ r) rules

-- A collected rule for a whole hostname.
abbrev pub IsHostRule : List (Str × BrowserRule) → BrowserRule → Str → Type 0
IsHostRule rules template host = (r : BrowserRule) × Collected rules r × IsWholeHost r template host

-- A rule for hostnames, for each of which a rule was collected that agrees with it in all else.
abbrev pub IsForHosts : (BrowserRule → Str → Type 0) → BrowserRule → Type 0
IsForHosts H o =
    (template : BrowserRule) × (hosts : List Str) × (o ≡ with_hosts hosts template)
    × (length hosts ≤ 1000)
    × ((h : Str) → set_contains h hosts ≡ true → H template h)

none_inside : (h : Str) → set_contains h [] ≡ true → ⊥
unfolding set_contains
none_inside h inside = absurd (ground arith)

-- A rule that stays as it is satisfies the one property, a packed one the other.
abbrev Fits : (BrowserRule → Type 0) → (BrowserRule → Str → Type 0) → BrowserRule → Type 0
Fits Q H r =
    (packed_host r ≡ none → Q r)
    × ((template : BrowserRule) (host : Str)
        → packed_host r ≡ some (template, host)
        → H template host)

module _ (show : BrowserRule → Str) (injective : IsInjective show) (Q : BrowserRule → Type 0)
    (H : BrowserRule → Str → Type 0) where
  record IsPacking (p : Packing) : Type 0 where
    keyed : AreKeyed show injective p.groups
    plain : All (λ e. Q e.1) p.output
    grouped : All (λ e. (h : Str) → set_contains h e.1.1 ≡ true → H e.1.0 h) p.groups

  add_host-grouped :
      (template : BrowserRule) (host : Str) (groups : List (Str × Group))
      → AreKeyed show injective groups
      → H template host
      → All (λ e. (h : Str) → set_contains h e.1.1 ≡ true → H e.1.0 h) groups
      → All
          (λ e. (h : Str) → set_contains h e.1.1 ≡ true → H e.1.0 h)
          (add_host show template host groups)
  unfolding add_host
  add_host-grouped template host groups keyed q a =
      let old = Option.get_or (get (show template) groups) (template, []) in
      let same = old_group show injective template groups keyed in
      insert-All (λ (g : Group). (h : Str) → set_contains h g.1 ≡ true → H g.0 h) (show template)
        (old.0, set_insert host old.1) groups
        (λ h inside. elim (Bool-cases (str_eq host h)) [
          | inl e ↦
              subst (λ k. H old.0 k) (eq_of_str_eq host h e) (subst (λ t. H t host) (sym same) q)
          | inr e ↦
              old_hosts (get (show template) groups) refl h
                (ground (arith, contains-insert host h old.1))
        ])
        a
    where
      old_hosts :
          (o : Option Group)
          → get (show template) groups ≡ o
          → (h : Str)
          → set_contains h (Option.get_or (get (show template) groups) (template, [])).1 ≡ true
          → H (Option.get_or (get (show template) groups) (template, [])).0 h
      old_hosts none e h inside = absurd (
          none_inside h (
            subst (λ (x : Option Group). set_contains h (Option.get_or x (template, [])).1 ≡ true) e
              inside))
      old_hosts (some g) e h inside =
          subst (λ (x : Option Group). H (Option.get_or x (template, [])).0 h) (sym e)
            (get-All (λ (g : Group). (h : Str) → set_contains h g.1 ≡ true → H g.0 h)
              (show template) g groups e a h
              (subst
                (λ (x : Option Group). set_contains h (Option.get_or x (template, [])).1 ≡ true) e
                inside))

  pack_rule-IsPacking :
      (r : BrowserRule) (p : Packing) → Fits Q H r → IsPacking p → IsPacking (pack_rule show r p)
  pack_rule-IsPacking r p (alone, packed) i = elim (Option-cases (packed_host r)) [
    | inl e ↦ subst IsPacking (sym (pack_rule_plain show injective r p e)) (record {
      keyed = i.keyed;
      plain = insert-All Q (show r) r p.output (alone e) i.plain;
      grouped = i.grouped;
    })
    | inr ((template, host), e) ↦
        subst IsPacking (sym (pack_rule_host show injective r template host p e)) (record {
          keyed = add_host-AreKeyed show injective template host p.groups i.keyed;
          grouped =
              add_host-grouped template host p.groups i.keyed (packed template host e) i.grouped;
          plain = i.plain;
        })
  ]

  pack_rules-IsPacking :
      (rules : List (Str × BrowserRule)) (p : Packing)
      → All (λ e. Fits Q H e.1) rules
      → IsPacking p
      → IsPacking (pack_rules show rules p)
  unfolding pack_rules
  pack_rules-IsPacking [] p fits i = i
  pack_rules-IsPacking ((k, r) ∷ rules) p (fit, fits) i =
      pack_rules-IsPacking rules (pack_rule show r p) fits (pack_rule-IsPacking r p fit i)

  -- The rules that are given out.
  abbrev IsOut : BrowserRule → Type 0
  IsOut o = Q o ⊎ IsForHosts H o

  unpack_chunks-IsOut :
      (template : BrowserRule) (cs : List (List Str)) (m : List (Str × BrowserRule))
      → All
          (λ hosts.
            (length hosts ≤ 1000) × ((h : Str) → set_contains h hosts ≡ true → H template h))
          cs
      → All (λ e. IsOut e.1) m
      → All (λ e. IsOut e.1) (unpack_chunks show template cs m)
  unfolding unpack_chunks
  unpack_chunks-IsOut template [] m ok a = a
  unpack_chunks-IsOut template (hosts ∷ cs) m ((short, inside), ok) a =
      unpack_chunks-IsOut template cs
        (insert (show (with_hosts hosts template)) (with_hosts hosts template) m) ok
        (insert-All IsOut (show (with_hosts hosts template)) (with_hosts hosts template) m
          (inr (template, hosts, refl, short, inside)) a)

  unpack_groups-IsOut :
      (groups : List (Str × Group)) (m : List (Str × BrowserRule))
      → All (λ e. (h : Str) → set_contains h e.1.1 ≡ true → H e.1.0 h) groups
      → All (λ e. IsOut e.1) m
      → All (λ e. IsOut e.1) (unpack_groups show groups m)
  unfolding unpack_groups chunks
  unpack_groups-IsOut [] m ok a = a
  unpack_groups-IsOut ((k, (template, hosts)) ∷ groups) m (inside, ok) a =
      unpack_groups-IsOut groups (unpack_chunks show template (chunks 1000 hosts) m) ok (
        unpack_chunks-IsOut template (chunks 1000 hosts) m
          (All-map (λ c (short, among). (short, λ h e. inside h (among h e)))
            (chunks_from (length hosts) 1000 hosts) (chunks_from-All (length hosts) hosts))
          a)

Fits-of_rule :
    (rules rest : List (Str × BrowserRule))
    → ((r : BrowserRule) → Collected rest r → Collected rules r)
    → All (λ e. Fits (λ o. (packed_host o ≡ none) × Collected rules o) (IsHostRule rules) e.1) rest
Fits-of_rule rules [] among = tt
Fits-of_rule rules ((k, r) ∷ rest) among = (
  (λ e. (e, among r (inl refl)), λ t h e. (r, among r (inl refl), packed_host-IsWholeHost r t h e)),
  Fits-of_rule rules rest (λ s c. among s (inr c)),
)

All-values :
    (P : BrowserRule → Type 0) (m : List (Str × BrowserRule))
    → All (λ e. P e.1) m
    → All P (map (λ e. e.1) m)
All-values P [] a = tt
All-values P (e ∷ m) (p, a) = (p, All-values P m a)

-- A rule that is given out is a collected one that is not for a whole hostname alone, or it is for at
-- most 1000 hostnames, for each of which a rule was collected whose pattern is "||", that hostname
-- and "^", in any case of its letters, and which agrees with it in all else: compacting broadens no
-- rule, where different rules have different texts.
pub pack_network-justified :
    (show : BrowserRule → Str) (injective : IsInjective show) (rules : List (Str × BrowserRule))
    → All
        (λ o. ((packed_host o ≡ none) × Collected rules o) ⊎ IsForHosts (IsHostRule rules) o)
        (pack_network show rules)
unfolding pack_network
pack_network-justified show injective rules =
    let Q : BrowserRule → Type 0 = λ o. (packed_host o ≡ none) × Collected rules o in
    let H = IsHostRule rules in
    let i =
      pack_rules-IsPacking show injective Q H rules (record { output = []; groups = [] })
        (Fits-of_rule rules rules (λ r c. c))
        (record { keyed = empty-AreKeyed show injective; plain = tt; grouped = tt }) in
    All-values (λ o. Q o ⊎ IsForHosts H o) _
      (unpack_groups-IsOut show injective Q H _ _ i.grouped (All-map (λ e q. inl q) _ i.plain))
