-- ===== src/Rules/Compile/Network.antt =====
-- companion/src/rules.rs, `compile`: the network rules that it emits are those that the lines
-- state, each line's among them.
use not_another_ad_blocker.Prelude.{
  ℕ, ◌+◌, ◌≡◌, refl, subst, Bool, true, false, List, [], ◌∷◌, none, some, arith, String, Result, ok,
  err, Bool-cases, Option-cases, inl, inr, All, Any, some_inj,
}
use not_another_ad_blocker.Text.{Str, codes, lines, trim, str_eq}
use not_another_ad_blocker.Text.Ordered.{get, insert}
use not_another_ad_blocker.Rules.Syntax.{resource_types, NormalizedRule, network, cosmetic}
use not_another_ad_blocker.Rules.Parse.{parse_rule}
use not_another_ad_blocker.Rules.Compile.{
  NetworkRule, Compilation, Progress, start, is_ignored, add_rule, add_line, add_lines, emit_rule,
  emit, strip_bom, compile,
}
use not_another_ad_blocker.Rules.Compile.Parts.{after_lines, compile-Parts}

-- A line states a rule: it is not ignored, and parses to it.
abbrev pub States : NormalizedRule → Str → Type 0
States rule line = (is_ignored (trim line) ≡ false) × (parse_rule (trim line) ≡ ok rule)

insert-All :
    (P : Str × NormalizedRule → Type 0) (k : Str) (v : NormalizedRule)
    (m : List (Str × NormalizedRule))
    → P (k, v)
    → ((j : Str) → str_eq j k ≡ true → P (j, v))
    → All P m
    → All P (insert k v m)
unfolding insert
insert-All P k v [] p q h = (p, tt)
insert-All P k v ((j, w) ∷ m) p q (here, later) =
    let rest = insert-All P k v m p q later in ground (arith, q j)

-- A property of every rule that a line states holds of every rule in the map.
module _ (Q : NormalizedRule → Type 0) (source : Str) where
  abbrev Keeps : Progress → Type 0
  Keeps p = All (λ e. Q e.1) p.network_map

  add_rule-Keeps :
      (i : ℕ) (raw : Str) (r : Result String NormalizedRule) (p : Progress)
      → ((rule : NormalizedRule) → r ≡ ok rule → Q rule)
      → Keeps p
      → Keeps (add_rule source i raw r p)
  unfolding add_rule
  add_rule-Keeps i raw (ok (network pattern e t)) p stated h =
      insert-All (λ e. Q e.1) _ _ p.network_map (stated _ refl) (λ j _. stated _ refl) h
  add_rule-Keeps i raw (ok (cosmetic ds s)) p stated h = h
  add_rule-Keeps i raw (err m) p stated h = h

  add_line-Keeps :
      (i : ℕ) (line : Str) (p : Progress)
      → ((rule : NormalizedRule) → States rule line → Q rule)
      → Keeps p
      → Keeps (add_line source i line p)
  unfolding add_line
  add_line-Keeps i line p stated h = elim (Bool-cases (is_ignored (trim line))) [
    | inl e ↦ rw e h
    | inr e ↦ rw e (
        add_rule-Keeps i (trim line) (parse_rule (trim line)) p (λ rule same. stated rule (e, same))
          h)
  ]

  add_lines-Keeps :
      (i : ℕ) (ls : List Str) (p : Progress)
      → ((rule : NormalizedRule) → Any (States rule) ls → Q rule)
      → Keeps p
      → Keeps (add_lines source i ls p)
  unfolding add_lines
  add_lines-Keeps i [] p stated h = h
  add_lines-Keeps i (line ∷ rest) p stated h =
      add_lines-Keeps (i + 1) rest (add_line source i line p) (λ rule a. stated rule (inr a))
        (add_line-Keeps i line p (λ rule s. stated rule (inl s)) h)

-- What the browser does on a match: an exception allows and wins, any other rule blocks.
abbrev pub ActsAs : (exception : Bool) → NetworkRule → Type 0
ActsAs true r = (r.priority ≡ 2) × (r.action.kind ≡ codes "allow")
ActsAs false r = (r.priority ≡ 1) × (r.action.kind ≡ codes "block")

-- Whose requests a rule is for: those to other parties, or all.
abbrev pub Covers : (third_party : Bool) → NetworkRule → Type 0
Covers true r = r.condition.domain_type ≡ some (codes "thirdParty")
Covers false r = r.condition.domain_type ≡ none

-- The browser's rule for a network rule, whatever its identifier.
abbrev pub IsRuleFor : (pattern : Str) (exception third_party : Bool) → NetworkRule → Type 0
IsRuleFor pattern exception third_party r =
    (r.condition.url_filter ≡ pattern)
    × (r.condition.resource_types ≡ resource_types)
    × ActsAs exception r
    × Covers third_party r

pub emit_rule-IsRuleFor :
    (id : ℕ) (pattern : Str) (e t : Bool) → IsRuleFor pattern e t (emit_rule id pattern e t)
unfolding emit_rule
emit_rule-IsRuleFor id pattern true true = (refl, refl, (refl, refl), refl)
emit_rule-IsRuleFor id pattern true false = (refl, refl, (refl, refl), refl)
emit_rule-IsRuleFor id pattern false true = (refl, refl, (refl, refl), refl)
emit_rule-IsRuleFor id pattern false false = (refl, refl, (refl, refl), refl)

abbrev pub Emits : (NormalizedRule → Type 0) → NetworkRule → Type 0
Emits Q r =
    (pattern : Str) × (exception : Bool) × (third_party : Bool) × IsRuleFor pattern exception
      third_party r
    × Q (network pattern exception third_party)

emit_sound :
    (Q : NormalizedRule → Type 0) (ids : List (Str × ℕ)) (m : List (Str × NormalizedRule))
    (rules : List NetworkRule)
    → emit ids m ≡ some rules
    → All (λ e. Q e.1) m
    → All (Emits Q) rules
unfolding emit
emit_sound Q ids [] rules h a = subst (All (Emits Q)) (some_inj h) tt
emit_sound Q ids ((k, cosmetic ds s) ∷ m) rules h (_, a) = emit_sound Q ids m rules h a
emit_sound Q ids ((k, network pattern e t) ∷ m) rules h (here, a) =
    elim (Option-cases (get k ids)) [
      | inl missing ↦ absurd (ground arith)
      | inr (id, found) ↦ elim (Option-cases (emit ids m)) [
        | inl missing ↦ absurd (ground arith)
        | inr (later, done) ↦
            let whole : emit_rule id pattern e t ∷ later ≡ rules = ground arith in
            subst (All (Emits Q)) whole (
              (pattern, e, t, emit_rule-IsRuleFor id pattern e t, here),
              emit_sound Q ids m later done a,
            )
      ]
    ]

-- Nothing is emitted that no line states: each emitted rule has the pattern, the action, the
-- priority and the party of a network rule to which a line of the text parses that is not ignored.
pub compile-network_sound :
    (text source : Str) (c : Compilation)
    → compile text source ≡ some (ok c)
    → All (Emits (λ rule. Any (States rule) (lines (strip_bom text)))) c.network_rules
compile-network_sound text source c h =
    let parts = compile-Parts text source c h in
    rw parts.whole (
      emit_sound (λ rule. Any (States rule) (lines (strip_bom text))) parts.ids
        (after_lines text source).network_map parts.rules parts.emitted
        (add_lines-Keeps (λ rule. Any (States rule) (lines (strip_bom text))) source 0
          (lines (strip_bom text)) start (λ rule a. a) tt))
