-- ===== src/Rules/Compile/Emitted.antt =====
-- companion/src/rules.rs, `compile`: each line that states a network rule has it emitted.
use not_another_ad_blocker.Prelude.{
  ℕ, ◌+◌, ◌≡◌, subst, Bool, List, [], ◌∷◌, some, arith, String, Result, ok, err, Bool-cases,
  Option-cases, inl, inr, Any,
}
use not_another_ad_blocker.Text.{Str, lines, trim, str_eq}
use not_another_ad_blocker.Text.Laws.{eq_of_str_eq, str_eq_refl}
use not_another_ad_blocker.Text.Ordered.{get, get-insert}
use not_another_ad_blocker.Rules.Syntax.{NormalizedRule, network, cosmetic}
use not_another_ad_blocker.Rules.Parse.{parse_rule}
use not_another_ad_blocker.Rules.Ids.{key_for}
use not_another_ad_blocker.Rules.Compile.{
  NetworkRule, Compilation, Progress, start, add_rule, add_line, add_lines, emit_rule, emit,
  strip_bom, compile,
}
use not_another_ad_blocker.Rules.Compile.Parts.{after_lines, compile-Parts}
use not_another_ad_blocker.Rules.Compile.Network.{States, IsRuleFor, emit_rule-IsRuleFor}

-- The key of a network rule says all of it.
pub key_for-injective :
    (pattern pattern' : Str) (e e' t t' : Bool)
    → key_for (network pattern e t) ≡ key_for (network pattern' e' t')
    → network pattern e t ≡ network pattern' e' t'
unfolding key_for
key_for-injective pattern pattern' e e' t t' h = ground arith

module _ (pattern : Str) (e t : Bool) (source : Str) where
  abbrev Held : Progress → Type 0
  Held p = get (key_for (network pattern e t)) p.network_map ≡ some (network pattern e t)

  add_rule-Held :
      (i : ℕ) (raw : Str) (r : Result String NormalizedRule) (p : Progress)
      → Held p
      → Held (add_rule source i raw r p)
  unfolding add_rule
  add_rule-Held i raw (ok (network pattern' e' t')) p h = ground (
    arith,
    get-insert (key_for (network pattern' e' t')) (key_for (network pattern e t))
        (network pattern' e' t') p.network_map,
    eq_of_str_eq (key_for (network pattern' e' t')) (key_for (network pattern e t)),
    key_for-injective pattern' pattern e' e t' t,
  )
  add_rule-Held i raw (ok (cosmetic ds s)) p h = h
  add_rule-Held i raw (err m) p h = h

  add_line-Held : (i : ℕ) (line : Str) (p : Progress) → Held p → Held (add_line source i line p)
  unfolding add_line
  add_line-Held i line p h =
      ground (arith, add_rule-Held i (trim line) (parse_rule (trim line)) p h)

  add_lines-Held : (i : ℕ) (ls : List Str) (p : Progress) → Held p → Held (add_lines source i ls p)
  unfolding add_lines
  add_lines-Held i [] p h = h
  add_lines-Held i (line ∷ rest) p h =
      add_lines-Held (i + 1) rest (add_line source i line p) (add_line-Held i line p h)

  add_line-States :
      (i : ℕ) (line : Str) (p : Progress)
      → States (network pattern e t) line
      → Held (add_line source i line p)
  unfolding add_line add_rule
  add_line-States i line p (kept, parsed) = ground (
    arith,
    get-insert (key_for (network pattern e t)) (key_for (network pattern e t)) (network pattern e t)
        p.network_map,
    str_eq_refl (key_for (network pattern e t)),
  )

  add_lines-States :
      (i : ℕ) (ls : List Str) (p : Progress)
      → Any (States (network pattern e t)) ls
      → Held (add_lines source i ls p)
  unfolding add_lines
  add_lines-States i [] p h = absurd h
  add_lines-States i (line ∷ rest) p (inl here) =
      add_lines-Held (i + 1) rest (add_line source i line p) (add_line-States i line p here)
  add_lines-States i (line ∷ rest) p (inr later) =
      add_lines-States (i + 1) rest (add_line source i line p) later

emit_complete :
    (pattern : Str) (e t : Bool) (k : Str) (ids : List (Str × ℕ)) (m : List (Str × NormalizedRule))
    (rules : List NetworkRule)
    → emit ids m ≡ some rules
    → get k m ≡ some (network pattern e t)
    → Any (IsRuleFor pattern e t) rules
unfolding emit get
emit_complete pattern e t k ids [] rules h g = cc
emit_complete pattern e t k ids ((j, cosmetic ds s) ∷ m) rules h g =
    emit_complete pattern e t k ids m rules h (ground arith)
emit_complete pattern e t k ids ((j, network pattern' e' t') ∷ m) rules h g =
    elim (Option-cases (get j ids)) [
      | inl missing ↦ absurd (ground arith)
      | inr (id, found) ↦ elim (Option-cases (emit ids m)) [
        | inl missing ↦ absurd (ground arith)
        | inr (later, done) ↦
            let whole : emit_rule id pattern' e' t' ∷ later ≡ rules = ground arith in
            subst (Any (IsRuleFor pattern e t)) whole (elim (Bool-cases (str_eq j k)) [
              | inl same ↦ inl (
                  subst (IsRuleFor pattern e t)
                    (ground (arith, key_for-injective pattern' pattern e' e t' t))
                    (emit_rule-IsRuleFor id pattern e t))
              | inr other ↦ inr (emit_complete pattern e t k ids m later done (ground arith))
            ])
      ]
    ]

-- Nothing that a line states is lost: if a line that is not ignored parses to a network rule, the
-- browser's rule for it is emitted, with its pattern and party, with priority 2 and "allow" for an exception and priority 1
-- and "block" for any other.
pub compile-network_complete :
    (text source : Str) (c : Compilation) (pattern : Str) (exception third_party : Bool)
    → compile text source ≡ some (ok c)
    → Any (States (network pattern exception third_party)) (lines (strip_bom text))
    → Any (IsRuleFor pattern exception third_party) c.network_rules
compile-network_complete text source c pattern e t h stated =
    let parts = compile-Parts text source c h in
    rw parts.whole (
      emit_complete pattern e t (key_for (network pattern e t)) parts.ids
        (after_lines text source).network_map parts.rules parts.emitted
        (add_lines-States pattern e t source 0 (lines (strip_bom text)) start stated))
