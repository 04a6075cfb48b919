-- ===== src/Subscriptions/Budget.antt =====
-- companion/src/subscription_rules.rs, `compile_subscriptions`: the budget of rules.
use not_another_ad_blocker.Prelude.{
  ℕ, ◌≤◌, ◌≡◌, refl, true, false, List, [], ◌∷◌, take, length, length-take, arith, All, Any, inl,
  inr, Bool-cases, Result-cases, ok, ltb, subst, sym,
}
use not_another_ad_blocker.Text.{Str}
use not_another_ad_blocker.Subscriptions.Network.{BrowserRule}
use not_another_ad_blocker.Subscriptions.Lines.{Progress, start}
use not_another_ad_blocker.Subscriptions.Compile.{
  Source, Subscriptions, max_network_budget, check_sources, is_empty_list, is_block,
  retain_exceptions, drop_blocks, packed_rules, supported_rules, sorted_rules, add_sources,
  give_out, within_budget, compile_subscriptions,
}
use not_another_ad_blocker.Subscriptions.Sorting.{
  AreNumbered, number_rules-AreNumbered, length-number_rules, number_rules-Any, Any-number_rules,
  sort_rules-ExceptionsFirst, sort_rules-Any, Any-sort_rules, take-exceptions, Any-take,
  retain_exceptions-All, drop_blocks-Any, Any-drop_blocks,
}

no_blocks : (rules : List BrowserRule) → Any (λ r. is_block r ≡ true) (retain_exceptions rules) → ⊥
no_blocks rules a = none_such (retain_exceptions rules) (retain_exceptions-All rules) a
  where
    none_such :
        (rs : List BrowserRule)
        → All (λ r. is_block r ≡ false) rs
        → Any (λ r. is_block r ≡ true) rs
        → ⊥
    none_such [] e a = elim a [ ]
    none_such (r ∷ rs) (e, es) (inl b) = absurd (ground arith)
    none_such (r ∷ rs) (e, es) (inr a) = none_such rs es a

-- What the lines of the sources left.
abbrev pub after_sources : (BrowserRule → Str) → List Source → Progress
after_sources show sources = (add_sources show sources start).1

module _ (show : BrowserRule → Str) (show_hide : List Str → List Str → Str → Str) where
  pub record Parts (sources : List Source) (budget : ℕ) (out : Subscriptions) : Type 0 where
    pub small : budget ≤ max_network_budget
    pub room : length (retain_exceptions (sorted_rules show (after_sources show sources))) ≤ budget
    pub whole :
        give_out show show_hide budget
          (add_sources show sources start).0
          (after_sources show sources)
        ≡ out

  pub compile-Parts :
      (sources : List Source) (budget : ℕ) (out : Subscriptions)
      → compile_subscriptions show show_hide sources budget ≡ ok out
      → Parts sources budget out
  unfolding compile_subscriptions within_budget
  compile-Parts sources budget out h = elim (Bool-cases (ltb max_network_budget budget)) [
    | inl e ↦ absurd (ground arith)
    | inr e ↦ elim (Result-cases (check_sources [] sources)) [
      | inr (m, e') ↦ absurd (ground arith)
      | inl (u, e') ↦ elim (Bool-cases (is_empty_list sources)) [
        | inl e'' ↦ absurd (ground arith)
        | inr e'' ↦
            elim (Bool-cases (
              ltb budget
                (length (retain_exceptions (sorted_rules show (after_sources show sources)))))) [
                  | inl full ↦ absurd (ground arith)
                  | inr room ↦ record {
                    small = ground arith;
                    room = ground arith;
                    whole = ground arith;
                  }
                ]
      ]
    ]
  ]

  -- Compiled subscriptions have at most as many network rules as the budget, which is at most
  -- 29,800, numbered from 1 on, and at most 10,000 hiding rules; and the statistics count them.
  pub compile-AreNumbered :
      (sources : List Source) (budget : ℕ) (out : Subscriptions)
      → compile_subscriptions show show_hide sources budget ≡ ok out
      → (length out.network_rules ≤ budget)
        × (budget ≤ 29800)
        × AreNumbered 1 out.network_rules
        × (length out.cosmetic_rules ≤ 10000)
        × (out.network ≡ length out.network_rules)
        × (out.cosmetic ≡ length out.cosmetic_rules)
  unfolding give_out
  compile-AreNumbered sources budget out h =
      let parts = compile-Parts sources budget out h in
      let kept = take budget (sorted_rules show (after_sources show sources)) in
      rw⁻¹ parts.whole (
        omega (
          arith,
          length-number_rules 1 kept,
          length-take {0} budget (sorted_rules show (after_sources show sources)),
        ),
        parts.small,
        number_rules-AreNumbered 1 kept,
        omega (arith, length-take {0}),
        sym (length-number_rules 1 kept),
        refl,
      )

  -- The budget never costs an exception: a rule other than a block that the sources, less the
  -- badfilters, come to is given out; and every rule that is given out is one that they come to.
  pub compile-exceptions :
      (Q : BrowserRule → Type 0) (sources : List Source) (budget : ℕ) (out : Subscriptions)
      → compile_subscriptions show show_hide sources budget ≡ ok out
      → (Any (λ r. Q r × (is_block r ≡ false)) (packed_rules show (after_sources show sources))
          → Any (λ e. Q e.rule) out.network_rules)
        × (Any (λ e. Q e.rule) out.network_rules
            → Any Q (packed_rules show (after_sources show sources)))
  unfolding give_out sorted_rules supported_rules
  compile-exceptions Q sources budget out h =
      let parts = compile-Parts sources budget out h in
      let p = after_sources show sources in
      rw⁻¹ parts.whole (
        (λ a. number_rules-Any Q 1 (take budget (sorted_rules show p)) (
            take-exceptions Q budget (sorted_rules show p)
              (sort_rules-ExceptionsFirst show (supported_rules show p)) parts.room
              (sort_rules-Any show (λ r. Q r × (is_block r ≡ false)) (supported_rules show p)
                (drop_blocks-Any Q p.suppress_network_blocks (packed_rules show p) a)))),
        (λ a. Any-drop_blocks Q p.suppress_network_blocks (packed_rules show p) (
            Any-sort_rules show Q (supported_rules show p) (
              Any-take Q budget (sorted_rules show p)
                (Any-number_rules Q 1 (take budget (sorted_rules show p)) a)))),
      )

  -- If some exception could not be represented, no block is given out.
  pub compile-suppressed :
      (sources : List Source) (budget : ℕ) (out : Subscriptions)
      → compile_subscriptions show show_hide sources budget ≡ ok out
      → (after_sources show sources).suppress_network_blocks ≡ true
      → Any (λ e. is_block e.rule ≡ true) out.network_rules
      → ⊥
  unfolding give_out sorted_rules supported_rules
  compile-suppressed sources budget out h suppressed a =
      let parts = compile-Parts sources budget out h in
      let p = after_sources show sources in
      let given : Any (λ e. is_block e.rule ≡ true)
          (give_out show show_hide budget (add_sources show sources start).0 p).network_rules =
        subst (λ o. Any (λ e. is_block e.rule ≡ true) o.network_rules) (sym parts.whole) a in
      let found =
        Any-sort_rules show (λ r. is_block r ≡ true)
          (drop_blocks p.suppress_network_blocks (packed_rules show p))
          (Any-take (λ r. is_block r ≡ true) budget (sorted_rules show p)
            (Any-number_rules (λ r. is_block r ≡ true) 1 (take budget (sorted_rules show p))
              given)) in
      no_blocks (packed_rules show p) (rw suppressed at found)
