-- ===== src/Subscriptions/Sources.antt =====
-- companion/src/subscription_rules.rs, `compile_subscriptions`: what the loop over the sources keeps
-- of each line, where different rules have different texts.
use not_another_ad_blocker.Prelude.{
  ℕ, ◌+◌, ◌≡◌, refl, List, [], ◌∷◌, length, arith, Any, inl, inr, ok,
}
use not_another_ad_blocker.Text.{Str, trim}
use not_another_ad_blocker.Subscriptions.Network.{BrowserRule}
use not_another_ad_blocker.Subscriptions.Lines.{Counts, no_counts, Progress, start}
use not_another_ad_blocker.Subscriptions.Filter.{add_line, add_lines}
use not_another_ad_blocker.Subscriptions.Compile.{
  Source, ListStats, Subscriptions, source_lines, add_sources, give_out, compile_subscriptions,
}
use not_another_ad_blocker.Subscriptions.Budget.{compile-Parts}
use not_another_ad_blocker.Subscriptions.Steps.{
  all_counted, Grows, Grows-refl, Grows-counts, Grows-trans, IsInjective, Holds, IsStep,
}
use not_another_ad_blocker.Subscriptions.LineSteps.{add_lines-IsStep}

-- A line of the source, without the space around it.
abbrev pub HasLine : Str → Source → Type 0
HasLine raw source = Any (λ line. trim line ≡ raw) (source_lines source)

-- The statistics are for the sources in their order, and count each line once.
abbrev pub AreAccounts : List Source → List ListStats → Type 0
AreAccounts [] [] = Unit
AreAccounts [] (e ∷ stats) = ⊥
AreAccounts (s ∷ sources) [] = ⊥
AreAccounts (s ∷ sources) (e ∷ stats) =
    (e.id ≡ s.id) × (all_counted e.counts ≡ length (source_lines s)) × AreAccounts sources stats

module _ (show : BrowserRule → Str) where
  -- What only grows, and the rules.
  pub record IsLater (p q : Progress) : Type 0 where
    pub grows : Grows p q
    pub kept : (r : BrowserRule) → Holds show p r → Holds show q r

  IsLater-of_step : {n : ℕ} {p q : Progress} → IsStep show n p q → IsLater p q
  IsLater-of_step s = record { grows = s.grows; kept = s.kept }

  IsLater-trans : {p q r : Progress} → IsLater p q → IsLater q r → IsLater p r
  IsLater-trans s t = record {
    grows = Grows-trans s.grows t.grows;
    kept = λ r h. t.kept r (s.kept r h);
  }

  restart-IsLater : (p : Progress) (c : Counts) → IsLater p (record p { counts = c })
  restart-IsLater p c = record { grows = Grows-counts p c; kept = λ r h. h }

module _ (show : BrowserRule → Str) (injective : IsInjective show) where
  pub add_sources-IsLater :
      (sources : List Source) (p : Progress) → IsLater show p (add_sources show sources p).1
  unfolding add_sources
  add_sources-IsLater [] p = record { grows = Grows-refl p; kept = λ r h. h }
  add_sources-IsLater (s ∷ sources) p =
      let fresh : Progress = record p { counts = no_counts } in
      IsLater-trans show (restart-IsLater show p no_counts) (
        IsLater-trans show
          (IsLater-of_step show (add_lines-IsStep show injective s.id 0 (source_lines s) fresh))
          (add_sources-IsLater sources (add_lines show s.id 0 (source_lines s) fresh)))

  add_sources-AreAccounts :
      (sources : List Source) (p : Progress) → AreAccounts sources (add_sources show sources p).0
  unfolding add_sources
  add_sources-AreAccounts [] p = tt
  add_sources-AreAccounts (s ∷ sources) p =
      let fresh : Progress = record p { counts = no_counts } in
      let step = add_lines-IsStep show injective s.id 0 (source_lines s) fresh in
      (
        refl,
        omega (arith, step.counted),
        add_sources-AreAccounts sources (add_lines show s.id 0 (source_lines s) fresh),
      )

  -- What a line brings about, and what later lines keep.
  module _ (P : Progress → Type 0) (keep : (p q : Progress) → IsLater show p q → P p → P q)
      (raw : Str)
      (here : (source : Str) (i : ℕ) (line : Str) (p : Progress)
        → trim line ≡ raw
        → P (add_line show source i line p)) where
    add_lines-keeps :
        (source : Str) (i : ℕ) (ls : List Str) (p : Progress)
        → Any (λ line. trim line ≡ raw) ls
        → P (add_lines show source i ls p)
    unfolding add_lines
    add_lines-keeps source i [] p a = elim a [ ]
    add_lines-keeps source i (line ∷ rest) p (inl e) =
        let q = add_line show source i line p in
        keep q (add_lines show source (i + 1) rest q)
          (IsLater-of_step show (add_lines-IsStep show injective source (i + 1) rest q))
          (here source i line p e)
    add_lines-keeps source i (line ∷ rest) p (inr a) =
        add_lines-keeps source (i + 1) rest (add_line show source i line p) a

    pub add_sources-keeps :
        (sources : List Source) (p : Progress)
        → Any (HasLine raw) sources
        → P (add_sources show sources p).1
    unfolding add_sources
    add_sources-keeps [] p a = elim a [ ]
    add_sources-keeps (s ∷ sources) p (inl a) =
        let done = add_lines show s.id 0 (source_lines s) (record p { counts = no_counts }) in
        keep done (add_sources show sources done).1 (add_sources-IsLater sources done)
          (add_lines-keeps s.id 0 (source_lines s) (record p { counts = no_counts }) a)
    add_sources-keeps (s ∷ sources) p (inr a) =
        add_sources-keeps sources
          (add_lines show s.id 0 (source_lines s) (record p { counts = no_counts })) a

-- Compiled subscriptions report on each source, in their order, where the counts of accepted,
-- unsupported and ignored lines come to the number of its lines; different rules have different texts.
pub compile-AreAccounts :
    (show : BrowserRule → Str) (show_hide : List Str → List Str → Str → Str)
    → IsInjective show
    → (sources : List Source) (budget : ℕ) (out : Subscriptions)
    → compile_subscriptions show show_hide sources budget ≡ ok out
    → AreAccounts sources out.list_stats
unfolding give_out
compile-AreAccounts show show_hide injective sources budget out h =
    let parts = compile-Parts show show_hide sources budget out h in
    rw⁻¹ parts.whole (add_sources-AreAccounts show injective sources start)
