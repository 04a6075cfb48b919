-- ===== src/Subscriptions/Hiding.antt =====
-- companion/src/subscription_rules.rs, `compile_subscriptions`: hiding rules honor the exemptions.
use mathlib.Core.Option
use not_another_ad_blocker.Prelude.{
  ℕ, zero, suc, ◌+◌, ◌≤◌, ◌≡◌, true, false, List, [], ◌∷◌, map, take, All, arith, length, inl, inr,
  Bool-cases, ok, if◌then◌else◌,
}
use not_another_ad_blocker.Text.{Str, str_eq, is_some}
use not_another_ad_blocker.Text.Ordered.{get, set_insert, set_contains, contains-insert, insert-All}
use not_another_ad_blocker.Subscriptions.Network.{BrowserRule, is_empty_set}
use not_another_ad_blocker.Subscriptions.Diagnostics.{Diagnostics}
use not_another_ad_blocker.Subscriptions.Lines.{Hide, Progress, set_extend, add_diagnostic}
use not_another_ad_blocker.Subscriptions.Compile.{
  Source, HidingRule, Subscriptions, excluded_for, is_omitted, hiding_rule, insert_new, add_hides,
  max_cosmetic, give_out, compile_subscriptions,
}
use not_another_ad_blocker.Subscriptions.Steps.{set_extend-contains}
use not_another_ad_blocker.Subscriptions.Budget.{after_sources, compile-Parts}

-- A hiding rule that honors the exemptions.
pub record IsHonoring (p : Progress) (rule : HidingRule) : Type 0 where
  pub allowed : p.suppress_cosmetic ≡ false
  pub allowed_generic : is_empty_set rule.domains ≡ true → p.suppress_generic ≡ false
  pub not_suppressed : set_contains rule.selector p.suppressed_selectors ≡ false
  pub few : length rule.excluded_domains ≤ 200
  pub pages :
      (d : Str) → set_contains d p.all_excluded ≡ true → set_contains d rule.excluded_domains ≡ true
  pub generic :
      (d : Str)
      → is_empty_set rule.domains ≡ true
      → set_contains d p.generic_excluded ≡ true
      → set_contains d rule.excluded_domains ≡ true
  pub exceptions :
      (d : Str)
      → set_contains d (Option.get_or (get rule.selector p.exception_domains) []) ≡ true
      → set_contains d rule.excluded_domains ≡ true

-- The texts that are put in are contained.
pub extend-contains :
    (ks s : List Str) (d : Str) → set_contains d ks ≡ true → set_contains d (set_extend ks s) ≡ true
unfolding set_extend set_contains
extend-contains [] s d h = absurd (ground arith)
extend-contains (k ∷ ks) s d h = elim (Bool-cases (str_eq k d)) [
  | inl e ↦ set_extend-contains ks (set_insert k s) d (ground (arith, contains-insert k d s))
  | inr e ↦ extend-contains ks (set_insert k s) d (ground arith)
]

hiding_rule-IsHonoring :
    (hide : Hide) (p : Progress) → is_omitted hide p ≡ false → IsHonoring p (hiding_rule hide p)
unfolding is_omitted excluded_for
hiding_rule-IsHonoring hide p kept =
    let own = set_extend p.all_excluded (set_extend hide.excluded []) in
    let last = Option.get_or (get hide.selector p.exception_domains) [] in
    record {
      allowed = ground arith;
      allowed_generic = λ e. ground arith;
      not_suppressed = ground arith;
      few = ground arith;
      pages = λ d h.
          let inside = extend-contains p.all_excluded (set_extend hide.excluded []) d h in
          set_extend-contains last
            (if is_empty_set hide.domains then set_extend p.generic_excluded own else own) d
            (ground (arith, set_extend-contains p.generic_excluded own d inside));
      generic = λ d e h.
          set_extend-contains last
            (if is_empty_set hide.domains then set_extend p.generic_excluded own else own) d
            (ground (arith, extend-contains p.generic_excluded own d h));
      exceptions = λ d h. extend-contains last _ d h;
    }

insert_new-All :
    (Q : HidingRule → Type 0) (key : Str) (rule : HidingRule) (rules : List (Str × HidingRule))
    → Q rule
    → All (λ e. Q e.1) rules
    → All (λ e. Q e.1) (insert_new key rule rules)
unfolding insert_new
insert_new-All Q key rule rules q a = elim (Bool-cases (is_some (get key rules))) [
  | inl e ↦ rw e a
  | inr e ↦ rw e (insert-All Q key rule rules q a)
]

-- The diagnostics do not matter.
of_noted :
    (p : Progress) (d : Diagnostics) (rule : HidingRule)
    → IsHonoring (record p { diagnostic = d }) rule
    → IsHonoring p rule
of_noted p d rule i = record {
  allowed = i.allowed;
  allowed_generic = i.allowed_generic;
  not_suppressed = i.not_suppressed;
  few = i.few;
  pages = i.pages;
  generic = i.generic;
  exceptions = i.exceptions;
}

add_hides-AreHonoring :
    (show_hide : List Str → List Str → Str → Str) (p : Progress) (hides : List Hide)
    (rules : List (Str × HidingRule)) (d : Diagnostics) (omitted : ℕ)
    → All (λ e. IsHonoring p e.1) rules
    → All
        (λ e. IsHonoring p e.1)
        (add_hides show_hide hides (record {
          rules = rules;
          progress = record p { diagnostic = d };
          omitted = omitted;
        })).rules
unfolding add_hides add_diagnostic
add_hides-AreHonoring show_hide p [] rules d omitted a = a
add_hides-AreHonoring show_hide p (hide ∷ hides) rules d omitted a =
    let q : Progress = record p { diagnostic = d } in
    elim (Bool-cases (is_omitted hide q)) [
      | inl e ↦ rw (add_hides, e) (add_hides-AreHonoring show_hide p hides rules _ (omitted + 1) a)
      | inr e ↦
          rw (add_hides, e)
            (add_hides-AreHonoring show_hide p hides _ d omitted (
              insert_new-All (IsHonoring p) _ (hiding_rule hide q) rules
                (of_noted p d (hiding_rule hide q) (hiding_rule-IsHonoring hide q e)) a))
    ]

All-values_take :
    (P : HidingRule → Type 0) (n : ℕ) (m : List (Str × HidingRule))
    → All (λ e. P e.1) m
    → All P (take n (map (λ e. e.1) m))
All-values_take P zero m a = tt
All-values_take P (suc n) [] a = tt
All-values_take P (suc n) (e ∷ m) (p, a) = (p, All-values_take P n m a)

-- Every hiding rule that is given out honors the exemptions of all the sources: none is given out where
-- hiding is suppressed, or its selector is, and each excludes the exempted pages, the domains of the
-- exceptions to its selector and, if it is for all domains, the domains exempted from such rules.
pub compile-AreHonoring :
    (show : BrowserRule → Str) (show_hide : List Str → List Str → Str → Str) (sources : List Source)
    (budget : ℕ) (out : Subscriptions)
    → compile_subscriptions show show_hide sources budget ≡ ok out
    → All (IsHonoring (after_sources show sources)) out.cosmetic_rules
unfolding give_out
compile-AreHonoring show show_hide sources budget out h =
    let parts = compile-Parts show show_hide sources budget out h in
    let p = after_sources show sources in
    rw⁻¹ parts.whole (
      All-values_take (IsHonoring p) max_cosmetic _
        (add_hides-AreHonoring show_hide p p.hides [] p.diagnostic 0 tt))
