-- ===== src/Subscriptions/Samples.antt =====
-- companion/src/subscription_rules.rs, `Diagnostics`: the samples are few, and the counts complete.
use not_another_ad_blocker.Prelude.{
  ℕ, ◌+◌, ◌≤◌, ◌≡◌, refl, sym, subst, Bool, true, false, ◌||◌, List, [], ◌∷◌, ◌++◌, arith, length,
  length-append, leb, ltb, inl, inr, Bool-cases, ok, if◌then◌else◌,
}
use not_another_ad_blocker.Text.{Str, str_eq}
use not_another_ad_blocker.Text.Laws.{eq_of_str_eq}
use not_another_ad_blocker.Text.Ordered.{get, insert, get-insert}
use not_another_ad_blocker.Dns.Blocklist.Truncate.{truncate_utf8}
use not_another_ad_blocker.Subscriptions.Network.{BrowserRule}
use not_another_ad_blocker.Subscriptions.Diagnostics.{
  Sample, Diagnostics, no_diagnostics, max_diagnostics, count_of, increment, add,
}
use not_another_ad_blocker.Subscriptions.Lines.{Hide, start, add_diagnostic}
use not_another_ad_blocker.Subscriptions.Compile.{
  Source, Subscriptions, Hiding, is_omitted, omit, add_hides, give_out, compile_subscriptions,
}
use not_another_ad_blocker.Subscriptions.Steps.{Noted, same, one_more, IsInjective}
use not_another_ad_blocker.Subscriptions.Budget.{after_sources, compile-Parts}
use not_another_ad_blocker.Subscriptions.Sources.{add_sources-IsLater}

-- The samples for a reason.
unfoldable pub samples_for : Str → List Sample → ℕ
samples_for reason [] = 0
samples_for reason (s ∷ samples) =
    let rest = samples_for reason samples in if str_eq s.message reason then rest + 1 else rest

-- At most 200 samples, at most five of them for a reason; and where the samples are fewer than 200,
-- every reason has as many as it was given, up to five.
pub record AreBrief (samples : List Sample) (reasons : List (Str × ℕ)) (total : ℕ) : Type 0 where
  pub few : length samples ≤ 200
  pub fewer : length samples ≤ total
  pub five : (reason : Str) → samples_for reason samples ≤ 5
  pub whole :
      (reason : Str)
      → ltb (length samples) 200 ≡ true
      → samples_for reason samples
        ≡ (if leb 5 (count_of reason reasons) then 5 else count_of reason reasons)

record IsBrief (d : Diagnostics) : Type 0 where
  are_brief : AreBrief d.samples d.reasons d.total
  counted : (reason : Str) → samples_for reason d.samples ≡ count_of reason d.sampled

samples_for-append :
    (reason : Str) (xs ys : List Sample)
    → samples_for reason (xs ++ ys) ≡ samples_for reason xs + samples_for reason ys
unfolding samples_for
samples_for-append reason [] ys = omega arith
samples_for-append reason (x ∷ xs) ys = ground (arith, samples_for-append reason xs ys)

count_of-insert :
    (k reason : Str) (n : ℕ) (counts : List (Str × ℕ))
    → count_of reason (insert k n counts) ≡ (if str_eq k reason then n else count_of reason counts)
count_of-insert k reason n counts = ground (arith, get-insert k reason n counts)

no_diagnostics-IsBrief : IsBrief no_diagnostics
unfolding samples_for get
no_diagnostics-IsBrief = record {
  are_brief = record {
    few = omega arith;
    fewer = omega arith;
    five = λ reason. omega arith;
    whole = λ reason h. refl;
  };
  counted = λ reason. refl;
}

-- A further diagnostic without a sample, and one with a sample.
module _ (source : Str) (line : ℕ) (raw reason : Str) (d : Diagnostics) (i : IsBrief d) where
  add-IsBrief :
      (full : Bool)
      → (leb 5 (count_of reason d.sampled) || leb max_diagnostics (length d.samples)) ≡ full
      → IsBrief (add source line raw reason d)
  unfolding add increment samples_for
  add-IsBrief true e =
      rw (add, e)
        (record {
          are_brief = record {
            few = i.are_brief.few;
            fewer = omega (arith, i.are_brief.fewer);
            five = i.are_brief.five;
            whole = λ r h. ground (
              arith,
              i.are_brief.whole r h,
              i.counted r,
              count_of-insert reason r (count_of reason d.reasons + 1) d.reasons,
              eq_of_str_eq reason r,
            );
          };
          counted = λ r. ground (
            arith,
            i.counted r,
            count_of-insert reason r (count_of reason d.sampled) d.sampled,
            eq_of_str_eq reason r,
          );
        })
  add-IsBrief false e =
      let sample : Sample = record {
        source = source;
        line = line;
        raw = truncate_utf8 raw 2048;
        message = reason;
      } in
      let longer = length-append d.samples (sample ∷ []) in
      rw (add, e)
        (record {
          are_brief = record {
            few = ground (arith, longer);
            fewer = omega (arith, longer, i.are_brief.fewer);
            five = λ r. ground (
              arith,
              i.counted r,
              i.are_brief.five r,
              samples_for-append r d.samples (sample ∷ []),
              eq_of_str_eq reason r,
            );
            whole = λ r h. ground (
              arith,
              longer,
              i.are_brief.whole r (ground (arith, longer)),
              i.counted r,
              i.counted reason,
              samples_for-append r d.samples (sample ∷ []),
              count_of-insert reason r (count_of reason d.reasons + 1) d.reasons,
              eq_of_str_eq reason r,
            );
          };
          counted = λ r. ground (
            arith,
            i.counted r,
            samples_for-append r d.samples (sample ∷ []),
            count_of-insert reason r (count_of reason d.sampled + 1) d.sampled,
            eq_of_str_eq reason r,
          );
        })

  add-IsBrief_any : IsBrief (add source line raw reason d)
  add-IsBrief_any =
      add-IsBrief (leb 5 (count_of reason d.sampled) || leb max_diagnostics (length d.samples)) refl

Noted-IsBrief : (d : Diagnostics) → Noted no_diagnostics d → IsBrief d
Noted-IsBrief d n = from_none no_diagnostics d n refl
  where
    from_none : (c d : Diagnostics) → Noted c d → c ≡ no_diagnostics → IsBrief d
    from_none c d (same e) none_yet = subst IsBrief (sym none_yet) no_diagnostics-IsBrief
    from_none c d (one_more _ e source line raw reason n) none_yet =
        add-IsBrief_any source line raw reason e (from_none c e n none_yet)

-- The loop over the hiding rules only adds diagnostics.
add_hides-Noted :
    (show_hide : List Str → List Str → Str → Str) (hides : List Hide) (h : Hiding)
    → Noted no_diagnostics h.progress.diagnostic
    → Noted no_diagnostics (add_hides show_hide hides h).progress.diagnostic
unfolding add_hides add_diagnostic
add_hides-Noted show_hide [] h n = n
add_hides-Noted show_hide (hide ∷ hides) h n = elim (Bool-cases (is_omitted hide h.progress)) [
  | inl e ↦
      rw (add_hides, e) (add_hides-Noted show_hide hides (omit hide h) (one_more _ _ _ _ _ _ n))
  | inr e ↦ rw (add_hides, e) (add_hides-Noted show_hide hides _ n)
]

-- The diagnostics of compiled subscriptions are few: at most 200 samples, and at most five for a
-- reason; and where they are fewer than 200, a reason that was given at most five times has all of
-- its samples. Different rules have different texts.
pub compile-AreBrief :
    (show : BrowserRule → Str) (show_hide : List Str → List Str → Str → Str)
    → IsInjective show
    → (sources : List Source) (budget : ℕ) (out : Subscriptions)
    → compile_subscriptions show show_hide sources budget ≡ ok out
    → AreBrief out.diagnostics out.unsupported_reasons out.coverage.diagnostics_total
unfolding give_out
compile-AreBrief show show_hide injective sources budget out h =
    let parts = compile-Parts show show_hide sources budget out h in
    let p = after_sources show sources in
    let later = add_sources-IsLater show injective sources start in
    rw⁻¹ parts.whole
      (Noted-IsBrief _ (
        add_hides-Noted show_hide p.hides (record { rules = []; progress = p; omitted = 0 })
          later.grows.noted)).are_brief
