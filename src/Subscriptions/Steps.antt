-- ===== src/Subscriptions/Steps.antt =====
-- companion/src/subscription_rules.rs: what every line keeps of what the lines before it left.
use not_another_ad_blocker.Prelude.{
  ℕ, ◌+◌, ◌≡◌, ◌∙◌, ap, subst, true, List, [], ◌∷◌, some, arith, inl, inr, Bool-cases, Option-cases,
  Result-cases,
}
use not_another_ad_blocker.Text.{Str, codes}
use not_another_ad_blocker.Text.Ordered.{get, set_insert, set_contains, contains-insert}
use not_another_ad_blocker.Rules.Selector.{valid_selector, canonical_selector}
use not_another_ad_blocker.Subscriptions.Syntax.{scopes, anchored_host}
use not_another_ad_blocker.Subscriptions.Network.{BrowserRule}
use not_another_ad_blocker.Subscriptions.Diagnostics.{Diagnostics, add}
use not_another_ad_blocker.Subscriptions.Lines.{
  Counts, Progress, Place, add_ignored, add_accepted, add_diagnostic, add_unsupported, set_extend,
  included_scope, add_hide_exception, add_hide, exempt_domains, add_exemption, add_page_exemption,
}
use not_another_ad_blocker.Subscriptions.Filter.{insert_badfilters}

-- The diagnostics come from others by additions.
pub data Noted : Diagnostics → Diagnostics → Type 0 where
  same : (d : Diagnostics) → Noted d d
  one_more :
      (d e : Diagnostics) (source : Str) (line : ℕ) (raw reason : Str)
      → Noted d e
      → Noted d (add source line raw reason e)

Noted-trans : {d e f : Diagnostics} → Noted d e → Noted e f → Noted d f
Noted-trans n (same d) = n
Noted-trans n (one_more d e source line raw reason m) =
    one_more _ e source line raw reason (Noted-trans n m)

abbrev pub all_counted : Counts → ℕ
all_counted c = c.accepted_network + (c.accepted_cosmetic + (c.unsupported + c.ignored))

-- What only grows: the exemptions.
pub record Grows (p q : Progress) : Type 0 where
  pub noted : Noted p.diagnostic q.diagnostic
  pub suppressed : p.suppress_network_blocks ≡ true → q.suppress_network_blocks ≡ true
  pub unhidden : p.suppress_cosmetic ≡ true → q.suppress_cosmetic ≡ true
  pub unhidden_generic : p.suppress_generic ≡ true → q.suppress_generic ≡ true
  pub generically :
      (d : Str)
      → set_contains d p.generic_excluded ≡ true
      → set_contains d q.generic_excluded ≡ true
  pub excluded :
      (d : Str) → set_contains d p.all_excluded ≡ true → set_contains d q.all_excluded ≡ true
  pub selectors :
      (s : Str)
      → set_contains s p.suppressed_selectors ≡ true
      → set_contains s q.suppressed_selectors ≡ true

pub Grows-refl : (p : Progress) → Grows p p
Grows-refl p = record {
  noted = same p.diagnostic;
  suppressed = λ e. e;
  unhidden = λ e. e;
  unhidden_generic = λ e. e;
  generically = λ d e. e;
  excluded = λ d e. e;
  selectors = λ s e. e;
}

pub Grows-counts : (p : Progress) (c : Counts) → Grows p (record p { counts = c })
Grows-counts p c = record {
  noted = same p.diagnostic;
  suppressed = λ e. e;
  unhidden = λ e. e;
  unhidden_generic = λ e. e;
  generically = λ d e. e;
  excluded = λ d e. e;
  selectors = λ s e. e;
}

pub Grows-trans : {p q r : Progress} → Grows p q → Grows q r → Grows p r
Grows-trans g h = record {
  noted = Noted-trans g.noted h.noted;
  suppressed = λ e. h.suppressed (g.suppressed e);
  unhidden = λ e. h.unhidden (g.unhidden e);
  unhidden_generic = λ e. h.unhidden_generic (g.unhidden_generic e);
  generically = λ d e. h.generically d (g.generically d e);
  excluded = λ d e. h.excluded d (g.excluded d e);
  selectors = λ s e. h.selectors s (g.selectors s e);
}

pub set_extend-contains :
    (ks s : List Str) (d : Str) → set_contains d s ≡ true → set_contains d (set_extend ks s) ≡ true
unfolding set_extend
set_extend-contains [] s d h = h
set_extend-contains (k ∷ ks) s d h =
    set_extend-contains ks (set_insert k s) d (ground (arith, contains-insert k d s))

abbrev pub IsInjective : (BrowserRule → Str) → Type 0
IsInjective show = (r s : BrowserRule) → show r ≡ show s → r ≡ s

module _ (show : BrowserRule → Str) where
  -- The rule is among those collected.
  abbrev pub Holds : Progress → BrowserRule → Type 0
  Holds p r = get (show r) p.network_rules ≡ some r

  -- A change that counts `n` lines, and loses no rule.
  pub record IsStep (n : ℕ) (p q : Progress) : Type 0 where
    pub grows : Grows p q
    pub counted : all_counted q.counts ≡ all_counted p.counts + n
    pub kept : (r : BrowserRule) → Holds p r → Holds q r

  pub IsStep-refl : (p : Progress) → IsStep 0 p p
  IsStep-refl p = record { grows = Grows-refl p; counted = omega arith; kept = λ r h. h }

  pub IsStep-trans : (n m : ℕ) {p q r : Progress} → IsStep n p q → IsStep m q r → IsStep (n + m) p r
  IsStep-trans n m s t = record {
    grows = Grows-trans s.grows t.grows;
    counted = t.counted ∙ ap (λ k. k + m) s.counted ∙ omega arith;
    kept = λ r h. t.kept r (s.kept r h);
  }

  -- A step after one that counts nothing, and before one.
  pub after_quiet : (n : ℕ) {p q r : Progress} → IsStep 0 p q → IsStep n q r → IsStep n p r
  after_quiet n {p} {r} s t = subst (λ k. IsStep k p r) (omega arith) (IsStep-trans 0 n s t)

  pub before_quiet : (n : ℕ) {p q r : Progress} → IsStep n p q → IsStep 0 q r → IsStep n p r
  before_quiet n {p} {r} s t = subst (λ k. IsStep k p r) (omega arith) (IsStep-trans n 0 s t)

  pub add_ignored-IsStep : (p : Progress) → IsStep 1 p (add_ignored p)
  add_ignored-IsStep p = record { grows = Grows-counts p _; counted = omega arith; kept = λ r h. h }

  pub add_accepted-IsStep : (p : Progress) → IsStep 1 p (add_accepted p)
  add_accepted-IsStep p = record {
    grows = Grows-counts p _;
    counted = omega arith;
    kept = λ r h. h;
  }

  pub add_diagnostic-IsStep :
      (at : Place) (reason : Str) (p : Progress) → IsStep 0 p (add_diagnostic at reason p)
  unfolding add_diagnostic
  add_diagnostic-IsStep at reason p = record {
    grows = record {
      noted = one_more _ _ at.source at.line at.raw reason (same p.diagnostic);
      suppressed = λ e. e;
      unhidden = λ e. e;
      unhidden_generic = λ e. e;
      generically = λ d e. e;
      excluded = λ d e. e;
      selectors = λ s e. e;
    };
    counted = omega arith;
    kept = λ r h. h;
  }

  pub add_unsupported-IsStep :
      (at : Place) (reason : Str) (p : Progress) → IsStep 1 p (add_unsupported at reason p)
  unfolding add_unsupported
  add_unsupported-IsStep at reason p =
      let c = p.counts in
      let counted : Progress = record p { counts = record c { unsupported = c.unsupported + 1 } } in
      let first : IsStep 1 p counted = record {
        grows = Grows-counts p _;
        counted = omega arith;
        kept = λ r h. h;
      } in
      before_quiet 1 first (add_diagnostic-IsStep at reason counted)

  pub add_hide_exception-IsStep :
      (at : Place) (scope selector : Str) (p : Progress)
      → IsStep 1 p (add_hide_exception at scope selector p)
  unfolding add_hide_exception
  add_hide_exception-IsStep at scope selector p = elim (Bool-cases (valid_selector selector)) [
    | inr e ↦ rw e (add_unsupported-IsStep at (codes "Unsupported cosmetic exception selector") p)
    | inl e ↦ elim (Option-cases (included_scope scope b',')) [
      | inr (domains, e') ↦
          rw (e, e')
            (record {
              grows = record {
                noted = same p.diagnostic;
                suppressed = λ h. h;
                unhidden = λ h. h;
                unhidden_generic = λ h. h;
                generically = λ d h. h;
                excluded = λ d h. h;
                selectors = λ s h. h;
              };
              counted = omega arith;
              kept = λ r h. h;
            })
      | inl e' ↦
          rw (e, e')
            (record {
              grows = record {
                noted = same p.diagnostic;
                suppressed = λ h. h;
                unhidden = λ h. h;
                unhidden_generic = λ h. h;
                generically = λ d h. h;
                excluded = λ d h. h;
                selectors = λ s h.
                    ground (
                      arith,
                      contains-insert (canonical_selector selector) s p.suppressed_selectors,
                    );
              };
              counted = omega arith;
              kept = λ r h. h;
            })
    ]
  ]

  pub add_hide-IsStep :
      (at : Place) (scope selector : Str) (p : Progress) → IsStep 1 p (add_hide at scope selector p)
  unfolding add_hide
  add_hide-IsStep at scope selector p = elim (Result-cases (scopes scope b',')) [
    | inr (m, e) ↦
        rw (add_hide, e)
          (add_unsupported-IsStep at (codes "Unsupported cosmetic selector or scope") p)
    | inl (parsed, e) ↦ elim (Bool-cases (valid_selector selector)) [
      | inr e' ↦
          rw (add_hide, e, e')
            (add_unsupported-IsStep at (codes "Unsupported cosmetic selector or scope") p)
      | inl e' ↦
          rw (add_hide, e, e')
            (record {
              grows = record {
                noted = same p.diagnostic;
                suppressed = λ h. h;
                unhidden = λ h. h;
                unhidden_generic = λ h. h;
                generically = λ d h. h;
                excluded = λ d h. h;
                selectors = λ s h. h;
              };
              counted = omega arith;
              kept = λ r h. h;
            })
    ]
  ]

  pub add_exemption-IsStep :
      (pattern : Str) (options : List Str) (p : Progress)
      → IsStep 0 p (add_exemption pattern options p)
  unfolding add_exemption
  add_exemption-IsStep pattern options p = record {
    grows = record {
      noted = subst (Noted p.diagnostic) (ground arith) (same p.diagnostic);
      suppressed = λ h. ground arith;
      unhidden = λ h. ground arith;
      unhidden_generic = λ h. ground arith;
      generically = λ d h. elim (Option-cases (exempt_domains pattern options)) [
        | inl e ↦ ground arith
        | inr (domains, e) ↦ ground (arith, set_extend-contains domains p.generic_excluded d h)
      ];
      excluded = λ d h. elim (Option-cases (exempt_domains pattern options)) [
        | inl e ↦ ground arith
        | inr (domains, e) ↦ ground (arith, set_extend-contains domains p.all_excluded d h)
      ];
      selectors = λ s h. ground arith;
    };
    counted = ground arith;
    kept = λ r h. ground arith;
  }

  pub add_page_exemption-IsStep :
      (pattern : Str) (p : Progress) → IsStep 0 p (add_page_exemption pattern p)
  unfolding add_page_exemption
  add_page_exemption-IsStep pattern p = record {
    grows = record {
      noted = subst (Noted p.diagnostic) (ground arith) (same p.diagnostic);
      suppressed = λ h. ground arith;
      unhidden = λ h. ground arith;
      unhidden_generic = λ h. ground arith;
      generically = λ d h. ground arith;
      excluded = λ d h. elim (Option-cases (anchored_host pattern)) [
        | inl e ↦ ground arith
        | inr (host, e) ↦ ground (arith, contains-insert host d p.all_excluded)
      ];
      selectors = λ s h. ground arith;
    };
    counted = ground arith;
    kept = λ r h. ground arith;
  }

  pub insert_badfilters-IsStep :
      (rules : List BrowserRule) (p : Progress) → IsStep 0 p (insert_badfilters show rules p)
  unfolding insert_badfilters
  insert_badfilters-IsStep [] p = IsStep-refl p
  insert_badfilters-IsStep (r ∷ rules) p =
      let q : Progress = record p { badfilters = set_insert (show r) p.badfilters } in
      let first : IsStep 0 p q = record {
        grows = record {
          noted = same p.diagnostic;
          suppressed = λ h. h;
          unhidden = λ h. h;
          unhidden_generic = λ h. h;
          generically = λ d h. h;
          excluded = λ d h. h;
          selectors = λ s h. h;
        };
        counted = omega arith;
        kept = λ r' h. h;
      } in
      after_quiet 0 first (insert_badfilters-IsStep rules q)
