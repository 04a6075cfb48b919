-- ===== src/Subscriptions/WholeHosts.antt =====
-- companion/src/subscription_rules.rs, `pack_network`: the rules that are for a whole hostname.
use mathlib.Core.Option
use not_another_ad_blocker.Prelude.{
  ◌≡◌, refl, sym, ap, ◌∙◌, true, false, [], ◌++◌, none, some, some_inj, arith, inl, inr, Bool-cases,
  Option-cases,
}
use not_another_ad_blocker.Text.{Str, codes, strip_prefix, strip_suffix, to_ascii_lowercase}
use not_another_ad_blocker.Text.Laws.{strip_prefix_sound, strip_suffix_sound}
use not_another_ad_blocker.Subscriptions.Syntax.{host_valid}
use not_another_ad_blocker.Subscriptions.Network.{BrowserRule}
use not_another_ad_blocker.Subscriptions.Pack.{whole_host, without_filter, packed_host}

-- The pattern is a hostname between its marks and nothing else, and the case of URLs does not matter.
pub record IsWholeHost (r template : BrowserRule) (host : Str) : Type 0 where
  pub written : Str
  pub pattern : r.condition.url_filter ≡ some (codes "||" ++ (written ++ codes "^"))
  pub valid : host_valid written ≡ true
  pub lowered : to_ascii_lowercase written ≡ host
  pub lax : r.condition.case_sensitive ≡ false
  pub shared : template ≡ without_filter r

whole_host_sound :
    (pattern host : Str)
    → whole_host pattern ≡ some host
    → (pattern ≡ codes "||" ++ (host ++ codes "^")) × (host_valid host ≡ true)
unfolding whole_host
whole_host_sound pattern host e = elim (Option-cases (strip_prefix (codes "||") pattern)) [
  | inl missing ↦ absurd (ground arith)
  | inr (rest, begins) ↦ elim (Option-cases (strip_suffix (codes "^") rest)) [
    | inl missing ↦ absurd (ground arith)
    | inr (h, ends) ↦ elim (Bool-cases (host_valid h)) [
      | inr bad ↦ absurd (ground arith)
      | inl good ↦
          let same : h ≡ host = some_inj (rw (whole_host, begins, ends, good) at e) in
          rw⁻¹ same (
            strip_prefix_sound (codes "||") pattern begins
                ∙ ap (λ s. codes "||" ++ s) (strip_suffix_sound (codes "^") rest ends),
            good,
          )
    ]
  ]
]

packed_host_lem :
    (r : BrowserRule) (h : Str)
    → whole_host (Option.get_or r.condition.url_filter []) ≡ some h
    → r.condition.case_sensitive ≡ false
    → packed_host r ≡ some (without_filter r, to_ascii_lowercase h)
unfolding packed_host
packed_host_lem r h there lax = rw (packed_host, there, lax) refl

nothing_whole : whole_host [] ≡ none
unfolding whole_host strip_prefix
nothing_whole = refl

pub packed_host-IsWholeHost :
    (r template : BrowserRule) (host : Str)
    → packed_host r ≡ some (template, host)
    → IsWholeHost r template host
unfolding packed_host
packed_host-IsWholeHost r template host e = elim (Option-cases r.condition.url_filter) [
  | inl missing ↦ absurd (ground (arith, nothing_whole))
  | inr (pattern, there) ↦ elim (Option-cases (whole_host pattern)) [
    | inl missing ↦ absurd (ground arith)
    | inr (h, found) ↦ elim (Bool-cases r.condition.case_sensitive) [
      | inl sensitive ↦ absurd (ground arith)
      | inr lax ↦
          let pair = some_inj (sym (packed_host_lem r h (ground (arith, there, found)) lax) ∙ e) in
          let (same, valid) = whole_host_sound pattern h found in
          record {
            written = h;
            pattern = there ∙ ap some same;
            valid = valid;
            lowered = ap (λ x. x.1) pair;
            lax = lax;
            shared = sym (ap (λ x. x.0) pair);
          }
    ]
  ]
]
