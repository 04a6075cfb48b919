-- ===== src/Subscriptions/Anchored.antt =====
-- companion/src/subscription_rules.rs, `anchored_host`: the hostname that a pattern begins with.
use not_another_ad_blocker.Prelude.{
  ℕ, ◌≡◌, sym, ap, ◌∙◌, true, false, ◌∷◌, ◌++◌, some, some_inj, All, arith, inl, inr, Bool-cases,
  Option-cases,
}
use not_another_ad_blocker.Text.{Str, codes, strip_prefix, find_split, to_ascii_lowercase}
use not_another_ad_blocker.Text.Laws.{strip_prefix_sound, strip_prefix-append, find_split_sound}
use not_another_ad_blocker.Text.Absent.{find_split-append}
use not_another_ad_blocker.Subscriptions.Syntax.{host_valid, ends_host, anchored_host}

-- The pattern is a hostname with an end after "||", and the domain is that hostname.
pub record IsAnchored (pattern domain : Str) : Type 0 where
  pub host : Str
  pub mark : ℕ
  pub rest : Str
  pub written : pattern ≡ codes "||" ++ (host ++ (mark ∷ rest))
  pub unended : All (λ c. ends_host c ≡ false) host
  pub ended : ends_host mark ≡ true
  pub valid : host_valid host ≡ true
  pub lowered : domain ≡ to_ascii_lowercase host

pub anchored_host_complete :
    (pattern domain : Str) → IsAnchored pattern domain → anchored_host pattern ≡ some domain
unfolding anchored_host
anchored_host_complete pattern domain a =
    let begins : strip_prefix (codes "||") pattern ≡ some (a.host ++ (a.mark ∷ a.rest)) =
      ap (strip_prefix (codes "||")) a.written
      ∙ strip_prefix-append (codes "||") (a.host ++ (a.mark ∷ a.rest)) in
    let found = find_split-append ends_host a.host a.rest a.mark a.unended a.ended in
    rw (anchored_host, begins, found, a.valid) (ap some (sym a.lowered))

pub anchored_host_sound :
    (pattern domain : Str) → anchored_host pattern ≡ some domain → IsAnchored pattern domain
unfolding anchored_host
anchored_host_sound pattern domain e = elim (Option-cases (strip_prefix (codes "||") pattern)) [
  | inl missing ↦ absurd (ground arith)
  | inr (rest, begins) ↦ elim (Option-cases (find_split ends_host rest)) [
    | inl missing ↦ absurd (ground arith)
    | inr ((host, after), found) ↦ elim (Bool-cases (host_valid host)) [
      | inr bad ↦ absurd (ground arith)
      | inl good ↦
          let (whole, before, (mark, tail, at, ends)) = find_split_sound ends_host rest found in
          record {
            host = host;
            mark = mark;
            rest = tail;
            written =
                strip_prefix_sound (codes "||") pattern begins
                ∙ ap (λ s. codes "||" ++ s) (whole ∙ ap (λ s. host ++ s) at);
            unended = before;
            ended = ends;
            valid = good;
            lowered = some_inj (sym (rw (anchored_host, begins, found, good) at e));
          }
    ]
  ]
]
