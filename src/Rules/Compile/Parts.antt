-- ===== src/Rules/Compile/Parts.antt =====
-- companion/src/rules.rs, `compile`: what a compilation was made of.
use not_another_ad_blocker.Prelude.{
  ℕ, ◌≡◌, List, map, some, arith, ok, Option-cases, Result-cases, inl, inr,
}
use not_another_ad_blocker.Text.{Str, lines}
use not_another_ad_blocker.Rules.Ids.{stable_hash, assign_ids}
use not_another_ad_blocker.Rules.Compile.{
  NetworkRule, Compilation, Progress, start, check_lines, add_lines, emit, finish, strip_bom,
  compile, compilation,
}

abbrev pub keys_of : Progress → List Str
keys_of p = map (λ entry. entry.0) p.network_map

abbrev pub after_lines : Str → Str → Progress
after_lines text source = add_lines source 0 (lines (strip_bom text)) start

pub record Parts (p : Progress) (c : Compilation) : Type 0 where
  pub ids : List (Str × ℕ)
  pub rules : List NetworkRule
  pub assigned : assign_ids (keys_of p) stable_hash ≡ some ids
  pub emitted : emit ids p.network_map ≡ some rules
  pub whole : c ≡ compilation p rules

finish-Parts : (p : Progress) (c : Compilation) → finish p ≡ some c → Parts p c
unfolding finish
finish-Parts p c h = elim (Option-cases (assign_ids (keys_of p) stable_hash)) [
  | inl e ↦ absurd (ground arith)
  | inr (ids, e) ↦ elim (Option-cases (emit ids p.network_map)) [
    | inl e' ↦ absurd (ground arith)
    | inr (rules, e') ↦ record {
      ids = ids;
      rules = rules;
      assigned = e;
      emitted = e';
      whole = ground arith;
    }
  ]
]

pub compile-Parts :
    (text source : Str) (c : Compilation)
    → compile text source ≡ some (ok c)
    → Parts (after_lines text source) c
unfolding compile
compile-Parts text source c h = elim (Result-cases (check_lines 0 (lines (strip_bom text)))) [
  | inl (u, e) ↦ finish-Parts (after_lines text source) c (ground arith)
  | inr (message, e) ↦ absurd (ground arith)
]
