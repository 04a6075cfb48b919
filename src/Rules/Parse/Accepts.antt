-- ===== src/Rules/Parse/Accepts.antt =====
-- The network rules that `parse_rule` accepts, both ways: what an accepted line looks like, and
-- that each line of that form is accepted.
use not_another_ad_blocker.Prelude.{
  ◌≡◌, ◌≢◌, refl, ap, ◌∙◌, subst, Bool, true, false, List, [], ◌++◌, append-nil, arith, ltb, ◌==◌,
  inl, inr, ◌⊎◌, Bool-cases, Option-cases, if◌then◌else◌, Result, ok, err, Result-cases, String,
  ◌>>=◌,
}
use not_another_ad_blocker.Text.{
  Str, codes, len, is_empty, split, split_once, strip_prefix, contains, strip_suffix, find_split,
  to_ascii_lowercase,
}
use not_another_ad_blocker.Text.Laws.{
  eq_of_str_eq, strip_prefix_sound, strip_suffix_sound, split_once_sound, find_split_sound,
}
use not_another_ad_blocker.Rules.Selector.{valid_selector, canonical_selector}
use not_another_ad_blocker.Rules.Syntax.{
  max_selector_bytes, NormalizedRule, network, cosmetic, valid_hostname, valid_literal_path,
}
use not_another_ad_blocker.Rules.Parse.{
  split_exception, split_modifiers, split_boundary, parse_network, parse_cosmetic, parse_rule,
  cosmetic_domains,
}

-- How a network rule is written.
abbrev pub exception_mark : Bool → Str
exception_mark true = codes "@@"
exception_mark false = []

abbrev pub party_mark : Bool → Str
party_mark true = codes "$third-party"
party_mark false = []

abbrev pub network_line : Str → Str → Bool → Bool → Str
network_line host suffix exception third_party =
    exception_mark exception ++ ((codes "||" ++ (host ++ suffix)) ++ party_mark third_party)

abbrev pub IsBoundary : Str → Type 0
IsBoundary suffix = (suffix ≡ codes "^") ⊎ (valid_literal_path suffix ≡ true)

split_exception_sound :
    (raw : Str) → raw ≡ exception_mark (split_exception raw).0 ++ (split_exception raw).1
unfolding split_exception strip_prefix
split_exception_sound raw = elim (Option-cases (strip_prefix (codes "@@") raw)) [
  | inl e ↦ rw e refl
  | inr (body, e) ↦ rw e (strip_prefix_sound (codes "@@") raw e)
]

split_modifiers_sound :
    (body : Str) {r : Str × Bool} → split_modifiers body ≡ ok r → body ≡ r.0 ++ party_mark r.1
unfolding split_modifiers
split_modifiers_sound body {r} h = elim (Option-cases (split_once (codes "$") body)) [
  | inl e ↦ ground (arith, append-nil body)
  | inr ((pattern, modifiers), e) ↦
      ground
        (arith, split_once_sound (codes "$") body e, eq_of_str_eq modifiers (codes "third-party"))
]

split_boundary_sound :
    (anchored : Str) {r : Str × Str}
    → split_boundary anchored ≡ ok r
    → (anchored ≡ r.0 ++ r.1) × IsBoundary r.1
unfolding split_boundary
split_boundary_sound anchored {r} h = elim (Option-cases (strip_suffix (codes "^") anchored)) [
  | inr (host, e) ↦ ground (arith, strip_suffix_sound (codes "^") anchored e)
  | inl e ↦ elim (Option-cases (find_split (λ c. c == b'/') anchored)) [
    | inl e' ↦ ground arith
    | inr ((host, path), e') ↦ ground (arith, (find_split_sound (λ c. c == b'/') anchored e').0)
  ]
]

-- What an accepted network rule was written as.
abbrev pub IsNetworkLine : Str → NormalizedRule → Type 0
IsNetworkLine raw (cosmetic domains selector) = ⊥
IsNetworkLine raw (network pattern exception third_party) =
    (host : Str) × (suffix : Str) × (raw ≡ network_line host suffix exception third_party)
    × (pattern ≡ codes "||" ++ (to_ascii_lowercase host ++ suffix))
    × (valid_hostname host ≡ true)
    × IsBoundary suffix

parse_network_sound :
    (raw : Str) {rule : NormalizedRule} → parse_network raw ≡ ok rule → IsNetworkLine raw rule
unfolding parse_network
parse_network_sound raw {rule} h = elim (Result-cases (split_modifiers (split_exception raw).1)) [
  | inr (e, bad) ↦ absurd (ground arith)
  | inl ((pattern, third_party), modified) ↦
      elim (Option-cases (strip_prefix (codes "||") pattern)) [
        | inl missing ↦ absurd (ground arith)
        | inr (anchored, prefixed) ↦ elim (Result-cases (split_boundary anchored)) [
          | inr (e, bad) ↦ absurd (ground arith)
          | inl ((host, suffix), bounded) ↦
              let (parts, boundary) = split_boundary_sound anchored bounded in
              let valid : valid_hostname host ≡ true = ground arith in
              let same : network (codes "||" ++ (to_ascii_lowercase host ++ suffix))
                    (split_exception raw).0 third_party
                  ≡ rule =
                ground arith in
              let line : raw ≡ network_line host suffix (split_exception raw).0 third_party =
                split_exception_sound raw
                ∙ ap (λ body. exception_mark (split_exception raw).0 ++ body)
                    (split_modifiers_sound _ modified
                      ∙ ap (λ p. p ++ party_mark third_party)
                          (strip_prefix_sound (codes "||") pattern prefixed
                            ∙ ap (λ p. codes "||" ++ p) parts)) in
              subst (IsNetworkLine raw) same (host, suffix, line, refl, valid, boundary)
        ]
      ]
]

parse_cosmetic-ne-network :
    (scope selector pattern : Str) (exception third_party : Bool)
    → parse_cosmetic scope selector ≢ ok (network pattern exception third_party)
unfolding parse_cosmetic
parse_cosmetic-ne-network scope selector pattern exception third_party h =
    elim (Bool-cases (ltb max_selector_bytes (len selector))) [
      | inl e ↦ cc (rw (e, parse_cosmetic) at h)
      | inr e ↦ elim (Bool-cases (valid_selector selector)) [
        | inr e' ↦ cc (rw (e, e', parse_cosmetic) at h)
        | inl e' ↦
            bind_cosmetic (if is_empty scope then ok [] else cosmetic_domains [] (split b',' scope))
              (rw (e, e', parse_cosmetic) at h)
      ]
    ]
  where
    bind_cosmetic :
        (m : Result String (List Str))
        → (m >>= λ domains. ok (cosmetic domains (canonical_selector selector)))
          ≡ ok (network pattern exception third_party)
        → ⊥
    bind_cosmetic (ok domains) e = cc
    bind_cosmetic (err m) e = cc

pub parse_rule-IsNetworkLine :
    (raw pattern : Str) (exception third_party : Bool)
    → parse_rule raw ≡ ok (network pattern exception third_party)
    → IsNetworkLine raw (network pattern exception third_party)
unfolding parse_rule
parse_rule-IsNetworkLine raw pattern exception third_party h =
    elim (Bool-cases (contains (codes "#@#") raw)) [
      | inl e ↦ absurd (ground arith)
      | inr e ↦ elim (Option-cases (split_once (codes "##") raw)) [
        | inl e' ↦
            parse_network_sound raw {rule = network pattern exception third_party} (ground arith)
        | inr ((scope, selector), e') ↦
            absurd (
              parse_cosmetic-ne-network scope selector pattern exception third_party (ground arith))
      ]
    ]
