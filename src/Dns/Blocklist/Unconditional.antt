-- ===== src/Dns/Blocklist/Unconditional.antt =====
-- companion/src/dns/blocklist.rs, `unconditional_rule`: the lines that DNS can apply.
use not_another_ad_blocker.Prelude.{
  ◌≡◌, refl, ap, ◌∙◌, subst, Bool, true, false, ◌++◌, Option, none, some, arith, inl, inr, ◌↔◌,
  Option-cases, Result-cases, ok, append-nil,
}
use not_another_ad_blocker.Text.{Str, codes, strip_prefix, strip_suffix, to_ascii_lowercase}
use not_another_ad_blocker.Text.Laws.{
  strip_prefix_sound, strip_suffix_sound, strip_suffix-append, strip_prefix-append,
}
use not_another_ad_blocker.Rules.Syntax.{network, valid_hostname}
use not_another_ad_blocker.Rules.Parse.{parse_rule}
use not_another_ad_blocker.Rules.Parse.Accepts.{exception_mark}
use not_another_ad_blocker.Rules.Parse.Written.{parse_rule-network_line}
use not_another_ad_blocker.Dns.Blocklist.Hostname.{normalize_hostname, normalize_hostname-valid}
use not_another_ad_blocker.Dns.Blocklist.Lines.{split_mark, unconditional_rule}

-- Whether the line has the mark of an exception.
abbrev marked : Str → Bool
marked raw = elim (strip_prefix (codes "@@") raw) [ some body ↦ true | none ↦ false ]

split_mark-marked : (raw : Str) → (split_mark raw).0 ≡ exception_mark (marked raw)
split_mark-marked raw = elim (Option-cases (strip_prefix (codes "@@") raw)) [
  | inl e ↦ ground arith
  | inr (body, e) ↦ ground arith
]

split_mark_sound : (raw : Str) → raw ≡ exception_mark (marked raw) ++ (split_mark raw).1
split_mark_sound raw = elim (Option-cases (strip_prefix (codes "@@") raw)) [
  | inl e ↦ ground arith
  | inr (body, e) ↦ ground (arith, strip_prefix_sound (codes "@@") raw e)
]

-- The compiler's parser accepts the canonical form of every hostname.
canonical_parses :
    (host : Str) (e : Bool)
    → valid_hostname host ≡ true
    → parse_rule (exception_mark e ++ (codes "||" ++ (host ++ codes "^")))
      ≡ ok (network (codes "||" ++ (to_ascii_lowercase host ++ codes "^")) e false)
canonical_parses host e valid =
    rw (← append-nil (codes "||" ++ (host ++ codes "^")))
      (parse_rule-network_line host (codes "^") valid (inl refl) e false)

module _ (to_ascii : Str → Option Str) where
  -- A line that is nothing but a hostname in "||" and "^", behind the mark of an exception or not.
  abbrev pub IsUnconditional : Str → Str → Bool → Type 0
  IsUnconditional raw host exception =
      (name : Str) × (raw ≡ exception_mark exception ++ (codes "||" ++ (name ++ codes "^")))
      × (normalize_hostname to_ascii name ≡ ok host)

  named_parses :
      (raw name : Str) {host : Str}
      → normalize_hostname to_ascii name ≡ ok host
      → parse_rule ((split_mark raw).0 ++ (codes "||" ++ (host ++ codes "^")))
        ≡ ok (network (codes "||" ++ (to_ascii_lowercase host ++ codes "^")) (marked raw) false)
  named_parses raw name {host} h =
      rw (split_mark-marked raw)
        (canonical_parses host (marked raw) (normalize_hostname-valid to_ascii name h))

  unconditional_rule_sound :
      (raw : Str) {r : Str × Bool}
      → unconditional_rule to_ascii raw ≡ some r
      → IsUnconditional raw r.0 r.1
  unfolding unconditional_rule
  unconditional_rule_sound raw {r} h =
      elim (Option-cases (strip_prefix (codes "||") (split_mark raw).1)) [
        | inl e ↦ absurd (ground arith)
        | inr (anchored, e) ↦ elim (Option-cases (strip_suffix (codes "^") anchored)) [
          | inl e' ↦ absurd (ground arith)
          | inr (name, e') ↦ elim (Result-cases (normalize_hostname to_ascii name)) [
            | inr (message, bad) ↦ absurd (ground arith)
            | inl (host, good) ↦
                let same : (host, marked raw) ≡ r = ground (arith, named_parses raw name good) in
                let line : raw
                    ≡ exception_mark (marked raw) ++ (codes "||" ++ (name ++ codes "^")) =
                  split_mark_sound raw
                  ∙ ap (λ body. exception_mark (marked raw) ++ body)
                      (strip_prefix_sound (codes "||") (split_mark raw).1 e
                        ∙ ap (λ a. codes "||" ++ a) (strip_suffix_sound (codes "^") anchored e')) in
                subst (λ (r : Str × Bool). IsUnconditional raw r.0 r.1) same (name, line, good)
          ]
        ]
      ]

  split_mark-line :
      (exception : Bool) (rest : Str)
      → split_mark (exception_mark exception ++ (codes "||" ++ rest))
        ≡ (exception_mark exception, codes "||" ++ rest)
  unfolding strip_prefix
  split_mark-line true rest = refl
  split_mark-line false rest = refl

  unconditional_rule_complete :
      (raw host : Str) (exception : Bool)
      → IsUnconditional raw host exception
      → unconditional_rule to_ascii raw ≡ some (host, exception)
  unfolding unconditional_rule
  unconditional_rule_complete raw host exception (name, line, good) = rw line (
      ground (
        arith,
        split_mark-line exception (name ++ codes "^"),
        strip_prefix-append (codes "||") (name ++ codes "^"),
        strip_suffix-append name (codes "^"),
        good,
        canonical_parses host exception (normalize_hostname-valid to_ascii name good),
      ))

  -- A line yields a rule that DNS can apply exactly if it is "||name^" or "@@||name^" with a name
  -- that normalizes to the rule's hostname: a path, a modifier or a wildcard never does. (The
  -- parser's second look at the canonical form rejects nothing.)
  pub unconditional_rule_iff :
      (raw host : Str) (exception : Bool)
      → (unconditional_rule to_ascii raw ≡ some (host, exception))
        ↔ IsUnconditional raw host exception
  unconditional_rule_iff raw host exception =
      (unconditional_rule_sound raw, unconditional_rule_complete raw host exception)
