-- ===== src/Rules/Parse/Written.antt =====
-- Each line that is written as a network rule is accepted by `parse_rule`.
use not_another_ad_blocker.Prelude.{
  ℕ, ◌≡◌, ◌≢◌, refl, Bool, true, false, [], ◌∷◌, ◌++◌, append-nil, some, arith, ◌==◌, inl, inr, ◌↔◌,
  All-append, All-map, ok,
}
use not_another_ad_blocker.Text.{
  Str, codes, strip_prefix, find_split, to_ascii_lowercase, starts_with,
}
use not_another_ad_blocker.Text.Laws.{str_eq_refl, split_once-append, strip_suffix-append}
use not_another_ad_blocker.Text.Absent.{
  Lacks, split_once_absent, contains_absent, strip_suffix_absent, find_split-append,
}
use not_another_ad_blocker.Rules.Syntax.{network, valid_hostname, valid_literal_path, is_path_byte}
use not_another_ad_blocker.Rules.Hostname.{Lacks-of_hostname, Lacks-of_path, is_host_char}
use not_another_ad_blocker.Rules.Parse.{
  split_exception, split_modifiers, split_boundary, parse_network, parse_rule,
}
use not_another_ad_blocker.Rules.Parse.Accepts.{
  IsNetworkLine, parse_rule-IsNetworkLine, exception_mark, party_mark, network_line, IsBoundary,
}

classes : Unit {0}
unfolding is_host_char is_path_byte
classes = tt

begins_with_slash : (path : Str) → valid_literal_path path ≡ true → (t : Str) × (path ≡ b'/' ∷ t)
unfolding valid_literal_path starts_with strip_prefix
begins_with_slash [] h = cc
begins_with_slash (c ∷ t) h = (t, ground arith)

not_eq : (c : ℕ) → c ≢ b'/' → (c == b'/') ≡ false
not_eq c ne = ground arith

module _ (host suffix : Str) (valid : valid_hostname host ≡ true)
    (boundary : IsBoundary suffix) where
  -- A character that neither a hostname nor a boundary holds.
  abbrev Foreign : ℕ → Type 0
  Foreign d = (is_host_char d ≡ false) × (is_path_byte d ≡ false) × (b'^' ≢ d)

  Lacks-suffix : (d : ℕ) → Foreign d → Lacks d suffix
  Lacks-suffix d (_, outside, ne) = elim boundary [
    | inl e ↦ rw e (ne, tt)
    | inr e ↦ Lacks-of_path d outside suffix e
  ]

  Lacks-anchored : (d : ℕ) → Foreign d → Lacks d (host ++ suffix)
  Lacks-anchored d f =
      All-append (λ c. c ≢ d) host suffix (Lacks-of_hostname d f.0 host valid) (Lacks-suffix d f)

  split_boundary_lem : split_boundary (host ++ suffix) ≡ ok (host, suffix)
  unfolding split_boundary classes
  split_boundary_lem = elim boundary [
    | inl e ↦ rw e (ground (arith, strip_suffix-append host (codes "^")))
    | inr e ↦
        let (t, same) = begins_with_slash suffix e in
        let lacks : Lacks b'^' (host ++ suffix) =
          All-append (λ c. c ≢ b'^') host suffix (Lacks-of_hostname b'^' refl host valid)
            (Lacks-of_path b'^' refl suffix e) in
        let found : find_split (λ c. c == b'/') (host ++ suffix) ≡ some (host, suffix) = rw same (
          find_split-append (λ c. c == b'/') host t b'/'
            (All-map (λ c ne. not_eq c ne) host (Lacks-of_hostname b'/' refl host valid)) refl) in
        ground (arith, strip_suffix_absent b'^' (host ++ suffix) lacks)
  ]

  abbrev pattern : Str
  pattern = codes "||" ++ (host ++ suffix)

  Lacks-pattern : (d : ℕ) → Foreign d → b'|' ≢ d → Lacks d pattern
  Lacks-pattern d f ne = (ne, (ne, Lacks-anchored d f))

  split_modifiers_lem :
      (third_party : Bool)
      → split_modifiers (pattern ++ party_mark third_party) ≡ ok (pattern, third_party)
  unfolding split_modifiers classes
  split_modifiers_lem true = ground (
    arith,
    split_once-append b'$' [] pattern (codes "third-party")
        (Lacks-pattern b'$' (refl, refl, omega arith) (omega arith)),
    str_eq_refl (codes "third-party"),
  )
  split_modifiers_lem false = rw (append-nil pattern) (
      ground (
        arith,
        split_once_absent b'$' [] pattern
            (Lacks-pattern b'$' (refl, refl, omega arith) (omega arith)),
      ))

  parse_network_lem :
      (exception third_party : Bool)
      → parse_network (network_line host suffix exception third_party)
        ≡ ok (network (codes "||" ++ (to_ascii_lowercase host ++ suffix)) exception third_party)
  unfolding parse_network split_exception strip_prefix
  parse_network_lem true third_party =
      ground (arith, split_modifiers_lem third_party, split_boundary_lem, valid)
  parse_network_lem false third_party =
      ground (arith, split_modifiers_lem third_party, split_boundary_lem, valid)

  Lacks-line :
      (exception third_party : Bool) → Lacks b'#' (network_line host suffix exception third_party)
  unfolding classes
  Lacks-line exception third_party =
      All-append (λ c. c ≢ b'#') (exception_mark exception) (pattern ++ party_mark third_party)
        (mark exception)
        (All-append (λ c. c ≢ b'#') pattern (party_mark third_party)
          (Lacks-pattern b'#' (refl, refl, omega arith) (omega arith)) (party third_party))
    where
      mark : (e : Bool) → Lacks b'#' (exception_mark e)
      mark true = omega arith
      mark false = tt

      party : (t : Bool) → Lacks b'#' (party_mark t)
      party true = omega arith
      party false = tt

  pub parse_rule-network_line :
      (exception third_party : Bool)
      → parse_rule (network_line host suffix exception third_party)
        ≡ ok (network (codes "||" ++ (to_ascii_lowercase host ++ suffix)) exception third_party)
  unfolding parse_rule
  parse_rule-network_line exception third_party = ground (
    arith,
    contains_absent b'#' (codes "@#") (network_line host suffix exception third_party)
        (Lacks-line exception third_party),
    split_once_absent b'#' (codes "#") (network_line host suffix exception third_party)
        (Lacks-line exception third_party),
    parse_network_lem exception third_party,
  )

-- `parse_rule` returns a network rule exactly for the lines that are written as that rule: its
-- exception mark, "||", a valid hostname whose lower case the pattern holds, "^" or a literal
-- path, its modifier, and nothing else.
pub parse_rule-network_iff :
    (raw pattern : Str) (exception third_party : Bool)
    → (parse_rule raw ≡ ok (network pattern exception third_party))
      ↔ IsNetworkLine raw (network pattern exception third_party)
parse_rule-network_iff raw pattern exception third_party = (
  parse_rule-IsNetworkLine raw pattern exception third_party,
  λ (host, suffix, line, shape, valid, boundary).
      rw (line, shape) (parse_rule-network_line host suffix valid boundary exception third_party),
)
