-- ===== src/Rules/Parse.antt =====
-- companion/src/rules.rs, `parse_rule`: one line to a normalized rule, or the reason against it.
pub mod Accepts
pub mod Written
use not_another_ad_blocker.Prelude.{
  ℕ, Bool, true, false, not, List, [], ◌∷◌, ◌++◌, Option, none, some, ltb, ◌==◌, String, length,
  if◌then◌else◌, Result, ok, err, ok_or, ◌>>=◌,
}
use not_another_ad_blocker.Text.{
  Str, str_eq, codes, len, is_empty, contains, split_once, strip_prefix, strip_suffix, find_split,
  split, to_ascii_lowercase,
}
use not_another_ad_blocker.Text.Ordered.{set_insert}
use not_another_ad_blocker.Rules.Syntax.{
  max_selector_bytes, max_cosmetic_domains, NormalizedRule, network, cosmetic, valid_hostname,
  valid_literal_path,
}
use not_another_ad_blocker.Rules.Selector.{valid_selector, canonical_selector}

-- The loop over the scope's hostnames, with the set of those before.
unfoldable pub cosmetic_domains : List Str → List Str → Result String (List Str)
cosmetic_domains domains [] = ok domains
cosmetic_domains domains (domain ∷ rest) =
    let more = set_insert (to_ascii_lowercase domain) domains in
    let later = cosmetic_domains more rest in
    if not (valid_hostname domain)
    then err
        "Cosmetic scope must be comma-separated plain ASCII hostnames; negations and wildcards are unsupported"
    else if ltb max_cosmetic_domains (length more)
    then err "Cosmetic scope exceeds the 200-domain limit; no rule was emitted"
    else later

unfoldable pub parse_cosmetic : Str → Str → Result String NormalizedRule
parse_cosmetic scope selector =
    if ltb max_selector_bytes (len selector)
    then err "Cosmetic selector exceeds the 512-byte limit; no rule was emitted"
    else if not (valid_selector selector)
    then err
        "Only compound tag/class/ID selectors and one :has(> .class-or-ID) child check are supported"
    else do
      domains ← if is_empty scope then ok [] else cosmetic_domains [] (split b',' scope)
      ok (cosmetic domains (canonical_selector selector))

-- "@@" marks an exception.
unfoldable pub split_exception : Str → Bool × Str
split_exception raw = elim (strip_prefix (codes "@@") raw) [
  | some body ↦ (true, body)
  | none ↦ (false, raw)
]

-- The pattern, and whether "$third-party" stands behind it.
unfoldable pub split_modifiers : Str → Result String (Str × Bool)
split_modifiers body = elim (split_once (codes "$") body) [
  | some (pattern, modifiers) ↦
      if str_eq modifiers (codes "third-party")
      then ok (pattern, true)
      else err "Only the $third-party network modifier is supported; no rule was emitted"
  | none ↦ ok (body, false)
]

-- The hostname, and its "^" or literal path.
unfoldable pub split_boundary : Str → Result String (Str × Str)
split_boundary anchored = elim (strip_suffix (codes "^") anchored) [
  | some host ↦ ok (host, codes "^")
  | none ↦ elim (find_split (λ c. c == b'/') anchored) [
    | some (host, path) ↦
        if valid_literal_path path
        then ok (host, path)
        else err
            "Network paths must be literal ASCII URL paths; wildcards, queries, fragments, and anchors are unsupported"
    | none ↦ err "A hostname must end with ^ or a literal /path to avoid partial-host matches"
  ]
]

unfoldable pub parse_network : Str → Result String NormalizedRule
parse_network raw = do
  let exception = (split_exception raw).0
  (pattern, third_party) ← split_modifiers (split_exception raw).1
  anchored ←
      ok_or (strip_prefix (codes "||") pattern)
        "Only domain-anchored network patterns beginning with || are supported"
  (host, suffix) ← split_boundary anchored
  if valid_hostname host
      then ok (network (codes "||" ++ (to_ascii_lowercase host ++ suffix)) exception third_party)
      else err
          "Network patterns require a valid plain ASCII hostname; regexes, wildcards, ports, and Unicode are unsupported"

unfoldable pub parse_rule : Str → Result String NormalizedRule
parse_rule raw =
    if contains (codes "#@#") raw
    then err "Cosmetic exceptions are not supported; no rule was emitted"
    else elim (split_once (codes "##") raw) [
      | some (scope, selector) ↦ parse_cosmetic scope selector
      | none ↦ parse_network raw
    ]
