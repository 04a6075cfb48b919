-- ===== src/Dns/Blocklist/Lines.antt =====
-- companion/src/dns/blocklist.rs: how a line of a list is read.
use mathlib.Core.Option
use not_another_ad_blocker.Prelude.{
  ℕ, Bool, true, false, ◌&&◌, ◌||◌, not, List, [], ◌∷◌, ◌++◌, Option, none, some, ◌==◌, all, any,
  if◌then◌else◌, String, Result, ok, err, and_then, to_option,
}
use not_another_ad_blocker.Text.{
  Str, str_eq, codes, is_empty, contains, starts_with, strip_prefix, strip_suffix, split_once,
  find_split, split, trim, to_ascii_lowercase, one_of,
}
use not_another_ad_blocker.Rules.Syntax.{NormalizedRule, network, cosmetic}
use not_another_ad_blocker.Rules.Parse.{parse_rule}
use not_another_ad_blocker.Dns.Blocklist.Hostname.{normalize_hostname}

-- `str::eq_ignore_ascii_case`.
unfoldable pub eq_ignore_ascii_case : Str → Str → Bool
eq_ignore_ascii_case s t = str_eq (to_ascii_lowercase s) (to_ascii_lowercase t)

-- The options behind the first "$", if there is one.
abbrev pub options_of : Str → Option (List Str)
options_of raw = Option.map (λ r. split b',' r.1) (split_once (codes "$") raw)

unfoldable pub has_badfilter : Str → Bool
has_badfilter raw = elim (options_of raw) [
  | none ↦ false
  | some modifiers ↦
      any (λ modifier. eq_ignore_ascii_case (trim modifier) (codes "badfilter")) modifiers
]

abbrev pub cosmetic_options : List Str
cosmetic_options =
    codes "generichide"
    ∷ codes "elemhide"
    ∷ codes "specifichide"
    ∷ codes "ghide"
    ∷ codes "ehide"
    ∷ codes "shide"
    ∷ []

abbrev pub neutral_options : List Str
neutral_options =
    codes "third-party"
    ∷ codes "~third-party"
    ∷ codes "first-party"
    ∷ codes "~first-party"
    ∷ codes "match-case"
    ∷ codes "badfilter"
    ∷ []

unfoldable pub cosmetic_only_exception : Str → Bool
cosmetic_only_exception raw =
    if not (starts_with (codes "@@") raw) then false else elim (options_of raw) [
      | none ↦ false
      | some options ↦
          any (one_of cosmetic_options) options
          && all
              (λ option.
                one_of cosmetic_options option
                || starts_with (codes "domain=") option
                || one_of neutral_options option)
              options
    ]

unfoldable pub page_level_exception : Str → Bool
page_level_exception raw = starts_with (codes "@@") raw && elim (options_of raw) [
  | none ↦ false
  | some options ↦ any (one_of (codes "document" ∷ codes "doc" ∷ codes "genericblock" ∷ [])) options
]

abbrev pub cosmetic_markers : List Str
cosmetic_markers =
    codes "##"
    ∷ codes "#@#"
    ∷ codes "#?#"
    ∷ codes "#@?#"
    ∷ codes "#$#"
    ∷ codes "#@$#"
    ∷ codes "#%#"
    ∷ codes "#@%#"
    ∷ []

unfoldable pub is_ignored : Str → Bool
is_ignored raw =
    is_empty raw
    || starts_with (codes "!") raw
    || starts_with (codes "[") raw
    || (not (starts_with (codes "@@") raw) && any (λ marker. contains marker raw) cosmetic_markers)

-- `split('$').next()`.
abbrev pub before_options : Str → Str
before_options body = elim (split_once (codes "$") body) [ some r ↦ r.0 | none ↦ body ]

abbrev pub is_boundary : ℕ → Bool
is_boundary c = c == b'^' || c == b'/' || c == b':' || c == b'|'

-- "@@" and the rest of an exception, or the line.
abbrev pub split_mark : Str → Str × Str
split_mark raw = elim (strip_prefix (codes "@@") raw) [
  | some body ↦ (codes "@@", body)
  | none ↦ ([], raw)
]

abbrev pub without_third_party : Str → Result String NormalizedRule → Option (Str × Bool)
without_third_party host (ok (network pattern exception false)) = some (host, exception)
without_third_party host (ok (network pattern exception true)) = none
without_third_party host (ok (cosmetic domains selector)) = none
without_third_party host (err message) = none

module _ (to_ascii : Str → Option Str) where
  -- "||hostname^" or "@@||hostname^", and nothing else.
  unfoldable pub unconditional_rule : Str → Option (Str × Bool)
  unconditional_rule raw = and_then (strip_prefix (codes "||") (split_mark raw).1) (λ anchored.
      and_then (strip_suffix (codes "^") anchored) (λ name.
        and_then (to_option (normalize_hostname to_ascii name)) (λ host.
          without_third_party host
            (parse_rule ((split_mark raw).0 ++ (codes "||" ++ (host ++ codes "^")))))))

  -- The hostname that an exception names, whatever else it says.
  unfoldable pub exception_suffix : Str → Option Str
  exception_suffix raw =
      and_then (strip_prefix (codes "||") (before_options (split_mark raw).1)) (λ anchored.
        and_then (find_split is_boundary anchored)
          (λ r. to_option (normalize_hostname to_ascii r.0)))
