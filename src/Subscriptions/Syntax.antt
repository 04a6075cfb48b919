-- ===== src/Subscriptions/Syntax.antt =====
-- companion/src/subscription_rules.rs: hostnames, domain scopes, patterns and resource types.
use not_another_ad_blocker.Prelude.{
  ℕ, Bool, true, false, ◌&&◌, ◌||◌, not, List, [], ◌∷◌, Option, none, some, String, ltb, leb, ◌==◌,
  length, all, if◌then◌else◌, Result, ok, err, and_then,
}
use not_another_ad_blocker.Text.{
  Str, codes, str_eq, bytes, len, is_empty, strip_prefix, strip_suffix, starts_with, ends_with,
  contains, split, find_split, to_ascii_lowercase,
}
use not_another_ad_blocker.Text.Ordered.{set_insert}
use not_another_ad_blocker.Rules.Syntax.{valid_label}

-- The code points of the characters that the source names.
abbrev pub tilde : Str
tilde = codes "~"

unfoldable pub host_valid : Str → Bool
host_valid host = not (is_empty host) && leb (len host) 253 && all valid_label (split b'.' host)

-- The included and the excluded domains.
abbrev pub Scope : Type 0
Scope = List Str × List Str

-- "~" excludes a domain.
abbrev pub split_negative : Str → Bool × Str
split_negative item = elim (strip_prefix tilde item) [
  | some domain ↦ (true, domain)
  | none ↦ (false, item)
]

abbrev pub add_scope : Bool × Str → Scope → Scope
add_scope (true, domain) (included, excluded) =
    (included, set_insert (to_ascii_lowercase domain) excluded)
add_scope (false, domain) (included, excluded) =
    (set_insert (to_ascii_lowercase domain) included, excluded)

unfoldable pub scope_items : List Str → Scope → Result String Scope
scope_items [] scope = ok scope
scope_items (item ∷ items) scope =
    let rest = scope_items items (add_scope (split_negative item) scope) in
    if host_valid (split_negative item).1 then rest else err "Unsupported domain scope"

abbrev pub bounded_scope : Scope → Result String Scope
bounded_scope (included, excluded) =
    if ltb 200 (length included) || ltb 200 (length excluded)
    then err "Domain scope exceeds 200 entries"
    else ok (included, excluded)

unfoldable pub scopes : Str → ℕ → Result String Scope
scopes value delimiter =
    if is_empty value then ok ([], []) else elim (scope_items (split delimiter value) ([], [])) [
      | err message ↦ err message
      | ok scope ↦ bounded_scope scope
    ]

-- `is_ascii_graphic` and none of `\`, `$` and `#`.
unfoldable pub is_pattern_byte : ℕ → Bool
is_pattern_byte b = leb 33 b && leb b 126 && not (b == b'\\') && not (b == b'$') && not (b == b'#')

-- The pattern without the anchors at its ends.
unfoldable pub pattern_core : Str → Str
pattern_core pattern =
    let core : Str = elim (strip_prefix (codes "||") pattern) [
      | some rest ↦ rest
      | none ↦ elim (strip_prefix (codes "|") pattern) [ some rest ↦ rest | none ↦ pattern ]
    ] in
    elim (strip_suffix (codes "|") core) [ some rest ↦ rest | none ↦ core ]

unfoldable pub pattern_valid : Str → Bool
pattern_valid pattern =
    if is_empty pattern
      || ltb 2048 (len pattern)
      || starts_with (codes "||*") pattern
      || (starts_with (codes "/") pattern && ends_with (codes "/") pattern && ltb 1 (len pattern))
      || not (all is_pattern_byte (bytes pattern))
    then false
    else not (is_empty (pattern_core pattern)) && not (contains (codes "|") (pattern_core pattern))

abbrev pub ends_host : ℕ → Bool
ends_host c = c == b'^' || c == b'/'

unfoldable pub anchored_host : Str → Option Str
anchored_host pattern = and_then (strip_prefix (codes "||") pattern) (λ rest.
    and_then (find_split ends_host rest)
      (λ r. if host_valid r.0 then some (to_ascii_lowercase r.0) else none))

-- The names of resource types in lists, and the browser's.
abbrev pub resource_names : List (Str × Str)
resource_names =
    (codes "subdocument", codes "sub_frame")
    ∷ (codes "script", codes "script")
    ∷ (codes "image", codes "image")
    ∷ (codes "stylesheet", codes "stylesheet")
    ∷ (codes "object", codes "object")
    ∷ (codes "xmlhttprequest", codes "xmlhttprequest")
    ∷ (codes "xhr", codes "xmlhttprequest")
    ∷ (codes "ping", codes "ping")
    ∷ (codes "media", codes "media")
    ∷ (codes "font", codes "font")
    ∷ (codes "websocket", codes "websocket")
    ∷ (codes "other", codes "other")
    ∷ []

unfoldable pub named : Str → List (Str × Str) → Option Str
named value [] = none
named value ((name, kind) ∷ names) =
    let rest = named value names in if str_eq value name then some kind else rest

unfoldable pub resource : Str → Option Str
resource value = named value resource_names
