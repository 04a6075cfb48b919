-- ===== src/Rules/Selector.antt =====
-- companion/src/rules.rs: the selectors that are accepted, and their canonical form.
pub mod Grammar
pub mod Spaces
pub mod Canonical
use mathlib.Core.Option
use not_another_ad_blocker.Prelude.{
  ℕ, zero, suc, Bool, true, false, ◌&&◌, ◌||◌, not, List, [], ◌∷◌, ◌++◌, Option, none, some, leb,
  ltb, ◌==◌, all, any, length, if◌then◌else◌,
}
use not_another_ad_blocker.Text.{
  Str, codes, bytes, len, is_empty, split_once, strip_suffix, trim_matches,
}
use not_another_ad_blocker.Text.Chars.{is_alphanumeric, is_alphabetic}
use not_another_ad_blocker.Rules.Syntax.{max_selector_bytes}

unfoldable pub is_mark : ℕ → Bool
is_mark b = b == b'.' || b == b'#'

unfoldable pub is_tag_byte : ℕ → Bool
unfolding is_alphanumeric
is_tag_byte b = is_alphanumeric b || b == b'-'

unfoldable pub is_ident_start : ℕ → Bool
unfolding is_alphabetic
is_ident_start b = is_alphabetic b || b == b'_'

unfoldable pub is_ident_byte : ℕ → Bool
unfolding is_alphanumeric
is_ident_byte b = is_alphanumeric b || b == b'_' || b == b'-'

-- A `while` loop that moves the index past the bytes that pass.
unfoldable pub skip : (ℕ → Bool) → List ℕ → List ℕ
skip p [] = []
skip p (b ∷ bs) = let rest = skip p bs in if p b then rest else b ∷ bs

-- The optional tag name at the start.
unfoldable pub skip_tag : List ℕ → List ℕ
unfolding is_alphabetic
skip_tag [] = []
skip_tag (b ∷ bs) = if is_alphabetic b then skip is_tag_byte bs else b ∷ bs

-- The second byte of an identifier that starts with a hyphen.
unfoldable pub after_hyphen : List ℕ → Option (List ℕ)
after_hyphen [] = none
after_hyphen (b ∷ bs) = if is_ident_start b || b == b'-' then some (skip is_ident_byte bs) else none

-- The identifier behind a mark: the bytes after it, or nothing if it is malformed.
unfoldable pub skip_ident : List ℕ → Option (List ℕ)
skip_ident [] = none
skip_ident (b ∷ bs) =
    if b == b'-'
    then after_hyphen bs
    else if is_ident_start b
    then some (skip is_ident_byte bs)
    else none

-- The loop over ".name" and "#name"; a round takes at least one byte, so that the length is
-- enough fuel.
unfoldable pub segments : ℕ → List ℕ → Bool
segments fuel [] = true
segments zero (b ∷ bs) = false
segments (suc fuel) (b ∷ bs) = elim (is_mark b) [
  | true ↦ elim (skip_ident bs) [ none ↦ false | some rest ↦ segments fuel rest ]
  | false ↦ false
]

unfoldable pub valid_compound_bytes : List ℕ → Bool
valid_compound_bytes bs =
    if is_empty bs || ltb max_selector_bytes (length bs)
    then false
    else segments (length bs) (skip_tag bs)

unfoldable pub valid_compound : Str → Bool
valid_compound selector = valid_compound_bytes (bytes selector)

abbrev pub has_child : Str
has_child = codes ":has(>"

abbrev pub is_space : ℕ → Bool
is_space c = c == 32

-- The one supported child check: a compound that holds a class or an ID.
unfoldable pub valid_child : Str → Bool
valid_child child = any is_mark child && valid_compound child

unfoldable pub valid_selector : Str → Bool
valid_selector selector =
    if is_empty selector || ltb max_selector_bytes (len selector)
    then false
    else elim (split_once has_child selector) [
      | none ↦ valid_compound selector
      | some (parent, tail) ↦ elim (strip_suffix (codes ")") tail) [
        | none ↦ false
        | some child ↦ valid_compound parent && valid_child (trim_matches is_space child)
      ]
    ]

unfoldable pub canonical_selector : Str → Str
canonical_selector selector = elim (split_once has_child selector) [
  | none ↦ selector
  | some (parent, tail) ↦ elim (strip_suffix (codes ")") tail) [
    | none ↦ selector
    | some child ↦ parent ++ (has_child ++ (trim_matches is_space child ++ codes ")"))
  ]
]
