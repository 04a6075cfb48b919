-- ===== src/Rules/Syntax.antt =====
-- companion/src/rules.rs: the limits, the normalized rules, and the tests on hostnames and paths.
use not_another_ad_blocker.Prelude.{
  ℕ, Bool, false, ◌&&◌, ◌||◌, not, List, [], ◌∷◌, leb, ◌==◌, all, any,
}
use not_another_ad_blocker.Text.{Str, codes, bytes, len, is_empty, split, starts_with}
use not_another_ad_blocker.Text.Chars.{is_alphanumeric}

abbrev pub max_text_bytes : ℕ
max_text_bytes = 131072

abbrev pub max_nonempty_lines : ℕ
max_nonempty_lines = 2000

abbrev pub max_line_bytes : ℕ
max_line_bytes = 2048

abbrev pub max_selector_bytes : ℕ
max_selector_bytes = 512

abbrev pub max_cosmetic_domains : ℕ
max_cosmetic_domains = 200

abbrev pub max_network_id : ℕ
max_network_id = 999999999

abbrev pub resource_types : List Str
resource_types =
    codes "sub_frame"
    ∷ codes "stylesheet"
    ∷ codes "script"
    ∷ codes "image"
    ∷ codes "font"
    ∷ codes "object"
    ∷ codes "xmlhttprequest"
    ∷ codes "ping"
    ∷ codes "media"
    ∷ codes "websocket"
    ∷ codes "other"
    ∷ []

pub data NormalizedRule : Type 0 where
  network : (pattern : Str) (exception third_party : Bool) → NormalizedRule
  cosmetic : (domains : List Str) (selector : Str) → NormalizedRule

-- The bytes of a hostname's label.
unfoldable pub is_label_byte : ℕ → Bool
unfolding is_alphanumeric
is_label_byte b = is_alphanumeric b || b == b'-'

-- Indexing the first and the last byte, which the source does after its test for an empty label.
unfoldable pub first_passes : (ℕ → Bool) → List ℕ → Bool
first_passes p [] = false
first_passes p (b ∷ bs) = p b

unfoldable pub last_passes : (ℕ → Bool) → List ℕ → Bool
last_passes p [] = false
last_passes p (b ∷ []) = p b
last_passes p (b ∷ c ∷ bs) = last_passes p (c ∷ bs)

unfoldable pub valid_label : Str → Bool
valid_label label =
    not (is_empty label)
    && leb (len label) 63
    && first_passes is_alphanumeric (bytes label)
    && last_passes is_alphanumeric (bytes label)
    && all is_label_byte (bytes label)

unfoldable pub valid_hostname : Str → Bool
valid_hostname host = not (is_empty host) && leb (len host) 253 && all valid_label (split b'.' host)

-- The bytes of a literal path: letters, digits and "/._%~:@!&=+-".
unfoldable pub is_path_byte : ℕ → Bool
unfolding is_alphanumeric
is_path_byte b = is_alphanumeric b || any (λ c. b == c) (codes "/._%~:@!&=+-")

unfoldable pub valid_literal_path : Str → Bool
valid_literal_path path = starts_with (codes "/") path && all is_path_byte (bytes path)
