-- ===== src/Dns/Blocklist/Truncate.antt =====
-- companion/src/dns/blocklist.rs, `truncate_utf8`: the longest prefix of a text within a limit of
-- bytes that ends between two characters.
use not_another_ad_blocker.Prelude.{
  ℕ, zero, suc, ◌-◌, Bool, ◌&&◌, ◌||◌, [], ◌∷◌, leb, ◌==◌, length, min, if◌then◌else◌,
}
use not_another_ad_blocker.Text.{Str, encode_char, len}

abbrev pub char_len : ℕ → ℕ
char_len c = length (encode_char c)

-- `str::is_char_boundary`.
unfoldable pub is_char_boundary : Str → ℕ → Bool
is_char_boundary [] n = n == 0
is_char_boundary (c ∷ s) n = n == 0 || (leb (char_len c) n && is_char_boundary s (n - char_len c))

-- The `while` loop from `end` down to a boundary; it stops at 0 at the latest.
unfoldable pub floor_boundary : Str → ℕ → ℕ
floor_boundary s zero = zero
floor_boundary s (suc end) =
    let lower = floor_boundary s end in if is_char_boundary s (suc end) then suc end else lower

-- `&text[..end]` at a boundary.
unfoldable pub slice_to : Str → ℕ → Str
slice_to [] end = []
slice_to (c ∷ s) end =
    let rest = slice_to s (end - char_len c) in
    if end == 0 then [] else if leb (char_len c) end then c ∷ rest else []

unfoldable pub truncate_utf8 : Str → ℕ → Str
truncate_utf8 text limit = slice_to text (floor_boundary text (min (len text) limit))
