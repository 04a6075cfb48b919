-- ===== src/Text/Chars.antt =====
-- Classes of characters and bytes: `char` and `u8` methods of the standard library.
use not_another_ad_blocker.Prelude.{ℕ, ◌+◌, ◌≡◌, Bool, ◌&&◌, ◌||◌, arith, leb, ◌==◌, if◌then◌else◌}

unfoldable pub is_digit : ℕ → Bool
is_digit c = leb b'0' c && leb c b'9'

unfoldable pub is_alphabetic : ℕ → Bool
is_alphabetic c = (leb b'a' c && leb c b'z') || (leb b'A' c && leb c b'Z')

unfoldable pub is_alphanumeric : ℕ → Bool
unfolding is_digit is_alphabetic
is_alphanumeric c = is_alphabetic c || is_digit c

-- `u8::to_ascii_lowercase`.
unfoldable pub to_lower : ℕ → ℕ
to_lower c = if leb b'A' c && leb c b'Z' then c + 32 else c

-- `char::is_whitespace`: the Unicode property White_Space.
unfoldable pub is_whitespace : ℕ → Bool
is_whitespace c =
    (leb 9 c && leb c 13)
    || c == 32
    || c == 0x85
    || c == 0xA0
    || c == 0x1680
    || (leb 0x2000 c && leb c 0x200A)
    || c == 0x2028
    || c == 0x2029
    || c == 0x202F
    || c == 0x205F
    || c == 0x3000

-- `char::is_control`: the Unicode category Cc.
unfoldable pub is_control : ℕ → Bool
is_control c = leb c 31 || (leb 127 c && leb c 159)

pub to_lower_idem : (c : ℕ) → to_lower (to_lower c) ≡ to_lower c
unfolding to_lower
to_lower_idem c = ground arith

pub is_alphanumeric-to_lower : (c : ℕ) → is_alphanumeric (to_lower c) ≡ is_alphanumeric c
unfolding to_lower is_alphanumeric
is_alphanumeric-to_lower c = ground arith
