-- ===== src/Text/Ascii.antt =====
-- Texts whose bytes are tested by a class of ASCII bytes: the bytes are the characters.
use not_another_ad_blocker.Prelude.{
  ℕ, ◌<◌, ◌+◌, ◌/◌, ◌≡◌, refl, Bool, true, List, [], ◌∷◌, ◌++◌, arith, all, All,
}
use not_another_ad_blocker.Text.{Str, encode_char, bytes}

abbrev pub IsAscii : Str → Type 0
IsAscii = All (λ c. c < 0x80)

pub bytes_of_IsAscii : (s : Str) → IsAscii s → bytes s ≡ s
unfolding bytes encode_char
bytes_of_IsAscii [] h = refl
bytes_of_IsAscii (c ∷ s) (small, h) = ground (arith, bytes_of_IsAscii s h)

-- `p` passes ASCII bytes only.
module _ (p : ℕ → Bool) (ascii : (b : ℕ) → p b ≡ true → b < 0x80) where
  abbrev pub Passes : Str → Type 0
  Passes = All (λ c. p c ≡ true)

  encode_char-ascii :
      (c : ℕ) (bs : List ℕ) → all p (encode_char c ++ bs) ≡ true → (p c ≡ true) × (all p bs ≡ true)
  unfolding encode_char
  encode_char-ascii c bs h =
      ground (arith, ascii (0xC0 + c / 64), ascii (0xE0 + c / 4096), ascii (0xF0 + c / 262144))

  pub all-bytes : (s : Str) → all p (bytes s) ≡ true → Passes s
  unfolding bytes
  all-bytes [] h = tt
  all-bytes (c ∷ s) h =
      let (here, later) = encode_char-ascii c (bytes s) h in (here, all-bytes s later)

  pub Passes-IsAscii : (s : Str) → Passes s → IsAscii s
  Passes-IsAscii [] h = tt
  Passes-IsAscii (c ∷ s) (here, later) = (ascii c here, Passes-IsAscii s later)

  pub all_of_Passes : (s : Str) → Passes s → all p s ≡ true
  all_of_Passes [] h = refl
  all_of_Passes (c ∷ s) (here, later) = rw here (all_of_Passes s later)

  pub all-bytes_of_Passes : (s : Str) → Passes s → all p (bytes s) ≡ true
  all-bytes_of_Passes s h = rw (bytes_of_IsAscii s (Passes-IsAscii s h)) (all_of_Passes s h)
