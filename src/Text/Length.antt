-- ===== src/Text/Length.antt =====
-- Byte lengths, and trimming.
use not_another_ad_blocker.Prelude.{
  ℕ, ◌+◌, ◌≤◌, ◌≡◌, refl, Bool, false, [], ◌∷◌, ◌++◌, append_assoc, arith, All, length,
  length-append,
}
use not_another_ad_blocker.Text.{Str, encode_char, bytes, len, trim_start, trim_end, trim_matches}

pub bytes-append : (s t : Str) → bytes (s ++ t) ≡ bytes s ++ bytes t
unfolding bytes
bytes-append [] t = refl
bytes-append (c ∷ s) t = simp (bytes-append s t, append_assoc)

pub len-append : (s t : Str) → len (s ++ t) ≡ len s + len t
unfolding len
len-append s t = rw (bytes-append s t, length-append {0} (bytes s) (bytes t))

len-nil : len [] ≡ 0
unfolding len bytes
len-nil = refl

len-cons : (c : ℕ) (s : Str) → len (c ∷ s) ≡ length (encode_char c) + len s
unfolding len bytes
len-cons c s = length-append {0} (encode_char c) (bytes s)

module _ (p : ℕ → Bool) where
  len-trim_start : (s : Str) → len (trim_start p s) ≤ len s
  unfolding trim_start
  len-trim_start [] = omega arith
  len-trim_start (c ∷ s) = ground (arith, len-trim_start s, len-cons c s)

  len-trim_end : (s : Str) → len (trim_end p s) ≤ len s
  unfolding trim_end
  len-trim_end [] = omega arith
  len-trim_end (c ∷ s) =
      ground (arith, len-trim_end s, len-cons c s, len-cons c (trim_end p s), len-nil)

  pub len-trim_matches : (s : Str) → len (trim_matches p s) ≤ len s
  unfolding trim_matches
  len-trim_matches s = omega (arith, len-trim_end (trim_start p s), len-trim_start s)

  trim_start_none : (s : Str) → All (λ c. p c ≡ false) s → trim_start p s ≡ s
  unfolding trim_start
  trim_start_none [] h = refl
  trim_start_none (c ∷ s) (h, _) = rw h

  trim_end_none : (s : Str) → All (λ c. p c ≡ false) s → trim_end p s ≡ s
  unfolding trim_end
  trim_end_none [] h = refl
  trim_end_none (c ∷ s) (here, later) = rw (here, trim_end_none s later)

  -- Nothing is trimmed where no character passes.
  pub trim_matches_none : (s : Str) → All (λ c. p c ≡ false) s → trim_matches p s ≡ s
  unfolding trim_matches
  trim_matches_none s h = rw (trim_start_none s h) (trim_end_none s h)
