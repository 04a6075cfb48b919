-- ===== src/Text/Absent.antt =====
-- Searches for a character that the text does not hold.
use not_another_ad_blocker.Prelude.{
  ℕ, ◌≡◌, ◌≢◌, refl, Bool, true, false, [], ◌∷◌, ◌++◌, none, some, arith, All,
}
use not_another_ad_blocker.Text.{
  Str, contains, split_once, strip_prefix, strip_suffix, find_split, split,
}

abbrev pub Lacks : ℕ → Str → Type 0
Lacks d = All (λ c. c ≢ d)

pub split_once_absent : (d : ℕ) (p s : Str) → Lacks d s → split_once (d ∷ p) s ≡ none
unfolding split_once strip_prefix
split_once_absent d p [] h = refl
split_once_absent d p (c ∷ s) (ne, h) = ground (arith, split_once_absent d p s h)

pub contains_absent : (d : ℕ) (p s : Str) → Lacks d s → contains (d ∷ p) s ≡ false
unfolding contains
contains_absent d p s h = rw (split_once_absent d p s h)

pub strip_suffix_absent : (d : ℕ) (s : Str) → Lacks d s → strip_suffix (d ∷ []) s ≡ none
unfolding strip_suffix
strip_suffix_absent d [] h = refl
strip_suffix_absent d (c ∷ s) (ne, h) = ground (arith, strip_suffix_absent d s h)

pub find_split-append :
    (p : ℕ → Bool) (a b : Str) (c : ℕ)
    → All (λ x. p x ≡ false) a
    → p c ≡ true
    → find_split p (a ++ (c ∷ b)) ≡ some (a, c ∷ b)
unfolding find_split
find_split-append p [] b c h e = rw e
find_split-append p (x ∷ a) b c (here, later) e = rw (here, find_split-append p a b c later e)

pub split_absent : (d : ℕ) (s : Str) → Lacks d s → split d s ≡ s ∷ []
unfolding split
split_absent d [] h = refl
split_absent d (c ∷ s) (ne, h) = ground (arith, split_absent d s h)
