-- ===== src/Text/Laws.antt =====
-- Laws of the text operations: what a successful search says of the text, and the converse.
use mathlib.Core.Option
use not_another_ad_blocker.Prelude.{
  ℕ, ◌≡◌, ◌≢◌, refl, some_inj, ◌↔◌, Bool, true, false, ◌∷◌, [], ◌++◌, some, ap, subst, inl, inr,
  arith, ==_refl, length, length-append, All, Bool-cases, Option-cases,
}
use not_another_ad_blocker.Text.{
  Str, str_eq, strip_prefix, strip_suffix, split_once, find_split, to_ascii_lowercase,
}
use not_another_ad_blocker.Text.Chars.{to_lower_idem}

pub str_eq_refl : (s : Str) → str_eq s s ≡ true
str_eq_refl [] = refl
str_eq_refl (c ∷ s) = rw (==_refl c) (str_eq_refl s)

pub eq_of_str_eq : (s t : Str) → str_eq s t ≡ true → s ≡ t
eq_of_str_eq [] [] h = refl
eq_of_str_eq [] (b ∷ t) h = cc
eq_of_str_eq (a ∷ s) [] h = cc
eq_of_str_eq (a ∷ s) (b ∷ t) h = ground (arith, eq_of_str_eq s t)

pub str_eq_iff : (s t : Str) → (str_eq s t ≡ true) ↔ (s ≡ t)
str_eq_iff s t = (eq_of_str_eq s t, λ e. rw e (str_eq_refl t))

pub strip_prefix_sound : (p s : Str) {r : Str} → strip_prefix p s ≡ some r → s ≡ p ++ r
unfolding strip_prefix
strip_prefix_sound [] s h = ground arith
strip_prefix_sound (c ∷ p) [] h = cc
strip_prefix_sound (c ∷ p) (d ∷ s) {r} h = ground (arith, strip_prefix_sound p s {r = r})

pub strip_prefix-append : (p s : Str) → strip_prefix p (p ++ s) ≡ some s
unfolding strip_prefix
strip_prefix-append [] s = refl
strip_prefix-append (c ∷ p) s = rw (==_refl c) (strip_prefix-append p s)

pub strip_suffix_sound : (p s : Str) {r : Str} → strip_suffix p s ≡ some r → s ≡ r ++ p
unfolding strip_suffix
strip_suffix_sound p [] h = ground (arith, eq_of_str_eq p [])
strip_suffix_sound p (c ∷ s) {r} h = elim (Bool-cases (str_eq p (c ∷ s))) [
  | inl e ↦ ground (arith, eq_of_str_eq p (c ∷ s) e)
  | inr e ↦
      let (t, found, same) = (Option.map-eq-some_iff _ _).0 (rw e at h) in
      rw (← same) (ap (λ x. c ∷ x) (strip_suffix_sound p s found))
]

longer : (c : ℕ) (r p : Str) → p ≢ c ∷ (r ++ p)
longer c r p e = absurd (omega (arith, ap (length {A = ℕ}) e, length-append {0} r p))

pub strip_suffix-append : (r p : Str) → strip_suffix p (r ++ p) ≡ some r
unfolding strip_suffix
strip_suffix-append [] [] = refl
strip_suffix-append [] (c ∷ p) = rw (==_refl c, str_eq_refl p)
strip_suffix-append (c ∷ r) p = elim (Bool-cases (str_eq p (c ∷ (r ++ p)))) [
  | inl e ↦ absurd (longer c r p (eq_of_str_eq p _ e))
  | inr e ↦ rw (e, strip_suffix-append r p)
]

pub split_once_sound : (p s : Str) {r : Str × Str} → split_once p s ≡ some r → s ≡ r.0 ++ (p ++ r.1)
unfolding split_once
split_once_sound p [] h =
    let (t, found, same) = (Option.map-eq-some_iff _ _).0 h in
    rw (← same) (strip_prefix_sound p [] found)
split_once_sound p (c ∷ s) {r} h = elim (Option-cases (strip_prefix p (c ∷ s))) [
  | inl e ↦
      let (t, found, same) = (Option.map-eq-some_iff _ _).0 (rw (e, split_once) at h) in
      rw (← same) (ap (λ x. c ∷ x) (split_once_sound p s found))
  | inr (t, e) ↦
      let same : some ([], t) ≡ some r = (rw (e, split_once) at h) in
      subst (λ (r : Str × Str). c ∷ s ≡ r.0 ++ (p ++ r.1)) (some_inj same)
        (strip_prefix_sound p (c ∷ s) e)
]

-- A character that the text before it does not hold is where the text is split.
pub split_once-append :
    (d : ℕ) (p a b : Str)
    → All (λ c. c ≢ d) a
    → split_once (d ∷ p) (a ++ ((d ∷ p) ++ b)) ≡ some (a, b)
unfolding split_once strip_prefix
split_once-append d p [] b h = ground (arith, strip_prefix-append p b)
split_once-append d p (c ∷ a) b (ne, h) = ground (arith, split_once-append d p a b h)

abbrev pub IsFoundIn : (ℕ → Bool) → Str → Str × Str → Type 0
IsFoundIn p s r =
    (s ≡ r.0 ++ r.1)
    × All (λ c. p c ≡ false) r.0
    × ((c : ℕ) × (t : Str) × (r.1 ≡ c ∷ t) × (p c ≡ true))

-- Where a search finds a character: nothing before it passes, and it passes.
pub find_split_sound :
    (p : ℕ → Bool) (s : Str) {r : Str × Str} → find_split p s ≡ some r → IsFoundIn p s r
unfolding find_split
find_split_sound p [] h = cc
find_split_sound p (c ∷ s) {r} h = elim (Bool-cases (p c)) [
  | inl e ↦
      let same : some ([], c ∷ s) ≡ some r = (rw (e, find_split) at h) in
      subst (IsFoundIn p (c ∷ s)) (some_inj same) (refl, tt, (c, s, refl, e))
  | inr e ↦
      let (t, found, same) = (Option.map-eq-some_iff _ _).0 (rw (e, find_split) at h) in
      let (whole, before, at_it) = find_split_sound p s found in
      rw (← same) (ap (λ x. c ∷ x) whole, (e, before), at_it)
]

pub to_ascii_lowercase-append :
    (s t : Str) → to_ascii_lowercase (s ++ t) ≡ to_ascii_lowercase s ++ to_ascii_lowercase t
unfolding to_ascii_lowercase
to_ascii_lowercase-append [] t = refl
to_ascii_lowercase-append (c ∷ s) t = rw (to_ascii_lowercase-append s t)

pub to_ascii_lowercase_idem :
    (s : Str) → to_ascii_lowercase (to_ascii_lowercase s) ≡ to_ascii_lowercase s
unfolding to_ascii_lowercase
to_ascii_lowercase_idem [] = refl
to_ascii_lowercase_idem (c ∷ s) = cc (to_lower_idem c, to_ascii_lowercase_idem s)
