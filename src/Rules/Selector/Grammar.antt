-- ===== src/Rules/Selector/Grammar.antt =====
-- The compounds of companion/src/rules.rs as a grammar: an optional tag name, then classes and IDs.
use not_another_ad_blocker.Prelude.{
  ℕ, zero, suc, ◌≤◌, ◌≡◌, ◌≢◌, refl, ap, sym, subst, Bool, true, false, ◌||◌, List, [], ◌∷◌, ◌++◌,
  some, arith, ◌==◌, inl, inr, ◌↔◌, All, length, length-append, Bool-cases, Option-cases,
}
use not_another_ad_blocker.Text.Chars.{is_alphabetic}
use not_another_ad_blocker.Rules.Syntax.{max_selector_bytes}
use not_another_ad_blocker.Rules.Selector.{
  is_mark, is_tag_byte, is_ident_start, is_ident_byte, skip, skip_tag, after_hyphen, skip_ident,
  segments, valid_compound_bytes,
}

-- A CSS identifier without escapes: a letter or an underscore, or a hyphen with a letter, an
-- underscore or a hyphen behind it, and then letters, digits, underscores and hyphens.
pub data Ident : List ℕ → Type 0 where
  plain :
      (b : ℕ) (bs : List ℕ)
      → is_ident_start b ≡ true
      → All (λ c. is_ident_byte c ≡ true) bs
      → Ident (b ∷ bs)
  hyphen :
      (b : ℕ) (bs : List ℕ)
      → (is_ident_start b || b == b'-') ≡ true
      → All (λ c. is_ident_byte c ≡ true) bs
      → Ident (b'-' ∷ b ∷ bs)

-- Classes and IDs: each a "." or "#" and an identifier.
pub data Segments : List ℕ → Type 0 where
  done : Segments []
  segment :
      (mark : ℕ) (ident rest : List ℕ)
      → is_mark mark ≡ true
      → Ident ident
      → Segments rest
      → Segments (mark ∷ (ident ++ rest))

-- A letter, and then letters, digits and hyphens; or nothing.
pub data Tag : List ℕ → Type 0 where
  none_given : Tag []
  tag :
      (b : ℕ) (bs : List ℕ)
      → is_alphabetic b ≡ true
      → All (λ c. is_tag_byte c ≡ true) bs
      → Tag (b ∷ bs)

pub data Compound : List ℕ → Type 0 where
  compound : (name rest : List ℕ) → Tag name → Segments rest → Compound (name ++ rest)

-- What a loop has passed, and what it stops at.
abbrev Skipped : (ℕ → Bool) → List ℕ → Type 0
Skipped p bs = (taken : List ℕ) × (bs ≡ taken ++ skip p bs) × All (λ c. p c ≡ true) taken

skip-Skipped : (p : ℕ → Bool) (bs : List ℕ) → Skipped p bs
unfolding skip
skip-Skipped p [] = ([], refl, tt)
skip-Skipped p (b ∷ bs) = elim (Bool-cases (p b)) [
  | inl e ↦
      let (taken, whole, passed) = skip-Skipped p bs in
      (b ∷ taken, rw (e, skip) (ap (λ x. b ∷ x) whole), (e, passed))
  | inr e ↦ ([], rw (e, skip) refl, tt)
]

-- A text that begins with no byte that passes.
abbrev Stops : (ℕ → Bool) → List ℕ → Type 0
Stops p [] = Unit
Stops p (b ∷ bs) = p b ≡ false

skip-append :
    (p : ℕ → Bool) (taken rest : List ℕ)
    → All (λ c. p c ≡ true) taken
    → Stops p rest
    → skip p (taken ++ rest) ≡ rest
unfolding skip
skip-append p [] [] _ _ = refl
skip-append p [] (b ∷ rest) _ stop = rw stop
skip-append p (b ∷ taken) rest (here, later) stop = rw here (skip-append p taken rest later stop)

after_hyphen_sound :
    (bs : List ℕ) {rest : List ℕ}
    → after_hyphen bs ≡ some rest
    → (b : ℕ) × (taken : List ℕ) × (bs ≡ b ∷ (taken ++ rest))
      × ((is_ident_start b || b == b'-') ≡ true)
      × All (λ c. is_ident_byte c ≡ true) taken
unfolding after_hyphen
after_hyphen_sound [] h = cc
after_hyphen_sound (b ∷ bs) h =
    let (taken, whole, passed) = skip-Skipped is_ident_byte bs in
    (b, taken, ground arith, ground arith, passed)

skip_ident_sound :
    (bs : List ℕ) {rest : List ℕ}
    → skip_ident bs ≡ some rest
    → (ident : List ℕ) × (bs ≡ ident ++ rest) × Ident ident
unfolding skip_ident
skip_ident_sound [] h = cc
skip_ident_sound (b ∷ bs) {rest} h = elim (Bool-cases (b == b'-')) [
  | inl e ↦
      let (c, taken, whole, start, passed) = after_hyphen_sound bs {rest = rest} (ground arith) in
      (b'-' ∷ c ∷ taken, ground arith, hyphen c taken start passed)
  | inr e ↦
      let (taken, whole, passed) = skip-Skipped is_ident_byte bs in
      (b ∷ taken, ground arith, plain b taken (ground arith) passed)
]

segments_sound : (fuel : ℕ) (bs : List ℕ) → segments fuel bs ≡ true → Segments bs
unfolding segments
segments_sound fuel [] h = done
segments_sound zero (b ∷ bs) h = cc
segments_sound (suc fuel) (b ∷ bs) h = elim (Option-cases (skip_ident bs)) [
  | inl e ↦ absurd (ground arith)
  | inr (rest, e) ↦
      let (ident, whole, good) = skip_ident_sound bs e in
      rw whole (segment b ident rest (ground arith) good (segments_sound fuel rest (ground arith)))
]

is_mark-stops :
    (mark : ℕ) → is_mark mark ≡ true → (is_ident_byte mark ≡ false) × (is_tag_byte mark ≡ false)
unfolding is_mark is_ident_byte is_tag_byte
is_mark-stops mark h = ground arith

Segments-Stops : {bs : List ℕ} → Segments bs → Stops is_ident_byte bs × Stops is_tag_byte bs
Segments-Stops done = (tt, tt)
Segments-Stops (segment mark ident rest m i r) = is_mark-stops mark m

hyphen_is_no_start : is_ident_start b'-' ≡ false
unfolding is_ident_start
hyphen_is_no_start = refl

skip_ident-append :
    {ident : List ℕ} (rest : List ℕ)
    → Ident ident
    → Stops is_ident_byte rest
    → skip_ident (ident ++ rest) ≡ some rest
unfolding skip_ident after_hyphen
skip_ident-append rest (plain b bs start later) stop =
    ground (arith, skip-append is_ident_byte bs rest later stop, hyphen_is_no_start)
skip_ident-append rest (hyphen b bs start later) stop =
    ground (arith, skip-append is_ident_byte bs rest later stop)

Segments-complete :
    {bs : List ℕ} (fuel : ℕ) → Segments bs → length bs ≤ fuel → segments fuel bs ≡ true
unfolding segments
Segments-complete fuel done h = refl
Segments-complete zero (segment mark ident rest m i r) h = absurd (omega arith)
Segments-complete (suc fuel) (segment mark ident rest m i r) h = ground (
  arith,
  skip_ident-append rest i (Segments-Stops r).0,
  Segments-complete fuel r (omega (arith, length-append {0} ident rest)),
)

skip_tag_sound : (bs : List ℕ) → (name : List ℕ) × (bs ≡ name ++ skip_tag bs) × Tag name
unfolding skip_tag
skip_tag_sound [] = ([], refl, none_given)
skip_tag_sound (b ∷ bs) = elim (Bool-cases (is_alphabetic b)) [
  | inl e ↦
      let (taken, whole, passed) = skip-Skipped is_tag_byte bs in
      (b ∷ taken, ground arith, tag b taken e passed)
  | inr e ↦ ([], rw (e, skip_tag) refl, none_given)
]

is_mark-ne-alphabetic : (b : ℕ) → is_mark b ≡ true → is_alphabetic b ≡ false
unfolding is_mark is_alphabetic
is_mark-ne-alphabetic b h = ground arith

skip_tag-Segments : {bs : List ℕ} → Segments bs → skip_tag bs ≡ bs
unfolding skip_tag
skip_tag-Segments done = refl
skip_tag-Segments (segment mark ident rest m i r) = rw (is_mark-ne-alphabetic mark m)

skip_tag-append : {name rest : List ℕ} → Tag name → Segments rest → skip_tag (name ++ rest) ≡ rest
unfolding skip_tag
skip_tag-append none_given s = skip_tag-Segments s
skip_tag-append {rest} (tag b bs start later) s =
    rw start (skip-append is_tag_byte bs rest later (Segments-Stops s).1)

-- A text is accepted as a compound exactly if it is not empty, has at most 512 bytes, and is an
-- optional tag name with classes and IDs behind it; so the loop's fuel is enough.
pub valid_compound_bytes_iff :
    (bs : List ℕ)
    → (valid_compound_bytes bs ≡ true)
      ↔ ((bs ≢ []) × (length bs ≤ max_selector_bytes) × Compound bs)
unfolding valid_compound_bytes
valid_compound_bytes_iff bs = (to, from bs)
  where
    to : valid_compound_bytes bs ≡ true → (bs ≢ []) × (length bs ≤ max_selector_bytes) × Compound bs
    to h =
        let (name, whole, named) = skip_tag_sound bs in
        let rest : Segments (skip_tag bs) =
          segments_sound (length bs) (skip_tag bs) (ground arith) in
        (
          ground arith,
          ground arith,
          subst Compound (sym whole) (compound name (skip_tag bs) named rest),
        )

    from :
        (bs : List ℕ)
        → (bs ≢ []) × (length bs ≤ max_selector_bytes) × Compound bs
        → valid_compound_bytes bs ≡ true
    from bs (some_byte, short, compound name rest named s) = ground (
      arith,
      skip_tag-append named s,
      Segments-complete (length (name ++ rest)) s (omega (arith, length-append {0} name rest)),
    )
