-- ===== src/Rules/Selector/Canonical.antt =====
-- The canonical form of companion/src/rules.rs: equivalent spacing has one key.
use not_another_ad_blocker.Prelude.{
  ℕ, ◌≤◌, ◌<◌, ◌≡◌, ◌≢◌, refl, sym, ◌∙◌, ap, Bool, true, false, ◌||◌, List, [], ◌∷◌, ◌++◌, none,
  some, arith, ◌==◌, inl, inr, All, All-map, All-append, Option-cases,
}
use not_another_ad_blocker.Text.{
  Str, codes, bytes, len, is_empty, split_once, strip_suffix, trim_matches,
}
use not_another_ad_blocker.Text.Laws.{
  split_once_sound, strip_suffix_sound, split_once-append, strip_suffix-append,
}
use not_another_ad_blocker.Text.Absent.{Lacks}
use not_another_ad_blocker.Text.Ascii.{all-bytes, all_of_Passes}
use not_another_ad_blocker.Text.Length.{len-append, len-trim_matches, trim_matches_none}
use not_another_ad_blocker.Rules.Syntax.{max_selector_bytes}
use not_another_ad_blocker.Rules.Selector.{
  is_mark, is_tag_byte, is_ident_start, is_ident_byte, valid_compound, has_child, is_space,
  valid_child, valid_selector, canonical_selector,
}
use not_another_ad_blocker.Rules.Selector.Spaces.{
  without_spaces, without_spaces-append, without_spaces_none, without_spaces-trim_matches,
}
use not_another_ad_blocker.Rules.Selector.Grammar.{
  Ident, plain, hyphen, Segments, done, segment, Tag, none_given, tag, Compound, compound,
  valid_compound_bytes_iff,
}

-- The bytes that a compound can hold.
is_compound_byte : ℕ → Bool
is_compound_byte b = is_mark b || is_ident_byte b

is_compound_byte-ascii : (b : ℕ) → is_compound_byte b ≡ true → b < 0x80
unfolding is_compound_byte is_mark is_ident_byte
is_compound_byte-ascii b h = ground arith

abbrev AllCompound : List ℕ → Type 0
AllCompound = All (λ b. is_compound_byte b ≡ true)

ident_byte : (b : ℕ) → is_ident_byte b ≡ true → is_compound_byte b ≡ true
unfolding is_compound_byte
ident_byte b h = ground arith

start_byte : (b : ℕ) → (is_ident_start b || b == b'-') ≡ true → is_compound_byte b ≡ true
unfolding is_compound_byte is_ident_start is_ident_byte
start_byte b h = ground arith

tag_byte : (b : ℕ) → is_tag_byte b ≡ true → is_compound_byte b ≡ true
unfolding is_compound_byte is_tag_byte is_ident_byte
tag_byte b h = ground arith

Ident-AllCompound : {bs : List ℕ} → Ident bs → AllCompound bs
Ident-AllCompound (plain b bs start later) =
    (start_byte b (ground arith), All-map ident_byte bs later)
Ident-AllCompound (hyphen b bs start later) =
    (start_byte b'-' (hyphen_starts), (start_byte b start, All-map ident_byte bs later))
  where
    hyphen_starts : (is_ident_start b'-' || b'-' == b'-') ≡ true
    hyphen_starts = ground arith

Segments-AllCompound : {bs : List ℕ} → Segments bs → AllCompound bs
unfolding is_compound_byte
Segments-AllCompound done = tt
Segments-AllCompound (segment mark ident rest m i r) = (
  rw m,
  All-append (λ b. is_compound_byte b ≡ true) ident rest (Ident-AllCompound i)
      (Segments-AllCompound r),
)

Tag-AllCompound : {bs : List ℕ} → Tag bs → AllCompound bs
unfolding is_tag_byte
Tag-AllCompound none_given = tt
Tag-AllCompound (tag b bs start later) = (tag_byte b (ground arith), All-map tag_byte bs later)

Compound-AllCompound : {bs : List ℕ} → Compound bs → AllCompound bs
Compound-AllCompound (compound name rest t s) =
    All-append (λ b. is_compound_byte b ≡ true) name rest (Tag-AllCompound t)
      (Segments-AllCompound s)

-- A compound holds neither a colon nor a space.
valid_compound-Lacks :
    (d : ℕ) (s : Str) → is_compound_byte d ≡ false → valid_compound s ≡ true → Lacks d s
unfolding valid_compound
valid_compound-Lacks d s outside h =
    All-map (λ c p e. cc (rw e at p)) s
      (all-bytes is_compound_byte is_compound_byte-ascii s (
        all_of_Passes is_compound_byte is_compound_byte-ascii (bytes s)
          (Compound-AllCompound ((valid_compound_bytes_iff (bytes s)).0 h).2)))

not_space : (c : ℕ) → c ≢ 32 → is_space c ≡ false
not_space c ne = ground arith

module _ (s parent tail child : Str) (found : split_once has_child s ≡ some (parent, tail))
    (closed : strip_suffix (codes ")") tail ≡ some child) (valid : valid_compound parent ≡ true)
    (checked : valid_child (trim_matches is_space child) ≡ true) where
  abbrev trimmed : Str
  trimmed = trim_matches is_space child

  abbrev respaced : Str
  respaced = parent ++ (has_child ++ (trimmed ++ codes ")"))

  split_respaced : split_once has_child respaced ≡ some (parent, trimmed ++ codes ")")
  unfolding is_compound_byte is_mark is_ident_byte
  split_respaced =
      split_once-append b':' (codes "has(>") parent (trimmed ++ codes ")")
        (valid_compound-Lacks b':' parent refl valid)

  trim_trimmed : trim_matches is_space trimmed ≡ trimmed
  unfolding is_compound_byte is_mark is_ident_byte valid_child
  trim_trimmed =
      trim_matches_none is_space trimmed
        (All-map not_space trimmed (valid_compound-Lacks 32 trimmed refl (ground arith)))

  respaced-canonical : canonical_selector s ≡ respaced
  unfolding canonical_selector
  respaced-canonical = ground (arith, found, closed)

  canonical-respaced : canonical_selector respaced ≡ respaced
  unfolding canonical_selector
  canonical-respaced =
      ground (arith, split_respaced, strip_suffix-append trimmed (codes ")"), trim_trimmed)

  respaced-without_spaces : respaced ≡ without_spaces s
  unfolding is_compound_byte is_mark is_ident_byte valid_child without_spaces
  respaced-without_spaces =
      let whole : s ≡ parent ++ (has_child ++ (child ++ codes ")")) =
        split_once_sound has_child s found
        ∙ ap (λ x. parent ++ (has_child ++ x)) (strip_suffix_sound (codes ")") tail closed) in
      let inner : without_spaces child ≡ trimmed =
        sym (without_spaces-trim_matches child)
        ∙ without_spaces_none trimmed (valid_compound-Lacks 32 trimmed refl (ground arith)) in
      let outer : without_spaces parent ≡ parent =
        without_spaces_none parent (valid_compound-Lacks 32 parent refl valid) in
      rw whole (
        rw
          (
            without_spaces-append parent (has_child ++ (child ++ codes ")")),
            without_spaces-append has_child (child ++ codes ")"),
            without_spaces-append child (codes ")"),
            inner,
            outer,
          )
          refl)

  len-respaced : len respaced ≤ len s
  len-respaced =
      let whole : s ≡ parent ++ (has_child ++ (child ++ codes ")")) =
        split_once_sound has_child s found
        ∙ ap (λ x. parent ++ (has_child ++ x)) (strip_suffix_sound (codes ")") tail closed) in
      rw whole (
        omega (
          arith,
          len-append parent (has_child ++ (trimmed ++ codes ")")),
          len-append has_child (trimmed ++ codes ")"),
          len-append trimmed (codes ")"),
          len-append parent (has_child ++ (child ++ codes ")")),
          len-append has_child (child ++ codes ")"),
          len-append child (codes ")"),
          len-trim_matches is_space child,
        ))

  respaced_nonempty : is_empty respaced ≡ false
  respaced_nonempty = nonempty parent
    where
      nonempty : (p : Str) → is_empty (p ++ (has_child ++ (trimmed ++ codes ")"))) ≡ false
      nonempty [] = refl
      nonempty (c ∷ p) = refl

  valid-respaced : len s ≤ max_selector_bytes → valid_selector respaced ≡ true
  unfolding valid_selector
  valid-respaced short = ground (
    arith,
    respaced_nonempty,
    len-respaced,
    split_respaced,
    strip_suffix-append trimmed (codes ")"),
    trim_trimmed,
  )

canonical_plain : (s : Str) → split_once has_child s ≡ none → canonical_selector s ≡ s
unfolding canonical_selector
canonical_plain s e = ground arith

valid_selector-closed :
    (s parent tail : Str)
    → valid_selector s ≡ true
    → split_once has_child s ≡ some (parent, tail)
    → strip_suffix (codes ")") tail ≢ none
unfolding valid_selector
valid_selector-closed s parent tail h e = ground arith

valid_selector-parts :
    (s parent tail child : Str)
    → valid_selector s ≡ true
    → split_once has_child s ≡ some (parent, tail)
    → strip_suffix (codes ")") tail ≡ some child
    → (valid_compound parent ≡ true)
      × (valid_child (trim_matches is_space child) ≡ true)
      × (len s ≤ max_selector_bytes)
unfolding valid_selector
valid_selector-parts s parent tail child h e e' = ground arith

whole_plain :
    (s : Str) → valid_selector s ≡ true → split_once has_child s ≡ none → valid_compound s ≡ true
unfolding valid_selector
whole_plain s h e = ground arith

-- The canonical form of a valid selector is the selector less all of its spaces, so that selectors
-- that differ in their spaces only have one form. It is valid, and is its own canonical form.
pub canonical_selector-valid_selector :
    (s : Str)
    → valid_selector s ≡ true
    → (valid_selector (canonical_selector s) ≡ true)
      × (canonical_selector (canonical_selector s) ≡ canonical_selector s)
      × (canonical_selector s ≡ without_spaces s)
unfolding is_compound_byte is_mark is_ident_byte
canonical_selector-valid_selector s h = elim (Option-cases (split_once has_child s)) [
  | inl e ↦ rw (canonical_plain s e) (
    h,
    canonical_plain s e,
    sym (without_spaces_none s (valid_compound-Lacks 32 s refl (whole_plain s h e))),
  )
  | inr ((parent, tail), e) ↦ elim (Option-cases (strip_suffix (codes ")") tail)) [
    | inl e' ↦ absurd (valid_selector-closed s parent tail h e e')
    | inr (child, e') ↦
        let (valid, checked, short) = valid_selector-parts s parent tail child h e e' in
        rw (respaced-canonical s parent tail child e e' valid checked) (
          valid-respaced s parent tail child e e' valid checked short,
          canonical-respaced s parent tail child e e' valid checked,
          respaced-without_spaces s parent tail child e e' valid checked,
        )
  ]
]
