-- ===== src/Rules/Selector/Spaces.antt =====
-- companion/src/rules.rs, `canonical_selector`: what trimming does to the spaces of a selector.
use not_another_ad_blocker.Prelude.{
  ◌≡◌, refl, ◌∙◌, true, [], ◌∷◌, inl, inr, Bool-cases, ◌++◌, if◌then◌else◌, arith, ◌==◌,
}
use not_another_ad_blocker.Text.{Str, trim_start, trim_end, trim_matches, is_empty}
use not_another_ad_blocker.Text.Absent.{Lacks}
use not_another_ad_blocker.Rules.Selector.{is_space}

-- A selector less all of its spaces.
unfoldable pub without_spaces : Str → Str
without_spaces [] = []
without_spaces (c ∷ s) = let rest = without_spaces s in if c == 32 then rest else c ∷ rest

pub without_spaces-append :
    (s t : Str) → without_spaces (s ++ t) ≡ without_spaces s ++ without_spaces t
unfolding without_spaces
without_spaces-append [] t = refl
without_spaces-append (c ∷ s) t = ground (arith, without_spaces-append s t)

pub without_spaces_none : (s : Str) → Lacks 32 s → without_spaces s ≡ s
unfolding without_spaces
without_spaces_none [] h = refl
without_spaces_none (c ∷ s) (h, rest) = ground (arith, without_spaces_none s rest)

without_spaces-trim_start : (s : Str) → without_spaces (trim_start is_space s) ≡ without_spaces s
unfolding without_spaces trim_start
without_spaces-trim_start [] = refl
without_spaces-trim_start (c ∷ s) = ground (arith, without_spaces-trim_start s)

empty_spaces : (s : Str) → is_empty s ≡ true → without_spaces s ≡ []
unfolding without_spaces is_empty
empty_spaces [] h = refl
empty_spaces (c ∷ s) h = absurd (ground arith)

without_spaces-trim_end : (s : Str) → without_spaces (trim_end is_space s) ≡ without_spaces s
unfolding without_spaces trim_end
without_spaces-trim_end [] = refl
without_spaces-trim_end (c ∷ s) = elim (Bool-cases (is_empty (trim_end is_space s))) [
  | inl e ↦ ground (arith, without_spaces-trim_end s, empty_spaces (trim_end is_space s) e)
  | inr e ↦ ground (arith, without_spaces-trim_end s)
]

-- Trimming takes nothing but spaces.
pub without_spaces-trim_matches :
    (s : Str) → without_spaces (trim_matches is_space s) ≡ without_spaces s
unfolding trim_matches
without_spaces-trim_matches s =
    without_spaces-trim_end (trim_start is_space s) ∙ without_spaces-trim_start s
