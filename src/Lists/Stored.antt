-- ===== src/Lists/Stored.antt =====
-- companion/src/lists.rs, `persist_snapshot`: the loops over the pages of one kind.
use not_another_ad_blocker.Prelude.{
  ℕ, zero, suc, ◌+◌, ◌/◌, ◌≤◌, ◌<◌, ◌≡◌, ◌≢◌, refl, sym, ap, subst, ◌∙◌, min, true, List, [], ◌∷◌,
  Option, none, some, some_inj, ok_inj, All, take, drop, length, length-take, length-drop,
  take-append-drop, arith, ltb, leb, ◌==◌, ok, err, inl, inr, ◌⊎◌, Bool-cases, Option-cases,
}
use not_another_ad_blocker.Text.{Str}
use not_another_ad_blocker.Lists.{
  max_page_bytes, max_snapshot_bytes, PageKind, network, cosmetic, diagnostics, same_kind, Page,
  next_of, fit, page_of, paginate,
}
use not_another_ad_blocker.Lists.Pages.{IsPage, ArePages, last, more}

same_kind_self : (k : PageKind) → same_kind k k ≡ true
same_kind_self network = refl
same_kind_self cosmetic = refl
same_kind_self diagnostics = refl

take_all : {A : Type 0} (n : ℕ) (xs : List A) → length xs ≤ n → take n xs ≡ xs
take_all zero [] le = refl
take_all zero (x ∷ xs) le = absurd (omega arith)
take_all (suc n) [] le = refl
take_all (suc n) (x ∷ xs) le = ap (λ l. x ∷ l) (take_all n xs (omega arith))

module _ {A : Type 0} (to_vec : PageKind → ℕ → ℕ → List A → Option ℕ → Option (List ℕ))
    (digest : List ℕ → Str) (kind : PageKind) (total : ℕ) where
  -- Halving ends: the number of items is less than the fuel.
  fit-total :
      (fuel offset : ℕ) (rest : List A) (count : ℕ)
      → count < fuel
      → fit to_vec digest kind total fuel offset rest count ≢ none
  unfolding fit
  fit-total zero offset rest count less h = absurd (omega arith)
  fit-total (suc fuel) offset rest count less h =
      elim (Option-cases
        (to_vec kind offset total (take count rest) (next_of (offset + count) total))) [
          | inl e ↦ absurd (ground arith)
          | inr (contents, e) ↦ elim (Bool-cases (leb (length contents + 256) max_page_bytes)) [
            | inl e' ↦ absurd (ground arith)
            | inr e' ↦ elim (Bool-cases (leb count 1)) [
              | inl e'' ↦ absurd (ground arith)
              | inr e'' ↦
                  fit-total fuel offset rest (count / 2) (ground arith) (rw (fit, e, e', e'') at h)
            ]
          ]
        ]

  -- The number of items that was found, and the bytes of their page.
  fit-fits :
      (fuel offset : ℕ) (rest : List A) (count n : ℕ) (contents : List ℕ)
      → fit to_vec digest kind total fuel offset rest count ≡ some (ok (n, contents))
      → (n ≤ count)
        × ((1 ≤ n) ⊎ (count ≡ 0))
        × (length contents + 256 ≤ max_page_bytes)
        × (to_vec kind offset total (take n rest) (next_of (offset + n) total) ≡ some contents)
  unfolding fit
  fit-fits zero offset rest count n contents h = absurd (ground arith)
  fit-fits (suc fuel) offset rest count n contents h =
      elim (Option-cases
        (to_vec kind offset total (take count rest) (next_of (offset + count) total))) [
          | inl e ↦ absurd (ground arith)
          | inr (found, e) ↦ elim (Bool-cases (leb (length found + 256) max_page_bytes)) [
            | inl e' ↦
                let same : (count, found) ≡ (n, contents) =
                  ok_inj (some_inj (rw (fit, e, e') at h)) in
                subst
                  (λ p.
                    (p.0 ≤ count)
                    × ((1 ≤ p.0) ⊎ (count ≡ 0))
                    × (length p.1 + 256 ≤ max_page_bytes)
                    × (to_vec kind offset total (take p.0 rest) (next_of (offset + p.0) total)
                        ≡ some p.1))
                  same (omega arith, some_or_zero count, ground arith, e)
            | inr e' ↦ elim (Bool-cases (leb count 1)) [
              | inl e'' ↦ absurd (ground arith)
              | inr e'' ↦
                  let (less, one, fits, wrote) =
                    fit-fits fuel offset rest (count / 2) n contents (rw (fit, e, e', e'') at h) in
                  (ground (arith, less), ground (arith, one), fits, wrote)
            ]
          ]
        ]
    where
      some_or_zero : (c : ℕ) → (1 ≤ c) ⊎ (c ≡ 0)
      some_or_zero zero = inr refl
      some_or_zero (suc c) = inl (omega arith)

  pub paginate-total :
      (fuel offset : ℕ) (rest : List A) (sum : ℕ)
      → length rest < fuel
      → offset + length rest ≡ total
      → paginate to_vec digest kind total fuel offset rest sum ≢ none
  unfolding paginate
  paginate-total zero offset rest sum less whole h = absurd (omega arith)
  paginate-total (suc fuel) offset rest sum less whole h =
      elim (Option-cases (fit to_vec digest kind total 129 offset rest (min 128 (length rest)))) [
        | inl e ↦ fit-total 129 offset rest (min 128 (length rest)) (omega arith) e
        | inr (err m, e) ↦ absurd (ground arith)
        | inr (ok (n, contents), e) ↦
            elim (Bool-cases (ltb max_snapshot_bytes (sum + length contents))) [
              | inl big ↦ absurd (ground arith)
              | inr room ↦ elim (Bool-cases (offset + n == total)) [
                | inl done ↦ absurd (ground arith)
                | inr going ↦
                    let (few, one, fits, wrote) =
                      fit-fits 129 offset rest (min 128 (length rest)) n contents e in
                    elim (Option-cases (
                      paginate to_vec digest kind total fuel (offset + n) (drop n rest)
                        (sum + length contents))) [
                          | inl out ↦
                              paginate-total fuel (offset + n) (drop n rest) (sum + length contents)
                                (ground (arith, few, one, length-drop {0} n rest))
                                (ground (arith, few, length-drop {0} n rest)) out
                          | inr (err m, e') ↦ absurd (ground arith)
                          | inr (ok (pages, s), e') ↦ absurd (ground arith)
                        ]
              ]
            ]
      ]

  -- The file of a page holds that page.
  abbrev pub IsWritten : Page A → Type 0
  IsWritten page =
      let i = page.index in
      (to_vec i.kind i.offset i.total page.items i.next_offset ≡ some page.contents)
      × (i.sha256 ≡ digest page.contents)
      × (i.bytes ≡ length page.contents)

  abbrev AreStored : ℕ → List A → List (Page A) → Type 0
  AreStored offset rest pages = ArePages kind offset rest pages × All IsWritten pages

  page_of-IsPage :
      (offset : ℕ) (rest : List A) (n : ℕ) (contents : List ℕ)
      → n ≤ 128
      → length contents + 256 ≤ max_page_bytes
      → IsPage kind offset (page_of to_vec digest kind total offset rest n contents)
  page_of-IsPage offset rest n contents few fits = record {
    of_kind = same_kind_self kind;
    at_offset = refl;
    small = (omega (arith, length-take {0} n rest), fits);
  }

  next_last : (end : ℕ) → (end == total) ≡ true → next_of end total ≡ none
  unfolding next_of
  next_last end done = ground arith

  next_more : (end : ℕ) → end < total → next_of end total ≡ some end
  unfolding next_of
  next_more end less = ground arith

  pub paginate-AreStored :
      (fuel offset : ℕ) (rest : List A) (sum s : ℕ) (pages : List (Page A))
      → offset + length rest ≡ total
      → paginate to_vec digest kind total fuel offset rest sum ≡ some (ok (pages, s))
      → AreStored offset rest pages
  unfolding paginate
  paginate-AreStored zero offset rest sum s pages whole h = absurd (ground arith)
  paginate-AreStored (suc fuel) offset rest sum s pages whole h =
      elim (Option-cases (fit to_vec digest kind total 129 offset rest (min 128 (length rest)))) [
        | inl e ↦ absurd (ground arith)
        | inr (err m, e) ↦ absurd (ground arith)
        | inr (ok (n, contents), e) ↦
            let (few, one, fits, wrote) =
              fit-fits 129 offset rest (min 128 (length rest)) n contents e in
            let i = page_of-IsPage offset rest n contents (omega (arith, few)) fits in
            let len : length (take n rest) ≡ n = omega (arith, few, length-take {0} n rest) in
            elim (Bool-cases (ltb max_snapshot_bytes (sum + length contents))) [
              | inl big ↦ absurd (ground arith)
              | inr room ↦ elim (Bool-cases (offset + n == total)) [
                | inl done ↦
                    subst (λ r. AreStored offset rest r.0)
                      (ok_inj (some_inj (rw (paginate, e, room, done) at h)))
                      (
                        subst
                            (λ l.
                              ArePages kind offset l
                                (page_of to_vec digest kind total offset rest n contents ∷ []))
                            (take_all n rest (ground (arith, few)))
                            (last offset _ i (next_last (offset + n) done)),
                        ((wrote, refl, refl), tt),
                      )
                | inr going ↦
                    elim (Option-cases (
                      paginate to_vec digest kind total fuel (offset + n) (drop n rest)
                        (sum + length contents))) [
                          | inl out ↦ absurd (ground arith)
                          | inr (err m, e') ↦ absurd (ground arith)
                          | inr (ok (later, s'), e') ↦
                              let (are, all_written) =
                                paginate-AreStored fuel (offset + n) (drop n rest)
                                  (sum + length contents) s' later
                                  (ground (arith, few, length-drop {0} n rest)) e' in
                              subst (λ r. AreStored offset rest r.0)
                                (ok_inj (some_inj (rw (paginate, e, room, going, e') at h)))
                                (
                                  subst
                                      (λ l. ArePages kind offset l (
                                        page_of to_vec digest kind total offset rest n contents
                                        ∷ later))
                                      (take-append-drop n rest)
                                      (more offset _ (drop n rest) later i
                                        (ground (arith, len, one, few))
                                        (next_more (offset + n) (ground (arith, few))
                                          ∙ ap (λ k. some (offset + k)) (sym len))
                                        (subst (λ k. ArePages kind (offset + k) (drop n rest) later)
                                          (sym len) are)),
                                  ((wrote, refl, refl), all_written),
                                )
                        ]
              ]
            ]
      ]
