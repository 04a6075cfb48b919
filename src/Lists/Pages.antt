-- ===== src/Lists/Pages.antt =====
-- companion/src/lists.rs, `persist_snapshot` and `page_at`: the pages hold the items.
use mathlib.Core.Option
use not_another_ad_blocker.Prelude.{
  ℕ, zero, suc, ◌+◌, ◌≤◌, ◌<◌, ◌≡◌, refl, subst, ◌∙◌, true, List, [], ◌∷◌, ◌++◌, append_assoc,
  Option, none, some, All, length, arith,
}
use not_another_ad_blocker.Lists.{PageKind, same_kind, Page, find_page}

module _ {A : Type 0} where
  -- All items, as a client reads them: page after page, from an offset on.
  unfoldable pub read_pages : PageKind → List (Page A) → ℕ → ℕ → Option (List A)
  read_pages kind pages zero offset = none
  read_pages kind pages (suc fuel) offset = elim (find_page kind offset pages) [
    | none ↦ none
    | some page ↦ elim (page.index.next_offset) [
      | none ↦ some page.items
      | some next ↦ Option.map (λ later. page.items ++ later) (read_pages kind pages fuel next)
    ]
  ]

  -- A page within the limits: at most 128 items, and 512 KiB with room for its envelope.
  abbrev pub IsSmall : Page A → Type 0
  IsSmall page = (length page.items ≤ 128) × (length page.contents + 256 ≤ 524288)

  pub record IsPage (kind : PageKind) (offset : ℕ) (page : Page A) : Type 0 where
    pub of_kind : same_kind page.index.kind kind ≡ true
    pub at_offset : page.index.offset ≡ offset
    pub small : IsSmall page

  -- Pages that hold the items from an offset on.
  pub data ArePages (kind : PageKind) : ℕ → List A → List (Page A) → Type 0 where
    last :
        (offset : ℕ) (page : Page A)
        → IsPage kind offset page
        → page.index.next_offset ≡ none
        → ArePages kind offset page.items (page ∷ [])
    more :
        (offset : ℕ) (page : Page A) (rest : List A) (pages : List (Page A))
        → IsPage kind offset page
        → 1 ≤ length page.items
        → page.index.next_offset ≡ some (offset + length page.items)
        → ArePages kind (offset + length page.items) rest pages
        → ArePages kind offset (page.items ++ rest) (page ∷ pages)

  pub ArePages-IsSmall :
      (kind : PageKind) (offset : ℕ) (rest : List A) (pages : List (Page A))
      → ArePages kind offset rest pages
      → All IsSmall pages
  ArePages-IsSmall kind _ _ _ (last offset page i e) = (i.small, tt)
  ArePages-IsSmall kind _ _ _ (more offset page rest pages i one e a) =
      (i.small, ArePages-IsSmall kind (offset + length page.items) rest pages a)

  find_page-past :
      (kind : PageKind) (offset : ℕ) (before pages : List (Page A))
      → All (λ q. q.index.offset < offset) before
      → find_page kind offset (before ++ pages) ≡ find_page kind offset pages
  unfolding find_page
  find_page-past kind offset [] pages a = refl
  find_page-past kind offset (q ∷ before) pages (less, a) =
      ground (arith, less, find_page-past kind offset before pages a)

  find_page-first :
      (kind : PageKind) (offset : ℕ) (page : Page A) (pages : List (Page A))
      → IsPage kind offset page
      → find_page kind offset (page ∷ pages) ≡ some page
  unfolding find_page
  find_page-first kind offset page pages i = ground (arith, i.of_kind, i.at_offset)

  found :
      (kind : PageKind) (offset : ℕ) (before : List (Page A)) (page : Page A)
      (pages : List (Page A))
      → All (λ q. q.index.offset < offset) before
      → IsPage kind offset page
      → find_page kind offset (before ++ (page ∷ pages)) ≡ some page
  found kind offset before page pages a i =
      find_page-past kind offset before (page ∷ pages) a ∙ find_page-first kind offset page pages i

  All-append_one :
      (P : Page A → Type 0) (before : List (Page A)) (page : Page A)
      → All P before
      → P page
      → All P (before ++ (page ∷ []))
  All-append_one P [] page a p = (p, tt)
  All-append_one P (q ∷ before) page (b, a) p = (b, All-append_one P before page a p)

  All-less :
      (n m : ℕ) (before : List (Page A))
      → n ≤ m
      → All (λ q. q.index.offset < n) before
      → All (λ q. q.index.offset < m) before
  All-less n m [] le a = tt
  All-less n m (q ∷ before) le (less, a) = (omega arith, All-less n m before le a)

  pub read_pages-ArePages :
      (kind : PageKind) (offset : ℕ) (rest : List A) (before pages : List (Page A)) (fuel : ℕ)
      → ArePages kind offset rest pages
      → All (λ q. q.index.offset < offset) before
      → length pages ≤ fuel
      → read_pages kind (before ++ pages) fuel offset ≡ some rest
  unfolding read_pages
  read_pages-ArePages kind _ _ before _ zero (last offset page i e) a enough = absurd (omega arith)
  read_pages-ArePages kind _ _ before _ (suc fuel) (last offset page i e) a enough =
      rw (read_pages, found kind offset before page [] a i, e) refl
  read_pages-ArePages kind _ _ before _ zero (more offset page rest pages i one e p) a enough =
      absurd (omega arith)
  read_pages-ArePages kind _ _ before _ (suc fuel) (more offset page rest pages i one e p) a
        enough =
      let later =
        read_pages-ArePages kind (offset + length page.items) rest (before ++ (page ∷ [])) pages
          fuel p
          (All-append_one (λ q. q.index.offset < offset + length page.items) before page
            (All-less offset (offset + length page.items) before (omega arith) a)
            (omega (arith, i.at_offset, one)))
          (omega arith) in
      let same : read_pages kind (before ++ (page ∷ pages)) fuel (offset + length page.items)
          ≡ some rest =
        subst (λ l. read_pages kind l fuel (offset + length page.items) ≡ some rest)
          (append_assoc before (page ∷ []) pages) later in
      rw (read_pages, found kind offset before page pages a i, e, same) refl
