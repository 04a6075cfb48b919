-- ===== src/Lists/RoundTrip.antt =====
-- companion/src/lists.rs: what is stored in pages is read back.
use not_another_ad_blocker.Prelude.{
  ℕ, suc, ◌≡◌, refl, List, [], Option, none, some, All, length, arith, ltb, Result, ok, err, inl,
  inr, Bool-cases,
}
use not_another_ad_blocker.Text.{Str}
use not_another_ad_blocker.Lists.{ListError, PageKind, maximum, Page, paginate, pages_of}
use not_another_ad_blocker.Lists.Pages.{read_pages, IsSmall, ArePages-IsSmall, read_pages-ArePages}
use not_another_ad_blocker.Lists.Stored.{IsWritten, paginate-total, paginate-AreStored}

module _ {A : Type 0} (to_vec : PageKind → ℕ → ℕ → List A → Option ℕ → Option (List ℕ))
    (digest : List ℕ → Str) (kind : PageKind) (items : List A) where
  -- Pages that give the items back, or an error; but never a lack of fuel.
  abbrev pub IsReadable : Option (Result ListError (List (Page A) × ℕ)) → Type 0
  IsReadable none = ⊥
  IsReadable (some (err error)) = Unit
  IsReadable (some (ok (pages, sum))) =
      (read_pages kind pages (length pages) 0 ≡ some items)
      × All IsSmall pages
      × All (IsWritten to_vec digest kind (length items)) pages

  readable :
      (o : Option (Result ListError (List (Page A) × ℕ))) (total_bytes : ℕ)
      → paginate to_vec digest kind (length items) (suc (length items)) 0 items total_bytes ≡ o
      → IsReadable o
  readable none b e =
      paginate-total to_vec digest kind (length items) (suc (length items)) 0 items b (omega arith)
        (omega arith) e
  readable (some (err error)) b e = tt
  readable (some (ok (pages, sum))) b e =
      let (are, all_written) =
        paginate-AreStored to_vec digest kind (length items) (suc (length items)) 0 items b sum
          pages (omega arith) e in
      (
        read_pages-ArePages kind 0 items [] pages (length pages) are tt (omega arith),
        ArePages-IsSmall kind 0 items pages are,
        all_written,
      )

  -- The division into pages ends, with an error or with pages of at most 128 items and 512 KiB, whose
  -- files are what the writer gives for them; and reading the page at offset 0 and then each at the
  -- offset that the one before it names gives all the items in their order.
  pub pages_of-IsReadable :
      (total_bytes : ℕ) → IsReadable (pages_of to_vec digest kind items total_bytes)
  unfolding pages_of
  pages_of-IsReadable b = elim (Bool-cases (ltb (maximum kind) (length items))) [
    | inl e ↦ rw e tt
    | inr e ↦ rw e (readable _ b refl)
  ]
