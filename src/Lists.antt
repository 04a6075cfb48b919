-- ===== src/Lists.antt =====
-- companion/src/lists.rs: the checks on a request to refresh, on a downloaded list and on the name of
-- a snapshot, and the pages of a snapshot, with the choice of a page. The writer of serde_json and the
-- digest of the crate sha2 are parameters.
pub mod Pages
pub mod Stored
pub mod RoundTrip
pub mod Downloads
pub mod Accepted
mod Tests
mod AcceptedTests
use mathlib.Core.Option
use not_another_ad_blocker.Prelude.{
  ℕ, zero, suc, ◌+◌, ◌-◌, ◌/◌, min, Bool, true, false, ◌&&◌, ◌||◌, not, List, [], ◌∷◌, ◌++◌, Option,
  none, some, take, drop, length, all, ltb, leb, ◌==◌, if◌then◌else◌, Result, ok, err,
}
use not_another_ad_blocker.Text.{Str, codes, str_eq, len, bytes}
use not_another_ad_blocker.Text.Chars.{is_digit}

abbrev pub max_page_items : ℕ
max_page_items = 128

abbrev pub max_page_bytes : ℕ
max_page_bytes = 524288

abbrev pub max_snapshot_bytes : ℕ
max_snapshot_bytes = 67108864

pub record ListError : Type 0 where
  pub code : Str
  pub message : Str

abbrev pub failed : Str → ListError
failed message = record { code = codes "COMPILATION_FAILED"; message = message }

pub data PageKind : Type 0 where
  network cosmetic diagnostics : PageKind

abbrev pub maximum : PageKind → ℕ
maximum network = 29800
maximum cosmetic = 10000
maximum diagnostics = 200

abbrev pub same_kind : PageKind → PageKind → Bool
same_kind network network = true
same_kind network cosmetic = false
same_kind network diagnostics = false
same_kind cosmetic network = false
same_kind cosmetic cosmetic = true
same_kind cosmetic diagnostics = false
same_kind diagnostics network = false
same_kind diagnostics cosmetic = false
same_kind diagnostics diagnostics = true

pub record PageIndex : Type 0 where
  pub kind : PageKind
  pub offset : ℕ
  pub total : ℕ
  pub next_offset : Option ℕ
  pub sha256 : Str
  pub bytes : ℕ

-- A page with what is written to its file.
pub record Page (A : Type 0) : Type 0 where
  pub index : PageIndex
  pub items : List A
  pub contents : List ℕ

unfoldable pub next_of : ℕ → ℕ → Option ℕ
next_of end total = if ltb end total then some end else none

-- The pages of one kind. `none` means that the fuel ran out.
module _ {A : Type 0} (to_vec : PageKind → ℕ → ℕ → List A → Option ℕ → Option (List ℕ))
    (digest : List ℕ → Str) (kind : PageKind) (total : ℕ) where
  -- The inner loop: the number of items is halved until their page fits.
  unfoldable pub fit : ℕ → ℕ → List A → ℕ → Option (Result ListError (ℕ × List ℕ))
  fit zero offset rest count = none
  fit (suc fuel) offset rest count =
      let smaller = fit fuel offset rest (count / 2) in
      elim (to_vec kind offset total (take count rest) (next_of (offset + count) total)) [
        | none ↦ some (err (failed (codes "Could not serialize compiled rules")))
        | some contents ↦
            if leb (length contents + 256) max_page_bytes
            then some (ok (count, contents))
            else if leb count 1
            then some (err (failed (codes "A compiled rule exceeds the 512 KiB page limit")))
            else smaller
      ]

  abbrev pub page_of : ℕ → List A → ℕ → List ℕ → Page A
  page_of offset rest count contents = record {
    index = record {
      kind = kind;
      offset = offset;
      total = total;
      next_offset = next_of (offset + count) total;
      sha256 = digest contents;
      bytes = length contents;
    };
    items = take count rest;
    contents = contents;
  }

  -- The outer loop, from the items that are left and the bytes so far.
  unfoldable pub paginate : ℕ → ℕ → List A → ℕ → Option (Result ListError (List (Page A) × ℕ))
  paginate zero offset rest total_bytes = none
  paginate (suc fuel) offset rest total_bytes =
      elim (fit (suc max_page_items) offset rest (min max_page_items (length rest))) [
        | none ↦ none
        | some (err error) ↦ some (err error)
        | some (ok (count, contents)) ↦
            if ltb max_snapshot_bytes (total_bytes + length contents)
            then some (err (failed (codes "Compiled subscription snapshot exceeds 64 MiB")))
            else if offset + count == total
            then some (ok (page_of offset rest count contents ∷ [], total_bytes + length contents))
            else elim (paginate fuel (offset + count) (drop count rest)
                (total_bytes + length contents)) [
                  | none ↦ none
                  | some (err error) ↦ some (err error)
                  | some (ok (pages, sum)) ↦
                      some (ok (page_of offset rest count contents ∷ pages, sum))
                ]
      ]

-- All pages of a kind: each takes an item at least, so that their number is enough fuel.
unfoldable pub pages_of :
    {A : Type 0}
    → (PageKind → ℕ → ℕ → List A → Option ℕ → Option (List ℕ))
    → (List ℕ → Str)
    → PageKind
    → List A
    → ℕ
    → Option (Result ListError (List (Page A) × ℕ))
pages_of to_vec digest kind items total_bytes =
    if ltb (maximum kind) (length items)
    then some (err (failed (codes "The compiler exceeded a snapshot item limit")))
    else paginate to_vec digest kind (length items) (suc (length items)) 0 items total_bytes

-- The choice of a page by its kind and its offset.
unfoldable pub find_page : {A : Type 0} → PageKind → ℕ → List (Page A) → Option (Page A)
find_page kind offset [] = none
find_page kind offset (page ∷ pages) =
    let later = find_page kind offset pages in
    if same_kind page.index.kind kind && page.index.offset == offset then some page else later
