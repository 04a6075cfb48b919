-- ===== src/Lists/Tests.antt =====
-- companion/src/lists.rs: pages of a few items, and the theorem at them.
use not_another_ad_blocker.Prelude.{
  ℕ, zero, suc, ◌≡◌, refl, List, [], ◌∷◌, Option, none, some, length, Result, ok, err,
}
use not_another_ad_blocker.Text.{Str}
use not_another_ad_blocker.Lists.{next_of, fit, paginate, pages_of, find_page}
use not_another_ad_blocker.Lists.Pages.{read_pages}
use not_another_ad_blocker.Lists.{ListError, PageKind, diagnostics, Page}
use not_another_ad_blocker.Lists.RoundTrip.{IsReadable, pages_of-IsReadable}

program : Unit {0}
unfolding next_of fit paginate pages_of find_page read_pages
program = tt

-- A writer of numbers, and its digest.
abbrev write_numbers : PageKind → ℕ → ℕ → List ℕ → Option ℕ → Option (List ℕ)
write_numbers kind offset total items next = some (offset ∷ total ∷ items)

abbrev first_bytes : List ℕ → Str
first_bytes contents = contents

abbrev up_to : ℕ → List ℕ
up_to zero = []
up_to (suc n) = n ∷ up_to n

abbrev lengths : List (Page ℕ) → List ℕ
lengths [] = []
lengths (page ∷ pages) = length page.items ∷ lengths pages

abbrev sizes : Option (Result ListError (List (Page ℕ) × ℕ)) → List ℕ
sizes none = []
sizes (some (err error)) = []
sizes (some (ok (pages, sum))) = lengths pages

-- Of 150 items, a page has 128 and the other the rest.
two_pages : sizes (pages_of write_numbers first_bytes diagnostics (up_to 150) 0) ≡ 128 ∷ 22 ∷ []
unfolding program
two_pages = refl

pages_of-IsReadable_example :
    IsReadable write_numbers first_bytes diagnostics
      (3 ∷ 1 ∷ 2 ∷ [])
      (pages_of write_numbers first_bytes diagnostics (3 ∷ 1 ∷ 2 ∷ []) 0)
pages_of-IsReadable_example =
    pages_of-IsReadable write_numbers first_bytes diagnostics (3 ∷ 1 ∷ 2 ∷ []) 0
