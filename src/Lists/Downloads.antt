-- ===== src/Lists/Downloads.antt =====
-- companion/src/lists.rs, `validate_refresh` and `validate_list`: the checks on a request to refresh and
-- on a downloaded list.
use not_another_ad_blocker.Prelude.{
  ℕ, ◌+◌, Bool, true, false, ◌&&◌, ◌||◌, not, List, [], ◌∷◌, ◌++◌, Option, none, some, ltb, leb,
  ◌==◌, length, if◌then◌else◌, Result, ok, err, ◌>>=◌,
}
use not_another_ad_blocker.Text.{
  Str, codes, str_eq, str_lt, len, is_empty, starts_with, ends_with, contains, lines, trim,
  trim_start,
}
use not_another_ad_blocker.Text.Ordered.{set_insert, set_contains}
use not_another_ad_blocker.Lists.{ListError}

abbrev pub max_list_bytes : ℕ
max_list_bytes = 8388608

abbrev pub max_list_lines : ℕ
max_list_lines = 300000

abbrev pub max_network_budget : ℕ
max_network_budget = 29800

pub record Source : Type 0 where
  pub id : Str
  pub title : Str
  pub url : Str

abbrev pub easylist : Source
easylist = record {
  id = codes "easylist";
  title = codes "EasyList";
  url = codes "https://easylist.to/easylist/easylist.txt";
}

abbrev pub easyprivacy : Source
easyprivacy = record {
  id = codes "easyprivacy";
  title = codes "EasyPrivacy";
  url = codes "https://easylist.to/easylist/easyprivacy.txt";
}

pub record RefreshRequest : Type 0 where
  pub ids : List Str
  pub network_budget : ℕ

abbrev pub invalid_request : Str → ListError
invalid_request message = record { code = codes "INVALID_REQUEST"; message = message }

-- `SOURCES.iter().find(..)`.
unfoldable pub find_source : Str → Option Source
find_source id =
    if str_eq easylist.id id
    then some easylist
    else if str_eq easyprivacy.id id
    then some easyprivacy
    else none

-- The loop over the identifiers, with those seen before.
unfoldable pub select : List Str → List Str → Result ListError (List Source)
select seen [] = ok []
select seen (id ∷ ids) =
    let later = select (set_insert id seen) ids in
    elim (find_source id) [
      | none ↦
          err (invalid_request (codes "Only easylist and easyprivacy subscriptions are supported"))
      | some source ↦
          if set_contains id seen
          then err (invalid_request (codes "Subscription IDs must be unique"))
          else do rest ← later; ok (source ∷ rest)
    ]

unfoldable pub insert_by_id : Source → List Source → List Source
insert_by_id s [] = s ∷ []
insert_by_id s (t ∷ rest) =
    let later = insert_by_id s rest in if str_lt t.id s.id then t ∷ later else s ∷ t ∷ rest

unfoldable pub sort_sources : List Source → List Source
sort_sources [] = []
sort_sources (s ∷ rest) = insert_by_id s (sort_sources rest)

abbrev pub has_no_ids : List Str → Bool
has_no_ids [] = true
has_no_ids (id ∷ ids) = false

unfoldable pub validate_refresh : RefreshRequest → Result ListError (List Source)
validate_refresh request =
    if has_no_ids request.ids
      || ltb 2 (length request.ids)
      || ltb max_network_budget request.network_budget
    then err (
        invalid_request
          (codes "Select one or both supported lists and a network budget from 0 to 29800"))
    else do selected ← select [] request.ids; ok (sort_sources selected)

-- The bytes of a download: a text in UTF-8, or that many other bytes.
pub data Download : Type 0 where
  utf8 : Str → Download
  other_bytes : ℕ → Download

abbrev pub size : Download → ℕ
size (utf8 text) = len text
size (other_bytes n) = n

abbrev pub invalid_list : Source → Str → ListError
invalid_list source reason = record {
  code = codes "INVALID_LIST";
  message = source.title ++ reason;
}

abbrev pub first_line : List Str → Str
first_line [] = []
first_line (line ∷ rest) = line

unfoldable pub has_header : Str → Bool
has_header text =
    let first = trim (first_line (lines (trim_start (λ c. c == 0xFEFF) text))) in
    str_eq first (codes "[Adblock]")
    || (starts_with (codes "[Adblock Plus ") first && ends_with (codes "]") first)

abbrev pub is_rule : Str → Bool
is_rule line =
    not (is_empty line) && not (starts_with (codes "!") line) && not (starts_with (codes "[") line)

-- The loop over the lines: whether some line after the first is a rule.
unfoldable pub check_list_lines : Source → ℕ → Bool → List Str → Result ListError Bool
check_list_lines source index meaningful [] = ok meaningful
check_list_lines source index meaningful (line ∷ rest) =
    let later =
      check_list_lines source (index + 1) (meaningful || (ltb 0 index && is_rule (trim line)))
        rest in
    if leb max_list_lines index
    then err (invalid_list source (codes " exceeds the 300000-line limit"))
    else if contains (0 ∷ []) (trim line)
    then err (invalid_list source (codes " contains invalid NUL characters"))
    else later

unfoldable pub validate_text : Str → Source → Result ListError Str
validate_text text source =
    if not (has_header text)
    then err (invalid_list source (codes " is missing an Adblock list header"))
    else elim (check_list_lines source 0 false (lines text)) [
      | err error ↦ err error
      | ok false ↦ err (invalid_list source (codes " contains no filtering rules"))
      | ok true ↦ ok text
    ]

unfoldable pub validate_list : Download → Source → Result ListError Str
validate_list (utf8 text) source =
    if ltb max_list_bytes (len text)
    then err (invalid_list source (codes " exceeds the 8 MiB list limit"))
    else validate_text text source
validate_list (other_bytes n) source =
    if ltb max_list_bytes n
    then err (invalid_list source (codes " exceeds the 8 MiB list limit"))
    else err (invalid_list source (codes " is not valid UTF-8"))
