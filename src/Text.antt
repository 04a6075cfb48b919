-- ===== src/Text.antt =====
-- Rust's `str` as the program uses it: a list of code points, with byte lengths by UTF-8.
-- The methods are those of the standard library that the companion calls.
pub mod Chars
pub mod Laws
pub mod Absent
pub mod Length
pub mod Ascii
pub mod Ordered
use mathlib.Core.Option
use not_another_ad_blocker.Prelude.{
  ℕ, ◌+◌, ◌/◌, ◌%◌, ◌≡◌, Bool, true, false, ◌&&◌, ◌||◌, not, List, [], ◌∷◌, ◌++◌, Option, none,
  some, String, ltb, ◌==◌, if◌then◌else◌, length, all, any,
}
use Prim.Native.Char.{code}
use Chars.{is_whitespace, to_lower}

abbrev pub Str : Type 0
Str = List ℕ

-- The code points of a literal of the source.
abbrev pub codes : String → Str
codes String.[] = []
codes (String.◌∷◌ c s) = code c ∷ codes s

abbrev pub str_eq : Str → Str → Bool
str_eq [] [] = true
str_eq [] (b ∷ t) = false
str_eq (a ∷ s) [] = false
str_eq (a ∷ s) (b ∷ t) = a == b && str_eq s t

-- `Ord for str`: by bytes, which UTF-8 orders as the code points.
abbrev pub str_lt : Str → Str → Bool
str_lt s [] = false
str_lt [] (b ∷ t) = true
str_lt (a ∷ s) (b ∷ t) = ltb a b || (a == b && str_lt s t)

-- The UTF-8 bytes of a code point.
unfoldable pub encode_char : ℕ → List ℕ
encode_char c =
    if ltb c 0x80
    then c ∷ []
    else if ltb c 0x800
    then (0xC0 + c / 64) ∷ (0x80 + c % 64) ∷ []
    else if ltb c 0x10000
    then (0xE0 + c / 4096) ∷ (0x80 + c / 64 % 64) ∷ (0x80 + c % 64) ∷ []
    else (0xF0 + c / 262144) ∷ (0x80 + c / 4096 % 64) ∷ (0x80 + c / 64 % 64) ∷ (0x80 + c % 64) ∷ []

-- `str::bytes`.
unfoldable pub bytes : Str → List ℕ
bytes [] = []
bytes (c ∷ s) = encode_char c ++ bytes s

-- `str::len`, in bytes.
unfoldable pub len : Str → ℕ
len s = length (bytes s)

abbrev pub is_empty : Str → Bool
is_empty [] = true
is_empty (c ∷ s) = false

-- `str::strip_prefix`, the prefix first.
unfoldable pub strip_prefix : Str → Str → Option Str
strip_prefix [] s = some s
strip_prefix (p ∷ ps) [] = none
strip_prefix (p ∷ ps) (c ∷ s) = if p == c then strip_prefix ps s else none

abbrev pub is_some {ℓ} : {A : Type ℓ} → Option A → Bool
is_some none = false
is_some (some a) = true

unfoldable pub starts_with : Str → Str → Bool
starts_with p s = is_some (strip_prefix p s)

-- `str::strip_suffix`, the suffix first.
unfoldable pub strip_suffix : Str → Str → Option Str
strip_suffix p [] = if str_eq p [] then some [] else none
strip_suffix p (c ∷ s) =
    if str_eq p (c ∷ s) then some [] else Option.map (λ t. c ∷ t) (strip_suffix p s)

unfoldable pub ends_with : Str → Str → Bool
ends_with p s = is_some (strip_suffix p s)

-- `str::split_once`, at the first occurrence of the pattern.
unfoldable pub split_once : Str → Str → Option (Str × Str)
split_once p [] = Option.map (λ rest. ([], rest)) (strip_prefix p [])
split_once p (c ∷ s) = elim (strip_prefix p (c ∷ s)) [
  | some rest ↦ some ([], rest)
  | none ↦ Option.map (λ r. (c ∷ r.0, r.1)) (split_once p s)
]

-- `str::contains` of a text.
unfoldable pub contains : Str → Str → Bool
contains p s = is_some (split_once p s)

-- The text up to the first character that passes, and the text from it: `find` and `split_at`.
unfoldable pub find_split : (ℕ → Bool) → Str → Option (Str × Str)
find_split p [] = none
find_split p (c ∷ s) =
    if p c then some ([], c ∷ s) else Option.map (λ r. (c ∷ r.0, r.1)) (find_split p s)

abbrev pub cons_head : ℕ → List Str → List Str
cons_head c [] = (c ∷ []) ∷ []
cons_head c (p ∷ ps) = (c ∷ p) ∷ ps

-- `str::split` at a character.
unfoldable pub split : ℕ → Str → List Str
split d [] = [] ∷ []
split d (c ∷ s) = let rest = split d s in if c == d then [] ∷ rest else cons_head c rest

-- `[Str]::join`.
unfoldable pub join : Str → List Str → Str
join d [] = []
join d (p ∷ []) = p
join d (p ∷ q ∷ ps) = p ++ (d ++ join d (q ∷ ps))

unfoldable pub trim_start : (ℕ → Bool) → Str → Str
trim_start p [] = []
trim_start p (c ∷ s) = let rest = trim_start p s in if p c then rest else c ∷ s

unfoldable pub trim_end : (ℕ → Bool) → Str → Str
trim_end p [] = []
trim_end p (c ∷ s) = let rest = trim_end p s in if p c && is_empty rest then [] else c ∷ rest

-- `str::trim_matches`.
unfoldable pub trim_matches : (ℕ → Bool) → Str → Str
trim_matches p s = trim_end p (trim_start p s)

-- `str::trim`.
unfoldable pub trim : Str → Str
trim s = trim_matches is_whitespace s

abbrev begins_line_feed : Str → Bool
begins_line_feed [] = false
begins_line_feed (c ∷ s) = c == 10

-- `str::lines`: a line ends at "\n" or "\r\n"; the last line needs no ending.
unfoldable pub lines : Str → List Str
lines [] = []
lines (c ∷ s) =
    let rest = lines s in
    if c == 10 then [] ∷ rest else if c == 13 && begins_line_feed s then rest else cons_head c rest

-- `str::to_ascii_lowercase`.
unfoldable pub to_ascii_lowercase : Str → Str
to_ascii_lowercase [] = []
to_ascii_lowercase (c ∷ s) = to_lower c ∷ to_ascii_lowercase s

-- `[..].contains(&text)`.
abbrev pub one_of : List Str → Str → Bool
one_of names text = any (λ name. str_eq text name) names
