-- ===== src/Rules/Hostname.antt =====
-- companion/src/rules.rs: what the tests on hostnames and paths let through.
use not_another_ad_blocker.Prelude.{
  ℕ, ◌<◌, ◌≡◌, Bool, true, false, ◌||◌, List, [], ◌∷◌, arith, ◌==◌, all, All, All-map, and-eq-true,
  Bool-cases, inl, inr,
}
use not_another_ad_blocker.Text.{Str, split, cons_head}
use not_another_ad_blocker.Text.Ascii.{all-bytes}
use not_another_ad_blocker.Text.Absent.{Lacks}
use not_another_ad_blocker.Rules.Syntax.{
  is_label_byte, is_path_byte, valid_label, valid_hostname, valid_literal_path,
}

is_label_byte-ascii : (b : ℕ) → is_label_byte b ≡ true → b < 0x80
unfolding is_label_byte
is_label_byte-ascii b h = ground arith

is_path_byte-ascii : (b : ℕ) → is_path_byte b ≡ true → b < 0x80
unfolding is_path_byte
is_path_byte-ascii b h = ground arith

-- A letter, a digit, a hyphen or a dot.
unfoldable pub is_host_char : ℕ → Bool
unfolding is_label_byte
is_host_char c = is_label_byte c || c == b'.'

abbrev AllLabels : List Str → Type 0
AllLabels = All (λ label. All (λ c. is_label_byte c ≡ true) label)

valid_label-chars :
    (label : Str) → valid_label label ≡ true → All (λ c. is_label_byte c ≡ true) label
unfolding valid_label
valid_label-chars label h = all-bytes is_label_byte is_label_byte-ascii label (ground arith)

all_labels : (labels : List Str) → all valid_label labels ≡ true → AllLabels labels
all_labels [] h = tt
all_labels (label ∷ labels) h =
    let (here, later) = and-eq-true _ _ h in (valid_label-chars label here, all_labels labels later)

AllLabels-cons_head :
    (c : ℕ) (labels : List Str)
    → AllLabels (cons_head c labels)
    → (is_label_byte c ≡ true) × AllLabels labels
AllLabels-cons_head c [] ((h, _), _) = (h, tt)
AllLabels-cons_head c (l ∷ ls) ((h, t), r) = (h, (t, r))

split-chars : (host : Str) → AllLabels (split b'.' host) → All (λ c. is_host_char c ≡ true) host
unfolding split is_host_char
split-chars [] h = tt
split-chars (c ∷ host) h = elim (Bool-cases (c == b'.')) [
  | inl e ↦
      let rest : AllLabels ([] ∷ split b'.' host) = (rw (e, split) at h) in
      (ground arith, split-chars host rest.1)
  | inr e ↦
      let (here, later) = AllLabels-cons_head c (split b'.' host) (rw (e, split) at h) in
      (ground arith, split-chars host later)
]

pub valid_hostname-chars :
    (host : Str) → valid_hostname host ≡ true → All (λ c. is_host_char c ≡ true) host
unfolding valid_hostname
valid_hostname-chars host h = split-chars host (all_labels _ (ground arith))

pub valid_literal_path-chars :
    (path : Str) → valid_literal_path path ≡ true → All (λ c. is_path_byte c ≡ true) path
unfolding valid_literal_path
valid_literal_path-chars path h = all-bytes is_path_byte is_path_byte-ascii path (ground arith)

abbrev IsSyntax : ℕ → Type 0
IsSyntax d = (is_host_char d ≡ false) × (is_path_byte d ≡ false)

-- A hostname and a path hold none of the characters that the rules' syntax uses.
module _ (d : ℕ) (outside : is_host_char d ≡ false) where
  pub Lacks-of_hostname : (host : Str) → valid_hostname host ≡ true → Lacks d host
  Lacks-of_hostname host h = All-map (λ c p e. cc (rw e at p)) host (valid_hostname-chars host h)

module _ (d : ℕ) (outside : is_path_byte d ≡ false) where
  pub Lacks-of_path : (path : Str) → valid_literal_path path ≡ true → Lacks d path
  Lacks-of_path path h = All-map (λ c p e. cc (rw e at p)) path (valid_literal_path-chars path h)
