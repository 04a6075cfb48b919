-- ===== src/Rules/Compile/Limits.antt =====
-- companion/src/rules.rs, `compile`: within the limits on lines there are few enough rules, so
-- that the compilation is total.
use not_another_ad_blocker.Prelude.{
  ℕ, ◌+◌, ◌≤◌, ◌≡◌, ◌≢◌, refl, List, [], ◌∷◌, map, none, some, arith, length, if◌then◌else◌, String,
  Result, ok, err, Bool-cases, Option-cases, Result-cases, inl, inr, All, ◌↔◌,
}
use not_another_ad_blocker.Text.{Str, len, is_empty, lines, trim}
use not_another_ad_blocker.Text.Ordered.{get, insert}
use not_another_ad_blocker.Rules.Syntax.{
  max_text_bytes, max_line_bytes, max_nonempty_lines, max_network_id, NormalizedRule, network,
  cosmetic,
}
use not_another_ad_blocker.Rules.Parse.{parse_rule}
use not_another_ad_blocker.Rules.Ids.{stable_hash}
use not_another_ad_blocker.Rules.Ids.Assigned.{assign_ids-AreIds}
use not_another_ad_blocker.Rules.Compile.{
  Compilation, Progress, start, check_lines, is_ignored, add_rule, add_line, add_lines, emit,
  finish, strip_bom, compile,
}

pub count_nonempty : List Str → ℕ
count_nonempty [] = 0
count_nonempty (line ∷ rest) = (if is_empty (trim line) then 0 else 1) + count_nonempty rest

pub check_lines-count :
    (n : ℕ) (ls : List Str)
    → n ≤ max_nonempty_lines
    → check_lines n ls ≡ ok tt
    → (n + count_nonempty ls ≤ max_nonempty_lines) × All (λ line. len line ≤ max_line_bytes) ls
unfolding check_lines count_nonempty
check_lines-count n [] small h = (omega arith, tt)
check_lines-count n (line ∷ rest) small h = elim (Bool-cases (is_empty (trim line))) [
  | inl e ↦
      let (count, short) = check_lines-count n rest small (ground arith) in
      (ground arith, (ground arith, short))
  | inr e ↦
      let (count, short) = check_lines-count (n + 1) rest (ground arith) (ground arith) in
      (ground arith, (ground arith, short))
]

length-insert :
    (k : Str) (v : NormalizedRule) (m : List (Str × NormalizedRule))
    → length (insert k v m) ≤ length m + 1
unfolding insert
length-insert k v [] = omega arith
length-insert k v ((j, w) ∷ m) = ground (arith, length-insert k v m)

length-add_rule :
    (source : Str) (i : ℕ) (raw : Str) (r : Result String NormalizedRule) (p : Progress)
    → length (add_rule source i raw r p).network_map ≤ length p.network_map + 1
unfolding add_rule
length-add_rule source i raw (ok (network pattern e t)) p = length-insert _ _ p.network_map
length-add_rule source i raw (ok (cosmetic ds s)) p = omega arith
length-add_rule source i raw (err m) p = omega arith

length-add_line :
    (source : Str) (i : ℕ) (line : Str) (p : Progress)
    → length (add_line source i line p).network_map
      ≤ length p.network_map + (if is_empty (trim line) then 0 else 1)
unfolding add_line is_ignored
length-add_line source i line p =
    ground (arith, length-add_rule source i (trim line) (parse_rule (trim line)) p)

length-add_lines :
    (source : Str) (i : ℕ) (ls : List Str) (p : Progress)
    → length (add_lines source i ls p).network_map ≤ length p.network_map + count_nonempty ls
unfolding add_lines count_nonempty
length-add_lines source i [] p = omega arith
length-add_lines source i (line ∷ rest) p = omega (
  arith,
  length-add_line source i line p,
  length-add_lines source (i + 1) rest (add_line source i line p),
)

length-map_keys : (m : List (Str × NormalizedRule)) → length (map (λ entry. entry.0) m) ≡ length m
length-map_keys [] = refl
length-map_keys (e ∷ m) = omega (arith, length-map_keys m)

emit-total :
    (ids : List (Str × ℕ)) (m : List (Str × NormalizedRule))
    → All (λ k. get k ids ≢ none) (map (λ entry. entry.0) m)
    → emit ids m ≢ none
unfolding emit
emit-total ids [] h = cc
emit-total ids ((k, network pattern e t) ∷ m) (here, later) = ground (arith, emit-total ids m later)
emit-total ids ((k, cosmetic ds s) ∷ m) (here, later) = emit-total ids m later

finish-total : (p : Progress) → length p.network_map ≤ max_network_id → finish p ≢ none
unfolding finish
finish-total p room =
    let (ids, done, are) =
      assign_ids-AreIds (map (λ entry. entry.0) p.network_map) stable_hash
        (omega (arith, length-map_keys p.network_map)) in
    ground (arith, done, emit-total ids p.network_map are.covers)

check_lines_of_count :
    (n : ℕ) (ls : List Str)
    → n + count_nonempty ls ≤ max_nonempty_lines
    → All (λ line. len line ≤ max_line_bytes) ls
    → check_lines n ls ≡ ok tt
unfolding check_lines count_nonempty
check_lines_of_count n [] count short = refl
check_lines_of_count n (line ∷ rest) count (here, later) =
    elim (Bool-cases (is_empty (trim line))) [
      | inl e ↦ ground (arith, check_lines_of_count n rest (ground arith) later)
      | inr e ↦ ground (arith, check_lines_of_count (n + 1) rest (ground arith) later)
    ]

-- The limits of the source on a text.
pub record IsWithinLimits (text : Str) : Type 0 where
  pub total : len text ≤ max_text_bytes
  pub each : All (λ line. len line ≤ max_line_bytes) (lines (strip_bom text))
  pub count : count_nonempty (lines (strip_bom text)) ≤ max_nonempty_lines

finish-lines :
    (text source : Str)
    → count_nonempty (lines (strip_bom text)) ≤ max_nonempty_lines
    → (c : Compilation) × (finish (add_lines source 0 (lines (strip_bom text)) start) ≡ some c)
finish-lines text source count =
    elim (Option-cases (finish (add_lines source 0 (lines (strip_bom text)) start))) [
      | inl e ↦ absurd (
          finish-total (add_lines source 0 (lines (strip_bom text)) start)
            (omega (arith, length-add_lines source 0 (lines (strip_bom text)) start)) e)
      | inr found ↦ found
    ]

compile-IsWithinLimits :
    (text source : Str) {c : Compilation} → compile text source ≡ some (ok c) → IsWithinLimits text
unfolding compile
compile-IsWithinLimits text source h =
    elim (Result-cases (check_lines 0 (lines (strip_bom text)))) [
      | inl (u, e) ↦
          let (count, short) = check_lines-count 0 (lines (strip_bom text)) (omega arith) e in
          record { total = ground arith; each = short; count = omega arith }
      | inr (message, e) ↦ absurd (ground arith)
    ]

compile_of_IsWithinLimits :
    (text source : Str)
    → IsWithinLimits text
    → (c : Compilation) × (compile text source ≡ some (ok c))
unfolding compile
compile_of_IsWithinLimits text source limits =
    let (c, done) = finish-lines text source limits.count in
    (
      c,
      ground (
        arith,
        check_lines_of_count 0 (lines (strip_bom text)) (omega (arith, limits.count)) limits.each,
        done,
        limits.total,
      ),
    )

compile-ne-none : (text source : Str) → compile text source ≢ none
unfolding compile
compile-ne-none text source h = elim (Result-cases (check_lines 0 (lines (strip_bom text)))) [
  | inl (u, e) ↦
      let (count, short) = check_lines-count 0 (lines (strip_bom text)) (omega arith) e in
      let (c, done) = finish-lines text source (omega arith) in absurd (ground (arith, done))
  | inr (message, e) ↦ absurd (ground arith)
]

-- The compilation of any text ends with a result, and it is a compilation, not an error, exactly
-- if the text, its lines and the number of its nonblank lines are within the limits.
pub compile-total :
    (text source : Str)
    → (compile text source ≢ none)
      × (((c : Compilation) × (compile text source ≡ some (ok c))) ↔ IsWithinLimits text)
compile-total text source = (
  compile-ne-none text source,
  ((λ (c, e). compile-IsWithinLimits text source e), compile_of_IsWithinLimits text source),
)
