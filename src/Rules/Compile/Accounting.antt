-- ===== src/Rules/Compile/Accounting.antt =====
-- companion/src/rules.rs, `compile`: every line is counted once, and the statistics are the counts.
use not_another_ad_blocker.Prelude.{
  ℕ, ◌+◌, ◌≡◌, refl, List, [], ◌∷◌, ◌++◌, some, arith, length, String, Result, ok, err, Bool-cases,
  inl, inr, length-append,
}
use not_another_ad_blocker.Text.{Str, lines, trim}
use not_another_ad_blocker.Rules.Syntax.{NormalizedRule, network, cosmetic}
use not_another_ad_blocker.Rules.Parse.{parse_rule}
use not_another_ad_blocker.Rules.Compile.Parts.{compile-Parts}
use not_another_ad_blocker.Rules.Compile.{
  Target, mv3_network, cosmetic_rule, unsupported_rule, Diagnostic, Compilation, Progress, start,
  is_ignored, add_rule, add_line, add_lines, strip_bom, compile,
}

is_unsupported : Target → ℕ
is_unsupported unsupported_rule = 1
is_unsupported mv3_network = 0
is_unsupported cosmetic_rule = 0

pub count_unsupported : List Diagnostic → ℕ
count_unsupported [] = 0
count_unsupported (d ∷ ds) = is_unsupported d.target + count_unsupported ds

count_unsupported-append :
    (ds es : List Diagnostic)
    → count_unsupported (ds ++ es) ≡ count_unsupported ds + count_unsupported es
unfolding count_unsupported
count_unsupported-append [] es = omega arith
count_unsupported-append (d ∷ ds) es = omega (arith, count_unsupported-append ds es)

record IsCounted (p : Progress) (n : ℕ) : Type 0 where
  all_lines : p.ignored + length p.diagnostics ≡ n
  unsupported : p.unsupported ≡ count_unsupported p.diagnostics

add_rule-IsCounted :
    (source : Str) (i : ℕ) (raw : Str) (r : Result String NormalizedRule) (p : Progress) (n : ℕ)
    → IsCounted p n
    → IsCounted (add_rule source i raw r p) (n + 1)
unfolding add_rule count_unsupported is_unsupported
add_rule-IsCounted source i raw (ok (network pattern e t)) p n c = record {
  all_lines = omega (arith, length-append {0} p.diagnostics (_ ∷ []));
  unsupported = omega (arith, count_unsupported-append p.diagnostics (_ ∷ []));
}
add_rule-IsCounted source i raw (ok (cosmetic ds s)) p n c = record {
  all_lines = omega (arith, length-append {0} p.diagnostics (_ ∷ []));
  unsupported = omega (arith, count_unsupported-append p.diagnostics (_ ∷ []));
}
add_rule-IsCounted source i raw (err m) p n c = record {
  all_lines = omega (arith, length-append {0} p.diagnostics (_ ∷ []));
  unsupported = omega (arith, count_unsupported-append p.diagnostics (_ ∷ []));
}

add_line-IsCounted :
    (source : Str) (i : ℕ) (line : Str) (p : Progress) (n : ℕ)
    → IsCounted p n
    → IsCounted (add_line source i line p) (n + 1)
unfolding add_line
add_line-IsCounted source i line p n c = elim (Bool-cases (is_ignored (trim line))) [
  | inl e ↦ rw e (record { all_lines = omega arith; unsupported = c.unsupported })
  | inr e ↦ rw e (add_rule-IsCounted source i (trim line) (parse_rule (trim line)) p n c)
]

add_lines-IsCounted :
    (source : Str) (i : ℕ) (ls : List Str) (p : Progress) (n m : ℕ)
    → n + length ls ≡ m
    → IsCounted p n
    → IsCounted (add_lines source i ls p) m
unfolding add_lines
add_lines-IsCounted source i [] p n m e c = record {
  all_lines = omega arith;
  unsupported = c.unsupported;
}
add_lines-IsCounted source i (line ∷ rest) p n m e c =
    add_lines-IsCounted source (i + 1) rest (add_line source i line p) (n + 1) m (omega arith)
      (add_line-IsCounted source i line p n c)

start-IsCounted : IsCounted start 0
unfolding count_unsupported
start-IsCounted = record { all_lines = omega arith; unsupported = refl }

-- In a compilation each line of the text is either ignored or has one diagnostic, the unsupported
-- lines are those with a diagnostic that says so, and the other statistics are the numbers of
-- emitted rules.
pub compile-stats :
    (text source : Str) (c : Compilation)
    → compile text source ≡ some (ok c)
    → (c.stats.ignored + length c.diagnostics ≡ length (lines (strip_bom text)))
      × (c.stats.unsupported ≡ count_unsupported c.diagnostics)
      × (c.stats.network ≡ length c.network_rules)
      × (c.stats.cosmetic ≡ length c.cosmetic_rules)
compile-stats text source c h =
    let parts = compile-Parts text source c h in
    let counted =
      add_lines-IsCounted source 0 (lines (strip_bom text)) start 0
        (length (lines (strip_bom text))) (omega arith) start-IsCounted in
    rw parts.whole (counted.all_lines, counted.unsupported, refl, refl)
