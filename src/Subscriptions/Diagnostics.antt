-- ===== src/Subscriptions/Diagnostics.antt =====
-- companion/src/subscription_rules.rs, `Diagnostics`: counts of the reasons, and samples.
use mathlib.Core.Option
use not_another_ad_blocker.Prelude.{ℕ, ◌+◌, ◌||◌, List, [], ◌∷◌, ◌++◌, leb, length, if◌then◌else◌}
use not_another_ad_blocker.Text.{Str}
use not_another_ad_blocker.Text.Ordered.{get, insert}
use not_another_ad_blocker.Dns.Blocklist.Truncate.{truncate_utf8}

pub record Sample : Type 0 where
  pub source : Str
  pub line : ℕ
  pub raw : Str
  pub message : Str

pub record Diagnostics : Type 0 where
  pub samples : List Sample
  pub reasons : List (Str × ℕ)
  pub total : ℕ
  pub sampled : List (Str × ℕ)

abbrev pub no_diagnostics : Diagnostics
no_diagnostics = record { samples = []; reasons = []; total = 0; sampled = [] }

abbrev pub max_diagnostics : ℕ
max_diagnostics = 200

abbrev pub count_of : Str → List (Str × ℕ) → ℕ
count_of reason counts = Option.get_or (get reason counts) 0

-- `*entry(reason).or_default() += 1`.
unfoldable pub increment : Str → List (Str × ℕ) → List (Str × ℕ)
increment reason counts = insert reason (count_of reason counts + 1) counts

-- At most five samples for a reason, and at most 200. A reason is entered among the sampled ones
-- even where no sample is taken, with a count of 0.
unfoldable pub add : Str → ℕ → Str → Str → Diagnostics → Diagnostics
add source line raw reason d =
    let full = leb 5 (count_of reason d.sampled) || leb max_diagnostics (length d.samples) in
    let sample : Sample = record {
      source = source;
      line = line;
      raw = truncate_utf8 raw 2048;
      message = reason;
    } in
    record {
      total = d.total + 1;
      reasons = increment reason d.reasons;
      sampled =
          if full
          then insert reason (count_of reason d.sampled) d.sampled
          else increment reason d.sampled;
      samples = if full then d.samples else d.samples ++ sample ∷ [];
    }
