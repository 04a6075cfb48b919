-- ===== src/Dns/Diagnostics.antt =====
-- companion/src/dns/diagnostics.rs: the bounded activity log. The clock's reading is an argument of
-- `record_activity`; the lock is taken for the whole of each operation, so that the operations are
-- functions on the state.
pub mod Recent
use not_another_ad_blocker.Prelude.{
  ℕ, zero, suc, ◌+◌, ◌-◌, ◌^◌, min, Bool, true, false, ◌||◌, not, List, [], ◌∷◌, ◌++◌, Option, none,
  some, ◌==◌, take, length, if◌then◌else◌, any,
}
use mathlib.Core.Option
use not_another_ad_blocker.Text.{Str, codes, str_eq}
use not_another_ad_blocker.Text.Chars.{is_control}
use not_another_ad_blocker.Text.Ordered.{get, insert}
use not_another_ad_blocker.Dns.Blocklist.Decide.{Decision}

pub record ActivityEntry : Type 0 where
  pub timestamp_ms : ℕ
  pub layer : Str
  pub hostname : Str
  pub query_type : Str
  pub outcome : Str
  pub source : Option Str
  pub rule : Option Str

pub record Snapshot : Type 0 where
  pub total : ℕ
  pub outcomes : List (Str × ℕ)
  pub recent : List ActivityEntry

pub record Diagnostics : Type 0 where
  pub capacity : ℕ
  pub state : Snapshot

abbrev pub u64_max : ℕ
u64_max = 18446744073709551615

-- `u64::saturating_add(1)`.
unfoldable pub saturating_suc : ℕ → ℕ
saturating_suc n = min (n + 1) u64_max

unfoldable pub printable : Str → Str
printable [] = []
printable (c ∷ s) = let rest = printable s in if is_control c then rest else c ∷ rest

unfoldable pub bounded : Str → ℕ → Str
bounded value limit = take limit (printable value)

abbrev pub empty_snapshot : Snapshot
empty_snapshot = record { total = 0; outcomes = []; recent = [] }

unfoldable pub new : ℕ → Diagnostics
new capacity = record { capacity = min capacity 1000; state = empty_snapshot }

abbrev pub known_outcomes : List Str
known_outcomes =
    codes "blocked"
    ∷ codes "cache-hit"
    ∷ codes "forwarded"
    ∷ codes "upstream-error"
    ∷ codes "refused"
    ∷ codes "malformed"
    ∷ []

unfoldable pub outcome_name : Str → Str
outcome_name outcome =
    if any (λ name. str_eq outcome name) known_outcomes then outcome else codes "other"

unfoldable pub count_outcome : Str → List (Str × ℕ) → List (Str × ℕ)
count_outcome outcome outcomes =
    insert outcome (saturating_suc (Option.get_or (get outcome outcomes) 0)) outcomes

-- The arguments of one call, with the milliseconds since the epoch.
pub record Activity : Type 0 where
  pub now_ms : ℕ
  pub hostname : Str
  pub query_type : Str
  pub outcome : Str
  pub decision : Decision

unfoldable pub entry_of : Activity → ActivityEntry
entry_of a = record {
  timestamp_ms = min a.now_ms u64_max;
  layer = codes "DNS";
  hostname = bounded a.hostname 253;
  query_type = bounded a.query_type 24;
  outcome = outcome_name a.outcome;
  source = Option.map (λ s. bounded s 128) a.decision.source;
  rule = Option.map (λ s. bounded s 512) a.decision.rule;
}

abbrev pub pop_front : List ActivityEntry → List ActivityEntry
pop_front [] = []
pop_front (e ∷ es) = es

-- The oldest entry makes room where the log is full.
unfoldable pub push_recent : ℕ → ActivityEntry → List ActivityEntry → List ActivityEntry
push_recent capacity entry recent =
    if capacity == 0
    then recent
    else (if length recent == capacity then pop_front recent else recent) ++ entry ∷ []

-- `Diagnostics::record`.
unfoldable pub record_activity : Activity → Diagnostics → Diagnostics
record_activity a d = record d {
  state = record {
    total = saturating_suc d.state.total;
    outcomes = count_outcome (outcome_name a.outcome) d.state.outcomes;
    recent = push_recent d.capacity (entry_of a) d.state.recent;
  };
}

unfoldable pub snapshot : Diagnostics → Snapshot
snapshot d = d.state

unfoldable pub clear : Diagnostics → Diagnostics
clear d = let state = d.state in record d { state = record state { recent = [] } }

-- Calls in their order.
unfoldable pub record_all : List Activity → Diagnostics → Diagnostics
record_all [] d = d
record_all (a ∷ as') d = record_all as' (record_activity a d)
