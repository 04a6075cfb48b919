-- ===== src/Dns/Cache.antt =====
-- companion/src/dns/cache.rs: the bounded cache of responses. An `Instant` is a number of
-- nanoseconds; a hash map is an association list; the queue holds the keys, the oldest first.
pub mod Bounds
pub mod Hits
use mathlib.Core.Option
use not_another_ad_blocker.Prelude.{
  ℕ, ◌-◌, ◌/◌, ◌%◌, ◌^◌, min, Bool, true, false, ◌&&◌, ◌||◌, not, List, [], ◌∷◌, ◌++◌, map, Option,
  none, some, leb, ltb, ◌==◌, length, if◌then◌else◌, and_then,
}
use not_another_ad_blocker.Text.{Str, str_eq, is_some}
use not_another_ad_blocker.Text.Ordered.{get, remove}
use not_another_ad_blocker.Dns.Message.{
  ResponseCode, no_error, form_err, serv_fail, nx_domain, not_imp, refused, bad_version, other_code,
  MessageOps,
}

pub record Entry : Type 0 where
  pub bytes : List ℕ
  pub inserted : ℕ
  pub ttl : ℕ

pub record Cache : Type 0 where
  pub capacity : ℕ
  pub entries : List (Str × Entry)
  pub order : List Str

unfoldable pub new : ℕ → Cache
new capacity = record { capacity = capacity; entries = []; order = [] }

-- `retain(|item| item != key)`.
unfoldable pub retain_others : Str → List Str → List Str
retain_others k [] = []
retain_others k (j ∷ s) = let rest = retain_others k s in if str_eq j k then rest else j ∷ rest

-- `Iterator::min`.
unfoldable pub min_of : List ℕ → Option ℕ
min_of [] = none
min_of (x ∷ xs) = elim (min_of xs) [ none ↦ some x | some y ↦ some (min x y) ]

-- `Instant::saturating_duration_since(..).as_secs()`.
abbrev pub age_of : Entry → ℕ → ℕ
age_of entry now = (now - entry.inserted) / 1000000000

-- The loop that drops the oldest entries until there is room for a new key.
unfoldable pub evict : ℕ → Str → List (Str × Entry) → List Str → List (Str × Entry) × List Str
evict capacity key entries [] = (entries, [])
evict capacity key entries (oldest ∷ order) =
    let rest = evict capacity key (remove oldest entries) order in
    if leb capacity (length entries) && not (is_some (get key entries))
    then rest
    else (entries, oldest ∷ order)

-- The key goes to the end of the queue, and its entry replaces any other.
unfoldable pub place : Str → Entry → Cache → Cache
place key entry c =
    let kept = evict c.capacity key c.entries (retain_others key c.order) in
    record c { entries = (key, entry) ∷ remove key kept.0; order = kept.1 ++ key ∷ [] }

unfoldable pub forget : Str → Cache → Cache
forget key c = record c { entries = remove key c.entries; order = retain_others key c.order }

module _ {Message Record : Type 0} (ops : MessageOps Message Record) where
  -- The time that is left to a record.
  unfoldable pub aged : ℕ → Record → Record
  aged age r = ops.set_ttl (ops.ttl r - age % 2 ^ 32) r

  unfoldable pub aged_message : ℕ → Message → Message
  aged_message age m =
      ops.map_additionals (aged age)
        (ops.map_name_servers (aged age) (ops.map_answers (aged age) m))

  unfoldable pub lookup : Str → ℕ → Cache → Option Message × Cache
  lookup key now c = elim (get key c.entries) [
    | none ↦ (none, c)
    | some entry ↦
        if leb entry.ttl (age_of entry now)
        then (none, forget key c)
        else (Option.map (aged_message (age_of entry now)) (ops.from_vec entry.bytes), c)
  ]

  -- The times of the SOA records among the name servers.
  unfoldable pub soa_ttls : List Record → List ℕ
  soa_ttls [] = []
  soa_ttls (r ∷ rs) =
      let rest = soa_ttls rs in
      elim (ops.soa_minimum r) [ none ↦ rest | some minimum ↦ min (ops.ttl r) minimum ∷ rest ]

  unfoldable pub soa_ttl : Message → Option ℕ
  soa_ttl m = min_of (soa_ttls (ops.name_servers m))

  abbrev pub ttls : Message → List ℕ
  ttls m = map ops.ttl (ops.answers m ++ (ops.name_servers m ++ ops.additionals m))

  unfoldable pub negative_ttl : Message → Option ℕ
  negative_ttl m = Option.map (λ ttl. min (Option.get_or (min_of (ttls m)) ttl) ttl) (soa_ttl m)

  abbrev pub code_ttl : ResponseCode → Message → Option ℕ
  code_ttl no_error m = if ltb 0 (length (ops.answers m)) then min_of (ttls m) else negative_ttl m
  code_ttl nx_domain m = negative_ttl m
  code_ttl serv_fail m = none
  code_ttl refused m = none
  code_ttl form_err m = none
  code_ttl not_imp m = none
  code_ttl bad_version m = none
  code_ttl (other_code n) m = none

  abbrev pub positive : ℕ → Option ℕ
  positive ttl = if ltb 0 ttl then some ttl else none

  -- How long a message may be kept, if at all.
  unfoldable pub message_ttl : Message → Option ℕ
  message_ttl m = and_then (code_ttl (ops.response_code m) m) (λ ttl. elim (soa_ttl m) [
    | none ↦ positive ttl
    | some negative ↦ positive (min negative ttl)
  ])

  unfoldable pub capped : Record → Record
  capped r = elim (ops.soa_minimum r) [
    | none ↦ r
    | some minimum ↦ ops.set_ttl (min (ops.ttl r) minimum) r
  ]

  -- The entry for a message, or nothing if it is not to be kept.
  unfoldable pub entry_for : Message → ℕ → Option Entry
  entry_for m now =
      if ops.truncated m
      then none
      else and_then (message_ttl m) (λ ttl.
        and_then (ops.to_vec (ops.map_name_servers capped m)) (λ bytes.
          if ltb 16384 (length bytes)
          then none
          else some (record { bytes = bytes; inserted = now; ttl = min ttl 3600 })))

  unfoldable pub insert : Str → Message → ℕ → Cache → Cache
  insert key m now c =
      if c.capacity == 0
      then c
      else elim (entry_for m now) [ none ↦ c | some entry ↦ place key entry c ]

  -- A call of the cache.
  pub data Call : Type 0 where
    lookup_call : Str → ℕ → Call
    insert_call : Str → Message → ℕ → Call

  unfoldable pub call : Call → Cache → Cache
  call (lookup_call key now) c = (lookup key now c).1
  call (insert_call key m now) c = insert key m now c

  unfoldable pub run : List Call → Cache → Cache
  run [] c = c
  run (a ∷ calls) c = run calls (call a c)
