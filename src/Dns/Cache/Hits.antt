-- ===== src/Dns/Cache/Hits.antt =====
-- companion/src/dns/cache.rs: where the responses come from that a lookup finds.
use mathlib.Core.Option
use not_another_ad_blocker.Prelude.{
  ℕ, ◌≤◌, ◌<◌, ◌≡◌, refl, subst, ◌&&◌, not, List, [], ◌∷◌, some, arith, leb, ◌==◌, length,
  Bool-cases, Option-cases, inl, inr, Any,
}
use not_another_ad_blocker.Text.{Str, str_eq, is_some}
use not_another_ad_blocker.Text.Laws.{eq_of_str_eq}
use not_another_ad_blocker.Text.Ordered.{get, remove, get-remove}
use not_another_ad_blocker.Dns.Message.{MessageOps}
use not_another_ad_blocker.Dns.Cache.{
  Entry, Cache, new, retain_others, evict, place, forget, age_of, aged_message, lookup, insert,
  Call, lookup_call, insert_call, call, run, entry_for,
}
use not_another_ad_blocker.Dns.Cache.Bounds.{lookup-changes}

remove-keeps :
    (k j : Str) (entries : List (Str × Entry)) (e : Entry)
    → get j (remove k entries) ≡ some e
    → get j entries ≡ some e
remove-keeps k j entries e h = ground (arith, get-remove k j entries)

evict-keeps :
    (capacity : ℕ) (key j : Str) (entries : List (Str × Entry)) (order : List Str) (e : Entry)
    → get j (evict capacity key entries order).0 ≡ some e
    → get j entries ≡ some e
unfolding evict
evict-keeps capacity key j entries [] e h = h
evict-keeps capacity key j entries (oldest ∷ order) e h =
    elim (Bool-cases (leb capacity (length entries) && not (is_some (get key entries)))) [
      | inl full ↦
          remove-keeps oldest j entries e
            (evict-keeps capacity key j (remove oldest entries) order e (ground arith))
      | inr room ↦ ground arith
    ]

-- Every entry of the cache has the property.
abbrev Holds : (Str → Entry → Type 0) → Cache → Type 0
Holds Q c = (j : Str) (e : Entry) → get j c.entries ≡ some e → Q j e

place-Holds :
    (Q : Str → Entry → Type 0) (key : Str) (entry : Entry) (c : Cache)
    → Q key entry
    → Holds Q c
    → Holds Q (place key entry c)
unfolding place get
place-Holds Q key entry c q h j e found = elim (Bool-cases (str_eq key j)) [
  | inl same ↦
      let here : entry ≡ e = ground arith in
      subst (λ k. Q k e) (eq_of_str_eq key j same) (subst (Q key) here q)
  | inr other ↦ h j e (
      evict-keeps c.capacity key j c.entries (retain_others key c.order) e (
        remove-keeps key j (evict c.capacity key c.entries (retain_others key c.order)).0 e
          (ground arith)))
]

forget-Holds :
    (Q : Str → Entry → Type 0) (key : Str) (c : Cache) → Holds Q c → Holds Q (forget key c)
unfolding forget
forget-Holds Q key c h j e found = h j e (remove-keeps key j c.entries e found)

module _ {Message Record : Type 0} (ops : MessageOps Message Record) where
  lookup-Holds :
      (Q : Str → Entry → Type 0) (key : Str) (now : ℕ) (c : Cache)
      → Holds Q c
      → Holds Q (lookup ops key now c).1
  lookup-Holds Q key now c h = elim (lookup-changes ops key now c) [
    | inl same ↦ rw same h
    | inr changed ↦ rw changed (forget-Holds Q key c h)
  ]

  insert-Holds :
      (Q : Str → Entry → Type 0) (key : Str) (m : Message) (now : ℕ) (c : Cache)
      → ((e : Entry) → entry_for ops m now ≡ some e → Q key e)
      → Holds Q c
      → Holds Q (insert ops key m now c)
  unfolding insert
  insert-Holds Q key m now c q h = elim (Bool-cases (c.capacity == 0)) [
    | inl e ↦ rw e h
    | inr e ↦ rw e (elim (Option-cases (entry_for ops m now)) [
      | inl e' ↦ rw e' h
      | inr (entry, e') ↦ rw e' (place-Holds Q key entry c (q entry e') h)
    ])
  ]

  -- Some insertion of the key among the calls made the entry.
  abbrev pub IsInserted : List (Call ops) → Str → Entry → Type 0
  IsInserted calls key entry =
      (m : Message) × (time : ℕ) × (entry_for ops m time ≡ some entry)
      × Any (λ a. a ≡ insert_call key m time) calls

  run-Holds :
      (Q : Str → Entry → Type 0) (calls : List (Call ops)) (c : Cache)
      → ((key : Str) (e : Entry) → IsInserted calls key e → Q key e)
      → Holds Q c
      → Holds Q (run ops calls c)
  unfolding run call
  run-Holds Q [] c q h = h
  run-Holds Q (lookup_call key now ∷ calls) c q h =
      run-Holds Q calls (lookup ops key now c).1
        (λ k e (m, time, made, later). q k e (m, time, made, inr later))
        (lookup-Holds Q key now c h)
  run-Holds Q (insert_call key m now ∷ calls) c q h =
      run-Holds Q calls (insert ops key m now c)
        (λ k e (m', time, made, later). q k e (m', time, made, inr later))
        (insert-Holds Q key m now c (λ e made. q key e (m, now, made, inl refl)) h)

  entry_for-bounds :
      (m : Message) (time : ℕ) (entry : Entry)
      → entry_for ops m time ≡ some entry
      → (entry.inserted ≡ time) × (entry.ttl ≤ 3600) × (length entry.bytes ≤ 16384)
  unfolding entry_for
  entry_for-bounds m time entry h = ground arith

  -- A response that a lookup finds was inserted under that key before, less than its time to live
  -- and less than an hour ago: it is the decoding of the entry that an insertion of the key among
  -- the calls made, of at most 16384 bytes, with its records aged by the seconds since then.
  pub lookup-hit :
      (capacity : ℕ) (calls : List (Call ops)) (key : Str) (now : ℕ) (answer : Message)
      → (lookup ops key now (run ops calls (new capacity))).0 ≡ some answer
      → (entry : Entry) × IsInserted calls key entry
        × (age_of entry now < entry.ttl)
        × (entry.ttl ≤ 3600)
        × (length entry.bytes ≤ 16384)
        × (Option.map (aged_message ops (age_of entry now)) (ops.from_vec entry.bytes)
            ≡ some answer)
  unfolding lookup new get
  lookup-hit capacity calls key now answer h =
      elim (Option-cases (get key (run ops calls (new capacity)).entries)) [
        | inl e ↦ absurd (ground arith)
        | inr (entry, e) ↦
            let (m, time, made, among) =
              run-Holds (IsInserted calls) calls (new capacity) (λ k e' made. made)
                (λ j e' none_yet. absurd (ground arith)) key entry e in
            let (at_time, short, small) = entry_for-bounds m time entry made in
            (entry, (m, time, made, among), ground arith, short, small, ground arith)
      ]
