-- ===== src/Dns/Cache/Bounds.antt =====
-- companion/src/dns/cache.rs: the queue holds the keys of the map, and the map is bounded.
use not_another_ad_blocker.Prelude.{
  ℕ, ◌≤◌, ◌<◌, ◌≡◌, refl, true, false, ◌&&◌, not, List, [], ◌∷◌, ◌++◌, arith, leb, ◌==◌, length,
  if◌then◌else◌, Bool-cases, Option-cases, inl, inr, ◌⊎◌,
}
use not_another_ad_blocker.Text.{Str, str_eq, is_some}
use not_another_ad_blocker.Text.Laws.{str_eq_refl, eq_of_str_eq}
use not_another_ad_blocker.Text.Ordered.{
  get, set_contains, remove, get-remove, length-remove, length-remove_less,
}
use not_another_ad_blocker.Dns.Message.{MessageOps}
use not_another_ad_blocker.Dns.Cache.{
  Entry, Cache, new, retain_others, evict, place, forget, age_of, lookup, insert, Call, lookup_call,
  insert_call, call, run, entry_for,
}

contains-retain :
    (k j : Str) (s : List Str)
    → set_contains j (retain_others k s) ≡ (if str_eq k j then false else set_contains j s)
unfolding set_contains retain_others
contains-retain k j [] = ground arith
contains-retain k j (i ∷ s) = ground (
  arith,
  eq_of_str_eq k j,
  eq_of_str_eq i k,
  eq_of_str_eq i j,
  str_eq_refl i,
  contains-retain k j s,
)

contains-snoc :
    (k j : Str) (s : List Str)
    → set_contains j (s ++ k ∷ []) ≡ (if str_eq k j then true else set_contains j s)
unfolding set_contains
contains-snoc k j [] = refl
contains-snoc k j (i ∷ s) = ground (arith, contains-snoc k j s)

-- No key stands twice.
abbrev pub IsDistinct : List Str → Type 0
IsDistinct [] = Unit
IsDistinct (k ∷ s) = (set_contains k s ≡ false) × IsDistinct s

retain-IsDistinct : (k : Str) (s : List Str) → IsDistinct s → IsDistinct (retain_others k s)
unfolding retain_others
retain-IsDistinct k [] d = tt
retain-IsDistinct k (j ∷ s) (new_key, d) = elim (Bool-cases (str_eq j k)) [
  | inl e ↦ rw e (retain-IsDistinct k s d)
  | inr e ↦ rw e (ground (arith, contains-retain k j s), retain-IsDistinct k s d)
]

snoc-IsDistinct :
    (k : Str) (s : List Str) → IsDistinct s → set_contains k s ≡ false → IsDistinct (s ++ k ∷ [])
unfolding set_contains
snoc-IsDistinct k [] d h = (refl, tt)
snoc-IsDistinct k (j ∷ s) (new_key, d) h = (
  ground (arith, contains-snoc k j s, eq_of_str_eq k j, str_eq_refl j),
  snoc-IsDistinct k s d (ground arith),
)

no_keys : {V : Type 0} (m : List (Str × V)) → ((j : Str) → is_some (get j m) ≡ false) → length m ≡ 0
unfolding get
no_keys [] h = refl
no_keys ((k, v) ∷ m) h = absurd (ground (arith, h k, str_eq_refl k))

-- The queue holds each key of the map once, and the map has at most as many keys as the capacity.
pub record IsWellFormed (c : Cache) : Type 0 where
  pub distinct : IsDistinct c.order
  pub agree : (j : Str) → set_contains j c.order ≡ is_some (get j c.entries)
  pub bounded : length c.entries ≤ c.capacity

-- What the loop of `evict` keeps, for the key that is to be placed.
record IsEvicting (key : Str) (entries : List (Str × Entry)) (order : List Str) : Type 0 where
  distinct : IsDistinct order
  absent : set_contains key order ≡ false
  agree : (j : Str) → str_eq key j ≡ false → set_contains j order ≡ is_some (get j entries)

evict-room :
    (capacity : ℕ) (key : Str) (entries : List (Str × Entry)) (order : List Str)
    → leb capacity (length entries) && not (is_some (get key entries)) ≡ false
    → length entries ≤ capacity
    → length (remove key entries) < capacity
evict-room capacity key entries order full room = elim (Bool-cases (is_some (get key entries))) [
  | inl e ↦ omega (arith, room, length-remove_less key entries e)
  | inr e ↦ ground (arith, length-remove key entries)
]

evict-IsEvicting :
    (capacity : ℕ) (key : Str) (entries : List (Str × Entry)) (order : List Str)
    → 0 < capacity
    → length entries ≤ capacity
    → IsEvicting key entries order
    → IsEvicting key (evict capacity key entries order).0 (evict capacity key entries order).1
      × (length (remove key (evict capacity key entries order).0) < capacity)
unfolding evict set_contains
evict-IsEvicting capacity key entries [] positive room i = (
  i,
  elim (Bool-cases (is_some (get key entries))) [
    | inl e ↦ omega (arith, room, length-remove_less key entries e)
    | inr e ↦
        let none_left : (j : Str) → is_some (get j entries) ≡ false = (λ j.
          elim (Bool-cases (str_eq key j)) [
            | inl same ↦ ground (arith, eq_of_str_eq key j)
            | inr other ↦ ground (arith, i.agree j other)
          ]) in
        omega (arith, length-remove key entries, no_keys entries none_left)
  ],
)
evict-IsEvicting capacity key entries (oldest ∷ order) positive room i =
    elim (Bool-cases (leb capacity (length entries) && not (is_some (get key entries)))) [
      | inl e ↦ rw e (
          evict-IsEvicting capacity key (remove oldest entries) order positive
            (omega (arith, length-remove oldest entries))
            (record {
              distinct = i.distinct.1;
              absent = ground (arith, i.absent);
              agree = λ j other. ground (
                arith,
                i.agree j other,
                i.distinct.0,
                get-remove oldest j entries,
                eq_of_str_eq oldest j,
              );
            }))
      | inr e ↦ rw e (i, evict-room capacity key entries (oldest ∷ order) e room)
    ]

place-IsWellFormed :
    (key : Str) (entry : Entry) (c : Cache)
    → 0 < c.capacity
    → IsWellFormed c
    → IsWellFormed (place key entry c)
unfolding place get
place-IsWellFormed key entry c positive w =
    let others : IsEvicting key c.entries (retain_others key c.order) = record {
      distinct = retain-IsDistinct key c.order w.distinct;
      absent = ground (arith, contains-retain key key c.order, str_eq_refl key);
      agree = λ j other. ground (arith, contains-retain key j c.order, w.agree j);
    } in
    let (i, room) =
      evict-IsEvicting c.capacity key c.entries (retain_others key c.order) positive w.bounded
        others in
    let kept = evict c.capacity key c.entries (retain_others key c.order) in
    record {
      distinct = snoc-IsDistinct key kept.1 i.distinct i.absent;
      agree = λ j. ground (arith, contains-snoc key j kept.1, get-remove key j kept.0, i.agree j);
      bounded = omega (arith, room);
    }

forget-IsWellFormed : (key : Str) (c : Cache) → IsWellFormed c → IsWellFormed (forget key c)
unfolding forget
forget-IsWellFormed key c w = record {
  distinct = retain-IsDistinct key c.order w.distinct;
  agree = λ j. ground (arith, contains-retain key j c.order, get-remove key j c.entries, w.agree j);
  bounded = omega (arith, w.bounded, length-remove key c.entries);
}

module _ {Message Record : Type 0} (ops : MessageOps Message Record) where
  pub lookup-changes :
      (key : Str) (now : ℕ) (c : Cache)
      → ((lookup ops key now c).1 ≡ c) ⊎ ((lookup ops key now c).1 ≡ forget key c)
  unfolding lookup
  lookup-changes key now c = elim (Option-cases (get key c.entries)) [
    | inl e ↦ inl (ground arith)
    | inr (entry, e) ↦ elim (Bool-cases (leb entry.ttl (age_of entry now))) [
      | inl old ↦ inr (ground arith)
      | inr fresh ↦ inl (ground arith)
    ]
  ]

  lookup-IsWellFormed :
      (key : Str) (now : ℕ) (c : Cache) → IsWellFormed c → IsWellFormed (lookup ops key now c).1
  lookup-IsWellFormed key now c w = elim (lookup-changes key now c) [
    | inl same ↦ rw same w
    | inr changed ↦ rw changed (forget-IsWellFormed key c w)
  ]

  insert-IsWellFormed :
      (key : Str) (m : Message) (now : ℕ) (c : Cache)
      → IsWellFormed c
      → IsWellFormed (insert ops key m now c)
  unfolding insert
  insert-IsWellFormed key m now c w = elim (Bool-cases (c.capacity == 0)) [
    | inl e ↦ rw e w
    | inr e ↦ rw e (elim (Option-cases (entry_for ops m now)) [
      | inl e' ↦ rw e' w
      | inr (entry, e') ↦ rw e' (place-IsWellFormed key entry c (ground arith) w)
    ])
  ]

  pub run-IsWellFormed_from :
      (calls : List (Call ops)) (c : Cache) → IsWellFormed c → IsWellFormed (run ops calls c)
  unfolding run call
  run-IsWellFormed_from [] c w = w
  run-IsWellFormed_from (lookup_call key now ∷ calls) c w =
      run-IsWellFormed_from calls (lookup ops key now c).1 (lookup-IsWellFormed key now c w)
  run-IsWellFormed_from (insert_call key m now ∷ calls) c w =
      run-IsWellFormed_from calls (insert ops key m now c) (insert-IsWellFormed key m now c w)

  -- Whatever is looked up in a new cache and inserted into it, its queue holds each key of its
  -- map once and no other key, and it holds at most as many responses as its capacity.
  pub run-IsWellFormed :
      (capacity : ℕ) (calls : List (Call ops)) → IsWellFormed (run ops calls (new capacity))
  unfolding new set_contains get
  run-IsWellFormed capacity calls =
      run-IsWellFormed_from calls (new capacity)
        (record { distinct = tt; agree = λ j. refl; bounded = omega arith })
