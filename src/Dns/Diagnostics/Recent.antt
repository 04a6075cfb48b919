-- ===== src/Dns/Diagnostics/Recent.antt =====
-- companion/src/dns/diagnostics.rs: the log holds the latest entries, and the counter the calls.
use not_another_ad_blocker.Prelude.{
  ℕ, zero, suc, leb, ◌+◌, ◌-◌, ◌≤◌, ◌≡◌, refl, sym, ap, ◌∙◌, min, List, [], ◌∷◌, ◌++◌, append_assoc,
  append-nil, arith, length, length-append, length-drop, drop, map, Bool-cases, inl, inr,
}
use not_another_ad_blocker.Dns.Diagnostics.{
  ActivityEntry, Diagnostics, Activity, entry_of, pop_front, push_recent, record_activity,
  record_all, new, saturating_suc, u64_max, clear, snapshot,
}

-- The last `n` of a list.
unfoldable pub last {ℓ} : {A : Type ℓ} → ℕ → List A → List A
last n xs = drop (length xs - n) xs

module _ {ℓ} {A : Type ℓ} where
  drop-append : (n : ℕ) (xs ys : List A) → n ≤ length xs → drop n (xs ++ ys) ≡ drop n xs ++ ys
  drop-append zero xs ys h = refl
  drop-append (suc n) [] ys h = absurd (omega arith)
  drop-append (suc n) (x ∷ xs) ys h = drop-append n xs ys (omega arith)

pop_front-drop : (n : ℕ) (xs : List ActivityEntry) → pop_front (drop n xs) ≡ drop (suc n) xs
pop_front-drop zero [] = refl
pop_front-drop zero (x ∷ xs) = refl
pop_front-drop (suc n) [] = refl
pop_front-drop (suc n) (x ∷ xs) = pop_front-drop n xs

length-last : (n : ℕ) (xs : List ActivityEntry) → length (last n xs) ≡ min (length xs) n
unfolding last
length-last n xs = omega (arith, length-drop {0} (length xs - n) xs)

drop-length : (xs : List ActivityEntry) → drop (length xs) xs ≡ []
drop-length [] = refl
drop-length (x ∷ xs) = drop-length xs

last-zero : (xs : List ActivityEntry) → last 0 xs ≡ []
unfolding last
last-zero xs = let e : length xs - 0 ≡ length xs = omega arith in rw e (drop-length xs)

-- What is pushed on a full log, and on one with room.
push_full :
    (k n : ℕ) (e : ActivityEntry) (xs : List ActivityEntry)
    → k + suc n ≡ length xs
    → push_recent (suc n) e (drop k xs) ≡ drop (suc k) (xs ++ e ∷ [])
unfolding push_recent
push_full k n e xs h =
    let full : length (drop k xs) ≡ suc n = omega (arith, length-drop {0} k xs) in
    ground (arith, full, pop_front-drop k xs, drop-append {0} (suc k) xs (e ∷ []) (omega arith))

push_room :
    (n : ℕ) (e : ActivityEntry) (xs : List ActivityEntry)
    → length xs ≤ n
    → push_recent (suc n) e xs ≡ xs ++ e ∷ []
unfolding push_recent
push_room n e xs h = ground arith

push_recent-last :
    (n : ℕ) (e : ActivityEntry) (xs : List ActivityEntry)
    → push_recent n e (last n xs) ≡ last n (xs ++ e ∷ [])
unfolding push_recent
push_recent-last zero e xs = rw (last-zero xs, last-zero (xs ++ e ∷ []))
push_recent-last (suc n) e xs = elim (Bool-cases (leb (suc n) (length xs))) [
  | inl full ↦ unfold last in full_case (length xs - suc n) (ground arith)
  | inr room ↦ unfold last in room_case (length xs - suc n) (ground arith) (ground arith)
]
  where
    full_case :
        (k : ℕ)
        → k + suc n ≡ length xs
        → push_recent (suc n) e (drop k xs) ≡ drop (length (xs ++ e ∷ []) - suc n) (xs ++ e ∷ [])
    full_case k h =
        let next : length (xs ++ e ∷ []) - suc n ≡ suc k =
          omega (arith, length-append {0} xs (e ∷ [])) in
        rw next (push_full k n e xs h)

    room_case :
        (k : ℕ)
        → k ≡ 0
        → length xs ≤ n
        → push_recent (suc n) e (drop k xs) ≡ drop (length (xs ++ e ∷ []) - suc n) (xs ++ e ∷ [])
    room_case k z h =
        let next : length (xs ++ e ∷ []) - suc n ≡ 0 =
          omega (arith, length-append {0} xs (e ∷ [])) in
        rw (next, z) (push_room n e xs h)

record_all-last :
    (as' : List Activity) (d : Diagnostics) (before : List ActivityEntry)
    → d.state.recent ≡ last d.capacity before
    → (record_all as' d).state.recent ≡ last d.capacity (before ++ map entry_of as')
unfolding record_all record_activity
record_all-last [] d before h = rw (append-nil before) h
record_all-last (a ∷ as') d before h =
    record_all-last as' (record_activity a d) (before ++ entry_of a ∷ [])
      (ap (push_recent d.capacity (entry_of a)) h ∙ push_recent-last d.capacity (entry_of a) before)
    ∙ ap (last d.capacity) (append_assoc before (entry_of a ∷ []) (map entry_of as'))

pub record_all-total :
    (as' : List Activity) (d : Diagnostics) (n : ℕ)
    → d.state.total ≡ min n u64_max
    → (record_all as' d).state.total ≡ min (n + length as') u64_max
unfolding record_all record_activity saturating_suc
record_all-total [] d n h = omega arith
record_all-total (a ∷ as') d n h =
    omega (arith, record_all-total as' (record_activity a d) (n + 1) (omega arith))

-- After any calls on a new log, the recent entries are those of the latest calls, in order, as many
-- as the capacity allows, which is at most 1000; and the total is the number of calls, up to the
-- largest 64-bit number. Clearing the log empties the entries and keeps the counters.
pub record_all-recent :
    (capacity : ℕ) (activities : List Activity)
    → ((snapshot (record_all activities (new capacity))).recent
        ≡ last (min capacity 1000) (map entry_of activities))
      × (length (snapshot (record_all activities (new capacity))).recent ≤ min capacity 1000)
      × ((snapshot (record_all activities (new capacity))).total ≡ min (length activities) u64_max)
      × ((snapshot (clear (record_all activities (new capacity)))).recent ≡ [])
      × ((snapshot (clear (record_all activities (new capacity)))).total
          ≡ (snapshot (record_all activities (new capacity))).total)
      × ((snapshot (clear (record_all activities (new capacity)))).outcomes
          ≡ (snapshot (record_all activities (new capacity))).outcomes)
unfolding new snapshot clear
record_all-recent capacity activities =
    let recent =
      record_all-last activities (new capacity) [] (sym (last_nil (min capacity 1000))) in
    (
      recent,
      rw recent (omega (arith, length-last (min capacity 1000) (map entry_of activities))),
      record_all-total activities (new capacity) 0 (omega arith) ∙ zero_add,
      refl,
      refl,
      refl,
    )
  where
    last_nil : (n : ℕ) → last {A = ActivityEntry} n [] ≡ []
    last_nil n = unfold last in (let e : 0 - n ≡ 0 = omega arith in rw e refl)

    zero_add : min (0 + length activities) u64_max ≡ min (length activities) u64_max
    zero_add = omega arith
