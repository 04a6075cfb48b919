-- ===== src/Rules/Ids/Probing.antt =====
-- Probing for an identifier ends, with one that is in range and free.
use not_another_ad_blocker.Prelude.{
  ℕ, zero, suc, ◌+◌, ◌-◌, ◌≤◌, ◌<◌, ◌≡◌, ◌≢◌, refl, true, false, List, [], ◌∷◌, none, some, arith,
  ◌==◌, All, length, Bool-cases, inl, inr, if◌then◌else◌, leb, ap,
}
use not_another_ad_blocker.Rules.Syntax.{max_network_id}
use not_another_ad_blocker.Rules.Ids.{next_id, taken_contains, probe}

abbrev pub InRange : ℕ → Type 0
InRange id = (1 ≤ id) × (id ≤ max_network_id)

next_id-InRange : (id : ℕ) → InRange id → InRange (next_id id)
unfolding next_id
next_id-InRange id h = ground arith

-- The identifiers that probing visits.
visited : ℕ → ℕ → List ℕ
visited zero id = []
visited (suc fuel) id = id ∷ visited fuel (next_id id)

-- How many steps lead from one identifier to another.
distance : ℕ → ℕ → ℕ
distance id x = if leb id x then x - id else x + max_network_id - id

distance-next_id :
    (id x : ℕ) → InRange id → InRange x → id ≢ x → suc (distance (next_id id) x) ≡ distance id x
unfolding distance next_id
distance-next_id id x h k ne = ground arith

distance_self : (id : ℕ) → InRange id → distance (next_id id) id + 1 ≡ max_network_id
unfolding distance next_id
distance_self id h = ground arith

ne_of_distance : (id x n : ℕ) → suc n ≤ distance id x → id ≢ x
unfolding distance
ne_of_distance id x n h = ground arith

unvisited :
    (fuel id x : ℕ)
    → InRange id
    → InRange x
    → fuel ≤ distance id x
    → taken_contains x (visited fuel id) ≡ false
unfolding visited
unvisited zero id x h k d = refl
unvisited (suc fuel) id x h k d =
    let ne : id ≢ x = ne_of_distance id x fuel d in
    ground (
      arith,
      unvisited fuel (next_id id) x (next_id-InRange id h) k
          (omega (arith, distance-next_id id x h k ne)),
    )

abbrev IsDistinct : List ℕ → Type 0
IsDistinct [] = Unit
IsDistinct (x ∷ xs) = (taken_contains x xs ≡ false) × IsDistinct xs

visited-IsDistinct :
    (fuel id : ℕ) → InRange id → fuel ≤ max_network_id → IsDistinct (visited fuel id)
unfolding visited
visited-IsDistinct zero id h d = tt
visited-IsDistinct (suc fuel) id h d = (
  unvisited fuel (next_id id) id (next_id-InRange id h) h (omega (arith, distance_self id h)),
  visited-IsDistinct fuel (next_id id) (next_id-InRange id h) (omega arith),
)

remove : ℕ → List ℕ → List ℕ
remove x [] = []
remove x (t ∷ taken) = let rest = remove x taken in if t == x then taken else t ∷ rest

length-remove :
    (x : ℕ) (taken : List ℕ)
    → taken_contains x taken ≡ true
    → suc (length (remove x taken)) ≡ length taken
unfolding remove
length-remove x [] h = cc
length-remove x (t ∷ taken) h = ground (arith, length-remove x taken)

contains-remove :
    (x y : ℕ) (taken : List ℕ)
    → x ≢ y
    → taken_contains y taken ≡ true
    → taken_contains y (remove x taken) ≡ true
unfolding remove
contains-remove x y [] ne h = cc
contains-remove x y (t ∷ taken) ne h = ground (arith, contains-remove x y taken ne)

abbrev AllTaken : List ℕ → List ℕ → Type 0
AllTaken taken = All (λ x. taken_contains x taken ≡ true)

AllTaken-remove :
    (x : ℕ) (taken xs : List ℕ)
    → taken_contains x xs ≡ false
    → AllTaken taken xs
    → AllTaken (remove x taken) xs
AllTaken-remove x taken [] h k = tt
AllTaken-remove x taken (y ∷ ys) h (here, later) =
    (contains-remove x y taken (ground arith) here, AllTaken-remove x taken ys (ground arith) later)

-- Distinct numbers that are all taken are at most as many as are taken.
length-le-taken : (xs taken : List ℕ) → IsDistinct xs → AllTaken taken xs → length xs ≤ length taken
length-le-taken [] taken _ _ = omega arith
length-le-taken (x ∷ xs) taken (fresh, distinct) (here, later) = omega (
  arith,
  length-le-taken xs (remove x taken) distinct (AllTaken-remove x taken xs fresh later),
  length-remove x taken here,
)

visited-AllTaken :
    (fuel : ℕ) (taken : List ℕ) (id : ℕ)
    → probe fuel taken id ≡ none
    → AllTaken taken (visited fuel id)
unfolding probe visited
visited-AllTaken zero taken id h = tt
visited-AllTaken (suc fuel) taken id h =
    (ground arith, visited-AllTaken fuel taken (next_id id) (ground arith))

length-visited : (fuel id : ℕ) → length (visited fuel id) ≡ fuel
unfolding visited
length-visited zero id = refl
length-visited (suc fuel) id = ap suc (length-visited fuel (next_id id))

-- While fewer identifiers are taken than there are, probing ends.
pub probe-ne-none :
    (taken : List ℕ) (id : ℕ)
    → InRange id
    → length taken < max_network_id
    → probe (suc (length taken)) taken id ≢ none
probe-ne-none taken id h room e = absurd (
    omega (
      arith,
      length-le-taken (visited (suc (length taken)) id) taken
          (visited-IsDistinct (suc (length taken)) id h room)
          (visited-AllTaken (suc (length taken)) taken id e),
      length-visited (suc (length taken)) id,
    ))

-- What probing finds is in range and free.
pub probe-free :
    (fuel : ℕ) (taken : List ℕ) (id : ℕ) {found : ℕ}
    → InRange id
    → probe fuel taken id ≡ some found
    → InRange found × (taken_contains found taken ≡ false)
unfolding probe
probe-free zero taken id h e = cc
probe-free (suc fuel) taken id {found} h e = elim (Bool-cases (taken_contains id taken)) [
  | inl old ↦ probe-free fuel taken (next_id id) (next_id-InRange id h) (ground arith)
  | inr new ↦ ground arith
]
