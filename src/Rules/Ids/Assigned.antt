-- ===== src/Rules/Ids/Assigned.antt =====
-- The identifiers that `assign_ids` hands out: one for each key, in range, and all different.
use not_another_ad_blocker.Prelude.{
  ℕ, suc, ◌+◌, ◌≤◌, ◌≡◌, ◌≢◌, refl, true, false, List, [], ◌∷◌, none, some, arith, All, length,
  Bool-cases, Option-cases, inl, inr, and_then,
}
use not_another_ad_blocker.Text.{Str, str_eq}
use not_another_ad_blocker.Text.Laws.{eq_of_str_eq, str_eq_refl}
use not_another_ad_blocker.Text.Ordered.{get, insert, get-insert}
use not_another_ad_blocker.Rules.Syntax.{max_network_id}
use not_another_ad_blocker.Rules.Ids.{taken_contains, probe, first_id, assign_ids_from, assign_ids}
use not_another_ad_blocker.Rules.Ids.Probing.{InRange, probe-ne-none, probe-free}

first_id-InRange : (hash : Str → ℕ) (key : Str) → InRange (first_id hash key)
first_id-InRange hash key = omega arith

-- The loop's invariant: what is assigned is taken and in range, and no two keys share it.
record IsAssigned (taken : List ℕ) (ids : List (Str × ℕ)) : Type 0 where
  is_taken : (k : Str) (id : ℕ) → get k ids ≡ some id → taken_contains id taken ≡ true
  in_range : (k : Str) (id : ℕ) → get k ids ≡ some id → InRange id
  injective : (k j : Str) (id : ℕ) → get k ids ≡ some id → get j ids ≡ some id → k ≡ j

IsAssigned-nil : IsAssigned [] []
unfolding get
IsAssigned-nil = record {
  is_taken = λ k id e. cc;
  in_range = λ k id e. absurd (ground arith);
  injective = λ k j id e e'. absurd (ground arith);
}

module _ (taken : List ℕ) (ids : List (Str × ℕ)) (key : Str) (id : ℕ) (range : InRange id)
    (free : taken_contains id taken ≡ false) (a : IsAssigned taken ids) where
  insert-is_taken :
      (k : Str) (i : ℕ) → get k (insert key id ids) ≡ some i → taken_contains i (id ∷ taken) ≡ true
  insert-is_taken k i e = elim (Bool-cases (str_eq key k)) [
    | inl same ↦ ground (arith, get-insert key k id ids)
    | inr other ↦ ground (arith, get-insert key k id ids, a.is_taken k i)
  ]

  insert-InRange : (k : Str) (i : ℕ) → get k (insert key id ids) ≡ some i → InRange i
  insert-InRange k i e = elim (Bool-cases (str_eq key k)) [
    | inl same ↦ ground (arith, get-insert key k id ids)
    | inr other ↦ ground (arith, get-insert key k id ids, a.in_range k i)
  ]

  insert-injective :
      (k j : Str) (i : ℕ)
      → get k (insert key id ids) ≡ some i
      → get j (insert key id ids) ≡ some i
      → k ≡ j
  insert-injective k j i e e' = ground (
    arith,
    get-insert key k id ids,
    get-insert key j id ids,
    eq_of_str_eq key k,
    eq_of_str_eq key j,
    a.injective k j i,
    a.is_taken k i,
    a.is_taken j i,
  )

  insert-IsAssigned : IsAssigned (id ∷ taken) (insert key id ids)
  insert-IsAssigned = record {
    is_taken = insert-is_taken;
    in_range = insert-InRange;
    injective = insert-injective;
  }

-- What the loop returns: the keys have identifiers, those from before keep theirs or get others.
record IsComplete (keys : List Str) (before ids : List (Str × ℕ)) : Type 0 where
  covers : All (λ k. get k ids ≢ none) keys
  keeps : (k : Str) → get k before ≢ none → get k ids ≢ none
  assigned : (taken : List ℕ) × IsAssigned taken ids

get-insert_self : (key : Str) (id : ℕ) (ids : List (Str × ℕ)) → get key (insert key id ids) ≢ none
get-insert_self key id ids e = ground (arith, get-insert key key id ids, str_eq_refl key)

get-insert_keeps :
    (key k : Str) (id : ℕ) (ids : List (Str × ℕ))
    → get k ids ≢ none
    → get k (insert key id ids) ≢ none
get-insert_keeps key k id ids h e = ground (arith, get-insert key k id ids)

assign_ids_from-IsComplete :
    (hash : Str → ℕ) (taken : List ℕ) (ids : List (Str × ℕ)) (keys : List Str)
    → length taken + length keys ≤ max_network_id
    → IsAssigned taken ids
    → (final : List (Str × ℕ)) × (assign_ids_from hash taken ids keys ≡ some final)
      × IsComplete keys ids final
unfolding assign_ids_from
assign_ids_from-IsComplete hash taken ids [] room a =
    (ids, refl, record { covers = tt; keeps = λ k h. h; assigned = (taken, a) })
assign_ids_from-IsComplete hash taken ids (key ∷ keys) room a =
    elim (Option-cases (probe (suc (length taken)) taken (first_id hash key))) [
      | inl e ↦
          absurd
            (probe-ne-none taken (first_id hash key) (first_id-InRange hash key) (omega arith) e)
      | inr (id, e) ↦
          let (range, free) =
            probe-free (suc (length taken)) taken (first_id hash key) (first_id-InRange hash key)
              e in
          let (final, done, c) =
            assign_ids_from-IsComplete hash (id ∷ taken) (insert key id ids) keys (omega arith)
              (insert-IsAssigned taken ids key id range free a) in
          (
            final,
            rw (e, and_then) done,
            record {
              covers = (c.keeps key (get-insert_self key id ids), c.covers);
              keeps = λ k h. c.keeps k (get-insert_keeps key k id ids h);
              assigned = c.assigned;
            },
          )
    ]

pub record AreIds (keys : List Str) (ids : List (Str × ℕ)) : Type 0 where
  pub covers : All (λ k. get k ids ≢ none) keys
  pub in_range : (k : Str) (id : ℕ) → get k ids ≡ some id → InRange id
  pub injective : (k j : Str) (id : ℕ) → get k ids ≡ some id → get j ids ≡ some id → k ≡ j

-- Up to 999,999,999 keys, `assign_ids` ends whatever the hash: each key has an identifier from 1
-- to 999,999,999, and different keys have different ones.
pub assign_ids-AreIds :
    (keys : List Str) (hash : Str → ℕ)
    → length keys ≤ max_network_id
    → (ids : List (Str × ℕ)) × (assign_ids keys hash ≡ some ids) × AreIds keys ids
unfolding assign_ids
assign_ids-AreIds keys hash room =
    let (ids, done, c) = assign_ids_from-IsComplete hash [] [] keys (omega arith) IsAssigned-nil in
    (
      ids,
      done,
      record {
        covers = c.covers;
        in_range = c.assigned.1.in_range;
        injective = c.assigned.1.injective;
      },
    )
