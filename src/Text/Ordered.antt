-- ===== src/Text/Ordered.antt =====
-- Sets and maps of the standard library with texts as keys. `BTreeSet` and `BTreeMap` are lists
-- in the order of their keys, and `HashMap` is read and written by key alone.
use not_another_ad_blocker.Prelude.{
  ◌≡◌, ◌≤◌, ◌<◌, length, refl, sym, subst, some_inj, All, Any, inl, inr, Bool-cases, Bool, true,
  false, List, [], ◌∷◌, Option, none, some, if◌then◌else◌, arith,
}
use not_another_ad_blocker.Text.{Str, str_eq, str_lt, is_some}
use not_another_ad_blocker.Text.Laws.{str_eq_refl, eq_of_str_eq}

-- `BTreeSet::insert`, and whether the text was new.
unfoldable pub set_insert : Str → List Str → List Str
set_insert k [] = k ∷ []
set_insert k (j ∷ s) =
    let rest = set_insert k s in
    if str_eq j k then j ∷ s else if str_lt k j then k ∷ j ∷ s else j ∷ rest

unfoldable pub set_contains : Str → List Str → Bool
set_contains k [] = false
set_contains k (j ∷ s) = if str_eq j k then true else set_contains k s

module _ {ℓ} {V : Type ℓ} where
  unfoldable pub get : Str → List (Str × V) → Option V
  get k [] = none
  get k ((j, v) ∷ m) = if str_eq j k then some v else get k m

  -- `BTreeMap::insert`.
  unfoldable pub insert : Str → V → List (Str × V) → List (Str × V)
  insert k v [] = (k, v) ∷ []
  insert k v ((j, w) ∷ m) =
      let rest = insert k v m in
      if str_eq j k then (j, v) ∷ m else if str_lt k j then (k, v) ∷ (j, w) ∷ m else (j, w) ∷ rest

  pub get-insert :
      (k j : Str) (v : V) (m : List (Str × V))
      → get j (insert k v m) ≡ (if str_eq k j then some v else get j m)
  unfolding get insert
  get-insert k j v [] = refl
  get-insert k j v ((i, w) ∷ m) = ground (
    arith,
    eq_of_str_eq k j,
    eq_of_str_eq i k,
    eq_of_str_eq i j,
    str_eq_refl i,
    str_eq_refl j,
    get-insert k j v m,
  )

-- `BTreeMap::remove` and `HashMap::remove`.
unfoldable pub remove {ℓ} : {V : Type ℓ} → Str → List (Str × V) → List (Str × V)
remove k [] = []
remove k ((j, v) ∷ m) = let rest = remove k m in if str_eq j k then rest else (j, v) ∷ rest

pub get-remove {ℓ} :
    {V : Type ℓ} (k j : Str) (m : List (Str × V))
    → get j (remove k m) ≡ (if str_eq k j then none else get j m)
unfolding get remove
get-remove k j [] = ground arith
get-remove k j ((i, v) ∷ m) =
    ground
      (arith, eq_of_str_eq k j, eq_of_str_eq i k, eq_of_str_eq i j, str_eq_refl i, get-remove k j m)

pub length-remove {ℓ} : {V : Type ℓ} (k : Str) (m : List (Str × V)) → length (remove k m) ≤ length m
unfolding remove
length-remove k [] = omega arith
length-remove k ((i, v) ∷ m) = ground (arith, length-remove k m)

pub length-remove_less {ℓ} :
    {V : Type ℓ} (k : Str) (m : List (Str × V))
    → is_some (get k m) ≡ true
    → length (remove k m) < length m
unfolding remove get
length-remove_less k [] h = absurd (ground arith)
length-remove_less k ((i, v) ∷ m) h = ground (arith, length-remove k m, length-remove_less k m)

pub contains-insert :
    (k j : Str) (s : List Str)
    → set_contains j (set_insert k s) ≡ (if str_eq k j then true else set_contains j s)
unfolding set_contains set_insert
contains-insert k j [] = refl
contains-insert k j (i ∷ s) = ground (
  arith,
  eq_of_str_eq k j,
  eq_of_str_eq i k,
  eq_of_str_eq i j,
  str_eq_refl i,
  contains-insert k j s,
)

module _ {ℓ} {V : Type ℓ} (Q : V → Type 0) where
  -- Every value that an insertion leaves was there before, or is put in.
  pub insert-All :
      (k : Str) (v : V) (m : List (Str × V))
      → Q v
      → All (λ e. Q e.1) m
      → All (λ e. Q e.1) (insert k v m)
  unfolding insert
  insert-All k v [] q a = (q, tt)
  insert-All k v ((j, w) ∷ m) q (p, a) = elim (Bool-cases (str_eq j k)) [
    | inl e ↦ rw e (q, a)
    | inr e ↦ elim (Bool-cases (str_lt k j)) [
      | inl e' ↦ rw (e, e') (q, (p, a))
      | inr e' ↦ rw (e, e') (p, insert-All k v m q a)
    ]
  ]

  pub get-Any : (k : Str) (v : V) (m : List (Str × V)) → get k m ≡ some v → Q v → Any (λ e. Q e.1) m
  unfolding get
  get-Any k v [] h q = absurd (ground arith)
  get-Any k v ((j, w) ∷ m) h q = elim (Bool-cases (str_eq j k)) [
    | inl e ↦ inl (subst Q (some_inj (sym (rw e at h))) q)
    | inr e ↦ inr (get-Any k v m (rw e at h) q)
  ]

  pub get-All : (k : Str) (v : V) (m : List (Str × V)) → get k m ≡ some v → All (λ e. Q e.1) m → Q v
  unfolding get
  get-All k v [] h a = absurd (ground arith)
  get-All k v ((j, w) ∷ m) h (q, a) = elim (Bool-cases (str_eq j k)) [
    | inl e ↦ subst Q (some_inj (rw e at h)) q
    | inr e ↦ get-All k v m (rw e at h) a
  ]
