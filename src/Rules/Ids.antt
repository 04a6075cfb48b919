-- ===== src/Rules/Ids.antt =====
-- companion/src/rules.rs: the keys of rules, the FNV-1a hash, and the identifiers.
pub mod Probing
pub mod Assigned
use Prim.Native.Nat.{bit_xor}
use not_another_ad_blocker.Prelude.{
  ℕ, zero, suc, ◌+◌, ◌*◌, ◌%◌, ◌^◌, Bool, true, false, ◌||◌, List, [], ◌∷◌, ◌++◌, Option, none,
  some, ◌==◌, length, and_then, if◌then◌else◌, String,
}
use not_another_ad_blocker.Text.{Str, codes, bytes, join}
use not_another_ad_blocker.Text.Ordered.{insert}
use not_another_ad_blocker.Rules.Syntax.{NormalizedRule, network, cosmetic, max_network_id}

-- `{}` of a Boolean.
abbrev pub show_bool : Bool → Str
show_bool true = codes "true"
show_bool false = codes "false"

unfoldable pub key_for : NormalizedRule → Str
key_for (network pattern exception third_party) =
    show_bool exception ++ (codes "|" ++ (show_bool third_party ++ (codes "|" ++ pattern)))
key_for (cosmetic domains selector) = join (codes ",") domains ++ (codes "##" ++ selector)

-- FNV-1a over 64 bits.
unfoldable pub hash_bytes : ℕ → List ℕ → ℕ
hash_bytes hash [] = hash
hash_bytes hash (b ∷ bs) = hash_bytes (bit_xor hash b * 0x100000001b3 % 2 ^ 64) bs

unfoldable pub stable_hash : Str → ℕ
stable_hash text = hash_bytes 0xcbf29ce484222325 (bytes text)

unfoldable pub next_id : ℕ → ℕ
next_id id = if id == max_network_id then 1 else id + 1

abbrev pub taken_contains : ℕ → List ℕ → Bool
taken_contains id [] = false
taken_contains id (t ∷ taken) = t == id || taken_contains id taken

-- `while !taken.insert(id)`: the first free identifier from `id`, or nothing if the fuel runs out.
unfoldable pub probe : ℕ → List ℕ → ℕ → Option ℕ
probe zero taken id = none
probe (suc fuel) taken id = elim (taken_contains id taken) [
  | true ↦ probe fuel taken (next_id id)
  | false ↦ some id
]

abbrev pub first_id : (Str → ℕ) → Str → ℕ
first_id hash key = hash key % max_network_id + 1

-- The loop over the keys. Probing visits each taken identifier once at most, so that their number
-- is enough fuel.
unfoldable pub assign_ids_from :
    (Str → ℕ) → List ℕ → List (Str × ℕ) → List Str → Option (List (Str × ℕ))
assign_ids_from hash taken ids [] = some ids
assign_ids_from hash taken ids (key ∷ keys) =
    and_then (probe (suc (length taken)) taken (first_id hash key))
      (λ id. assign_ids_from hash (id ∷ taken) (insert key id ids) keys)

unfoldable pub assign_ids : List Str → (Str → ℕ) → Option (List (Str × ℕ))
assign_ids keys hash = assign_ids_from hash [] [] keys
