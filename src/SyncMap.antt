-- ===== src/SyncMap.antt =====
-- sync_map.go: a map behind a mutex, for the keys that the program uses it with, flow IDs. Each method
-- is one critical section.
pub mod Laws
pub mod Effects
mod Tests
use roq.Common.{ℕ, ◌≡◌, Bool, true, false, Option, none, some, List, [], ◌∷◌}
use roq.Common.GoMap.{GoMap, lookup, insert, delete}

pub record SyncMap {ℓ} (V : Type ℓ) : Type ℓ where
  pub elements : GoMap V

module _ {ℓ} {V : Type ℓ} where
  unfoldable pub new_sync_map : SyncMap V
  new_sync_map = record { elements = [] }

  unfoldable pub get_or_insert : SyncMap V → ℕ → V → SyncMap V × V × Bool
  get_or_insert m k v = elim (lookup k m.elements) [
    | some old ↦ (m, old, false)
    | none ↦ (record { elements = insert k v m.elements }, v, true)
  ]

  unfoldable pub set : SyncMap V → ℕ → V → SyncMap V
  set m k v = record { elements = insert k v m.elements }

  unfoldable pub get : SyncMap V → ℕ → Option V
  get m k = lookup k m.elements

  unfoldable pub delete_key : SyncMap V → ℕ → SyncMap V
  delete_key m k = record { elements = delete k m.elements }

  unfoldable pub each {κ} : {S : Type κ} → GoMap V → (ℕ → V → S → S) → S → S
  each [] f s = s
  each ((k, v) ∷ m) f s = each m f (f k v s)

  -- `rangeFn`: the calls of `f`, which may change a state `S` that the map is part of, are made for the
  -- elements at the time of the call.
  unfoldable pub range_fn {κ} : {S : Type κ} → SyncMap V → (ℕ → V → S → S) → S → S
  unfolding each
  range_fn m f s = each m.elements f s
