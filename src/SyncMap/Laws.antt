-- ===== src/SyncMap/Laws.antt =====
-- sync_map.go against an abstract map, a function from keys to values.
use roq.Common.{
  sym, ap, Bool-cases, ◌∙◌, ℕ, ◌≡◌, refl, true, false, none, some, [], ◌∷◌, ◌==◌, if◌then◌else◌,
  ◌⊎◌, inl, inr, Option-cases, ==_refl,
}
use mathlib.Core.Option.{some-injective, none-ne-some}
use mathlib.Core.Path.{subst}
use roq.Common.GoMap.{GoMap, lookup, lookup-insert, lookup-delete}
use roq.SyncMap.{each, SyncMap, get_or_insert, set, get, delete_key}

module _ {ℓ} {V : Type ℓ} where
  pub get-set :
      (m : SyncMap V) (k j : ℕ) (v : V) → get (set m k v) j ≡ (if k == j then some v else get m j)
  unfolding get set
  get-set m k j v = lookup-insert k j v m.elements

  pub get-delete_key :
      (m : SyncMap V) (k j : ℕ) → get (delete_key m k) j ≡ (if k == j then none else get m j)
  unfolding get delete_key
  get-delete_key m k j = lookup-delete k j m.elements

  -- `getOrInsert` returns what the map holds under the key afterwards, sets the key only where it was
  -- absent, reports whether it did, and otherwise leaves the map as it was.
  pub get_or_insert_lem :
      (m : SyncMap V) (k : ℕ) (v : V)
      → let (m', held, inserted) = get_or_insert m k v in
        (get m' k ≡ some held)
        × (((get m k ≡ some held) × (inserted ≡ false) × (m' ≡ m))
            ⊎ ((get m k ≡ none) × (inserted ≡ true) × (held ≡ v) × (m' ≡ set m k v)))
  unfolding get_or_insert get set
  get_or_insert_lem m k v = elim (Option-cases (lookup k m.elements)) [
    | inl absent ↦
        rw (absent, get_or_insert)
          (lookup-insert k k v m.elements ∙ rw (==_refl k), inr (refl, refl, refl, refl))
    | inr (old, present) ↦ rw (present, get_or_insert) (present, inl (refl, refl, refl))
  ]

  pub get_or_insert_absent :
      (m : SyncMap V) (k : ℕ) (v : V) → get m k ≡ none → get_or_insert m k v ≡ (set m k v, v, true)
  unfolding get_or_insert get set
  get_or_insert_absent m k v absent = rw (absent, get_or_insert)

module _ {ℓ κ} {V : Type ℓ} {S : Type κ} (P : S → Type κ) (f : ℕ → V → S → S)
    (keeps : (k : ℕ) (v : V) (s : S) → P s → P (f k v s)) where
  pub each_keeps : (m : GoMap V) (s : S) → P s → P (each m f s)
  unfolding each
  each_keeps [] s p = p
  each_keeps ((k, v) ∷ m) s p = each_keeps m (f k v s) (keeps k v s p)

  -- What the call for one element establishes, and the later calls keep, holds at the end.
  pub each_reaches :
      (m : GoMap V) (k : ℕ) (v : V) (s : S)
      → lookup k m ≡ some v
      → ((j : ℕ) (st : S) → P (f j v st))
      → P (each m f s)
  unfolding each lookup
  each_reaches [] k v s e make = absurd (none-ne-some v e)
  each_reaches ((j, w) ∷ m) k v s e make = elim (Bool-cases (j == k)) [
    | inr other ↦
        each_reaches m k v (f j w s) (ap (λ b. if b then some w else lookup k m) (sym other) ∙ e)
          make
    | inl same ↦
        let here : w ≡ v =
          some-injective w v (ap (λ b. if b then some w else lookup k m) (sym same) ∙ e) in
        each_keeps m (f j w s) (subst (λ x. P (f j x s)) (sym here) (make j s))
  ]
