-- ===== src/SyncMap/Tests.antt =====
-- Tests of sync_map.go.
use roq.Common.{ℕ, [], ◌∷◌}
use roq.SyncMap.{SyncMap}

abbrev one_key : SyncMap ℕ
one_key = record { elements = (5, 1) ∷ [] }
