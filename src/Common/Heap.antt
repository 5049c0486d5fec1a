-- ===== src/Common/Heap.antt =====
-- Go's pointers to the structs of one type: an object for each address, and the next free address.
use Prim.Native.Nat.{ℕ, suc}
use roq.Common.Tests.{◌==◌, if◌then◌else◌}

pub record Heap {ℓ} (V : Type ℓ) : Type ℓ where
  pub obj : ℕ → V
  pub next : ℕ

module _ {ℓ} {V : Type ℓ} where
  abbrev pub store : ℕ → V → Heap V → Heap V
  store r v h = record h { obj = λ x. if r == x then v else h.obj x }

  -- The new object's address is the old `next`.
  abbrev pub alloc : V → Heap V → Heap V
  alloc v h = record { obj = λ x. if h.next == x then v else h.obj x; next = suc h.next }
