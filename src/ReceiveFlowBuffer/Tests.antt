-- ===== src/ReceiveFlowBuffer/Tests.antt =====
-- Tests of receive_flow_buffer.go on a buffer that holds one flow and has no room for another.
use roq.Common.{ℕ, ◌≡◌, ◌≤◌, ◌⊎◌, refl, none, some, [], ◌∷◌, ◌++◌, ◌==◌, if◌then◌else◌, arith}
use roq.Common.GoMap.{lookup, insert, delete}
use roq.Common.Heap.{Heap, alloc}
use roq.Errors.{err_roq_unknown_flow_id}
use roq.ReceiveFlow.{ReceiveFlow, new_receive_flow, close_with_error}
use roq.ReceiveFlowBuffer.{ReceiveFlowBuffer, Created, get_or_create}
use roq.ReceiveFlowBuffer.Order.{IsValid, present, get_or_create-IsValid}
use roq.ReceiveFlowBuffer.Eviction.{get_or_create_full}

abbrev full : ReceiveFlowBuffer
full = record { max_len = 1; buffer = (3, 0) ∷ []; queue = 3 ∷ [] }

abbrev flows : Heap ReceiveFlow
flows = record { obj = λ r. new_receive_flow 3 2 none; next = 1 }

full-IsValid : IsValid full
unfolding lookup
full-IsValid = record { positive = omega arith; within = omega arith; held = λ k. ground arith }

get_or_create-IsValid_example :
    (c : Created) × (get_or_create full flows 4 2 none ≡ some c)
    × IsValid c.self
    × (lookup 4 c.self.buffer ≡ some c.flow)
    × ((k : ℕ)
        → present (lookup k c.self.buffer) ≤ (if 4 == k then 1 else present (lookup k full.buffer)))
    × (((lookup 4 full.buffer ≡ some c.flow)
          × (c.self ≡ full)
          × (c.heap ≡ flows)
          × (c.cancelled ≡ []))
        ⊎ ((lookup 4 full.buffer ≡ none)
            × (c.flow ≡ flows.next)
            × (c.heap ≡ alloc (new_receive_flow 4 2 none) flows)))
get_or_create-IsValid_example = get_or_create-IsValid full flows 4 2 none full-IsValid

get_or_create_full_example :
    get_or_create full flows 4 2 none
    ≡ some (record {
      self = record {
        max_len = full.max_len;
        queue = [] ++ (4 ∷ []);
        buffer = insert 4 flows.next (delete 3 full.buffer);
      };
      heap = alloc (new_receive_flow 4 2 none) flows;
      flow = flows.next;
      cancelled = close_with_error (flows.obj 0) err_roq_unknown_flow_id;
    })
unfolding lookup
get_or_create_full_example =
    get_or_create_full full flows 4 2 3 0 [] none full-IsValid refl refl refl refl
