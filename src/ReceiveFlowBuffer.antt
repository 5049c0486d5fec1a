-- ===== src/ReceiveFlowBuffer.antt =====
-- receive_flow_buffer.go: the flows that packets came for before the application asked for them, oldest
-- first, at most `max_len` of them. A `*ReceiveFlow` is an address in the heap of flows.
pub mod Order
pub mod Addresses
pub mod Eviction
mod Tests
use roq.Common.{
  ℕ, suc, Bool, true, false, Option, none, some, List, [], ◌∷◌, ◌++◌, length, leb, ◌==◌,
  if◌then◌else◌,
}
use roq.Common.GoMap.{GoMap, lookup, insert, delete}
use roq.Common.Heap.{Heap, alloc}
use roq.Errors.{err_roq_unknown_flow_id}
use roq.Qlogger.{Qlogger}
use roq.ReceiveFlow.{ReceiveFlow, Cancel, new_receive_flow, close_with_error}

pub record ReceiveFlowBuffer : Type 0 where
  pub max_len : ℕ
  pub buffer : GoMap ℕ
  pub queue : List ℕ

unfoldable pub new_receive_flow_buffer : ℕ → ReceiveFlowBuffer
new_receive_flow_buffer max_len = record { max_len = max_len; buffer = []; queue = [] }

-- The streams that an eviction of the flow with this ID cancels.
evict_cancels : Heap ReceiveFlow → Option ℕ → List Cancel
evict_cancels h none = []
evict_cancels h (some r) = close_with_error (h.obj r) err_roq_unknown_flow_id

prepend :
    List Cancel
    → Option (ReceiveFlowBuffer × List Cancel)
    → Option (ReceiveFlowBuffer × List Cancel)
prepend cs none = none
prepend cs (some (b, ds)) = some (b, cs ++ ds)

-- `for len(b.queue) >= b.maxLen`, over the queue; `none` is the panic at the head of an empty queue.
unfoldable pub evict :
    Heap ReceiveFlow → ℕ → GoMap ℕ → List ℕ → Option (ReceiveFlowBuffer × List Cancel)
unfolding prepend evict_cancels
evict h max_len m [] =
    if leb max_len 0 then none else some (record { max_len = max_len; buffer = m; queue = [] }, [])
evict h max_len m (front ∷ rest) =
    let evicted =
      prepend (evict_cancels h (lookup front m)) (evict h max_len (delete front m) rest) in
    if leb max_len (length (front ∷ rest))
    then evicted
    else some (record { max_len = max_len; buffer = m; queue = front ∷ rest }, [])

-- The buffer and the heap afterwards, the flow's address and the streams that were cancelled.
pub record Created : Type 0 where
  pub self : ReceiveFlowBuffer
  pub heap : Heap ReceiveFlow
  pub flow : ℕ
  pub cancelled : List Cancel

unfoldable pub append_flow :
    ℕ → ReceiveFlow → Heap ReceiveFlow → Option (ReceiveFlowBuffer × List Cancel) → Option Created
append_flow id f h none = none
append_flow id f h (some (b, cs)) = some (record {
  self = record b { queue = b.queue ++ (id ∷ []); buffer = insert id h.next b.buffer };
  heap = alloc f h;
  flow = h.next;
  cancelled = cs;
})

unfoldable pub get_or_create :
    ReceiveFlowBuffer → Heap ReceiveFlow → ℕ → ℕ → Option Qlogger → Option Created
unfolding evict append_flow
get_or_create b h id receive_buffer_size log = elim (lookup id b.buffer) [
  | some r ↦ some (record { self = b; heap = h; flow = r; cancelled = [] })
  | none ↦
      append_flow id (new_receive_flow id receive_buffer_size log) h
        (evict h b.max_len b.buffer b.queue)
]

-- `slices.IndexFunc` and `slices.Delete`: the first occurrence.
abbrev pub remove_first : ℕ → List ℕ → List ℕ
remove_first id [] = []
remove_first id (x ∷ xs) = if x == id then xs else x ∷ remove_first id xs

unfoldable pub pop : ReceiveFlowBuffer → ℕ → ReceiveFlowBuffer × Option ℕ
pop b id =
    let queue = remove_first id b.queue in
    elim (lookup id b.buffer) [
      | none ↦ (record b { queue = queue }, none)
      | some r ↦ (record b { queue = queue; buffer = delete id b.buffer }, some r)
    ]
