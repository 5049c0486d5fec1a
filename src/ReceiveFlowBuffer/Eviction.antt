-- ===== src/ReceiveFlowBuffer/Eviction.antt =====
-- The loop of `getOrCreate` in receive_flow_buffer.go, on a full buffer.
use roq.Common.{
  append-nil, ℕ, ◌<◌, ◌≡◌, refl, sym, ap, ◌∙◌, true, Option, none, some, List, [], ◌∷◌, ◌++◌,
  length, leb, arith,
}
use roq.Common.GoMap.{GoMap, lookup, insert, delete}
use roq.Common.Heap.{Heap, alloc}
use roq.Errors.{err_roq_unknown_flow_id}
use roq.Qlogger.{Qlogger}
use roq.ReceiveFlow.{ReceiveFlow, new_receive_flow, close_with_error}
use roq.ReceiveFlowBuffer.{
  ReceiveFlowBuffer, evict, evict_cancels, prepend, append_flow, get_or_create,
}
use roq.ReceiveFlowBuffer.Order.{IsValid, get_or_create_unknown}

evict_room :
    (h : Heap ReceiveFlow) (max_len : ℕ) (m : GoMap ℕ) (queue : List ℕ)
    → length queue < max_len
    → evict h max_len m queue ≡ some (record { max_len = max_len; buffer = m; queue = queue }, [])
unfolding evict
evict_room h max_len m [] room = ground arith
evict_room h max_len m (x ∷ xs) room = ground arith

evict_one :
    (h : Heap ReceiveFlow) (max_len : ℕ) (m : GoMap ℕ) (front : ℕ) (rest : List ℕ) (r : ℕ)
    → lookup front m ≡ some r
    → length (front ∷ rest) ≡ max_len
    → 0 < max_len
    → evict h max_len m (front ∷ rest)
      ≡ some (
        record { max_len = max_len; buffer = delete front m; queue = rest },
        close_with_error (h.obj r) err_roq_unknown_flow_id,
      )
unfolding evict prepend evict_cancels
evict_one h max_len m front rest r oldest full pos =
    let one : leb max_len (length (front ∷ rest)) ≡ true = ground arith in
    rw (one, oldest, evict_room h max_len (delete front m) rest (omega arith)) (rw append-nil)

-- In a valid buffer that is full and does not hold the ID, `getOrCreate` drops the oldest flow, whose
-- streams are cancelled with `ErrRoQUnknownFlowID`, and no other; the new flow is the youngest.
pub get_or_create_full :
    (b : ReceiveFlowBuffer) (h : Heap ReceiveFlow) (id size front r : ℕ) (rest : List ℕ)
    (log : Option Qlogger)
    → IsValid b
    → lookup id b.buffer ≡ none
    → b.queue ≡ front ∷ rest
    → length b.queue ≡ b.max_len
    → lookup front b.buffer ≡ some r
    → get_or_create b h id size log
      ≡ some (record {
        self = record {
          max_len = b.max_len;
          queue = rest ++ (id ∷ []);
          buffer = insert id h.next (delete front b.buffer);
        };
        heap = alloc (new_receive_flow id size log) h;
        flow = h.next;
        cancelled = close_with_error (h.obj r) err_roq_unknown_flow_id;
      })
get_or_create_full b h id size front r rest log v absent queue full oldest =
    get_or_create_unknown b h id size log absent
    ∙ rw
        (
          queue,
          evict_one h b.max_len b.buffer front rest r oldest (ap length (sym queue) ∙ full)
              v.positive,
        )
        (unfold append_flow in refl)
