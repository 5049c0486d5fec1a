-- ===== src/Session/Race.antt =====
-- session.go: `NewReceiveFlow` against `close`.
use roq.Common.{ℕ, ◌≡◌, ap, ◌∙◌, false, none, some}
use Prim.Native.String.{String}
use roq.Common.GoMap.{lookup}
use roq.Common.Heap.{alloc}
use roq.ReceiveFlow.{new_receive_flow}
use roq.ReceiveFlowBuffer.{pop}
use roq.SyncMap.{get, set}
use roq.Session.{Session, flow, adopt, new_receive_flow_open}
use roq.Session.Shutdown.{Transport, close}
use roq.Session.Flows.{IsValid}
use roq.Session.Closing.{close_keeps_flows, close_first, close_closed}
use roq.Common.{if◌then◌else◌, ==_refl}
use roq.SyncMap.Laws.{get-set}
use roq.Session.Flows.{new_receive_flow_open_new}
use roq.ReceiveFlowBuffer.Order.{pop-IsValid}

-- Where `close` runs between the test for a closed session and the critical section of `NewReceiveFlow`, in
-- a valid session that knows nothing of the ID, the caller gets a flow that is registered and live, and
-- that no later `close` ends, as the session is closed.
pub close_misses_new_receive_flow :
    (t : Transport) (s : Session) (code : ℕ) (reason : String) (id : ℕ)
    → IsValid s
    → s.closed_err ≡ none
    → get s.receive_flows id ≡ none
    → lookup id s.flow_buffer.buffer ≡ none
    → let s1 = close t s code reason in
      (s2 : Session) × (r : ℕ) × (new_receive_flow_open s1 id ≡ (s2, flow r))
      × (get s2.receive_flows id ≡ some r)
      × ((s2.receive_heap.obj r).ctx_done ≡ false)
      × (close t s2 code reason ≡ s2)
unfolding adopt new_receive_flow
close_misses_new_receive_flow t s code reason id v alive new absent =
    let s1 = close t s code reason in
    let (b, flows) = close_keeps_flows t s code reason alive in
    let (w, popped, others) = pop-IsValid s.flow_buffer id v.buffer_valid in
    let nothing : (pop s1.flow_buffer id).1 ≡ none = ap (λ x. (pop x id).1) b ∙ popped ∙ absent in
    let r = s1.receive_heap.next in
    let s2 : Session = record s1 {
      flow_buffer = (pop s1.flow_buffer id).0;
      receive_heap = alloc (new_receive_flow id s1.receive_buffer_size s1.qlog) s1.receive_heap;
      receive_flows = set s1.receive_flows id r;
    } in
    (
      s2,
      r,
      new_receive_flow_open_new s1 id (ap (λ m. get m id) flows ∙ new) ∙ rw nothing,
      get-set s1.receive_flows id id r ∙ rw (==_refl id),
      ap
          (λ c.
            (if c
              then new_receive_flow id s1.receive_buffer_size s1.qlog
              else s1.receive_heap.obj r).ctx_done)
          (==_refl r),
      close_closed t s2 code reason (record { code = code; reason = reason })
          (close_first t s code reason alive).0,
    )
