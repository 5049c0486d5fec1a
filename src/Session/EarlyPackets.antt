-- ===== src/Session/EarlyPackets.antt =====
-- session.go on packets that come before the application asks for their flow.
use mathlib.Core.Option.{none-ne-some}
use roq.Common.{
  ℕ, ◌<◌, ◌≡◌, ◌⊎◌, inl, inr, refl, sym, ap, ◌∙◌, Option, none, some, [], ◌∷◌, ◌++◌, arith, ==_refl,
  lt→ltb,
}
use roq.Common.GoMap.{lookup}
use roq.Common.Heap.{Heap, alloc}
use roq.Common.Chan.{make_chan}
use roq.Qlogger.{Qlogger}
use roq.Quicvarint.{Bytes, Quicvarint, IsQuicvarint, varint_limit}
use roq.ReceiveFlow.{ReceiveFlow, new_receive_flow}
use roq.ReceiveFlow.Queue.{IsOpen, offer, packets}
use roq.ReceiveFlowBuffer.{ReceiveFlowBuffer, Created, pop}
use roq.ReceiveFlowBuffer.Order.{present, get_or_create-IsValid, pop-IsValid}
use roq.SyncMap.{get, set}
use roq.Session.{Session, flow, adopt, new_receive_flow_of}
use roq.Session.Incoming.{buffered, receive_flow, handle_datagram}
use roq.Session.Shutdown.{Transport}
use roq.Session.Flows.{IsValid, same_IsValid, receive_flow_unknown, new_receive_flow_of_new}
use roq.Session.Datagrams.{logged, handle_sent, taken, taken-packets}

made_new :
    (known : Option ℕ) (h h' : Heap ReceiveFlow) (c : Created) {b : ReceiveFlowBuffer}
    → known ≡ none
    → ((known ≡ some c.flow) × (c.self ≡ b) × (c.heap ≡ h) × (c.cancelled ≡ []))
      ⊎ ((known ≡ none) × (c.flow ≡ h.next) × (c.heap ≡ h'))
    → (c.flow ≡ h.next) × (c.heap ≡ h')
made_new known h h' c absent (inl (known_one, _, _, _)) =
    absurd (none-ne-some _ (sym absent ∙ known_one))
made_new known h h' c absent (inr (_, flow_is, heap_is)) = (flow_is, heap_is)

-- The first packet for an ID that nothing is known about gets a new flow, in the buffer.
pub receive_flow_first :
    (s : Session) (id : ℕ)
    → IsValid s
    → get s.receive_flows id ≡ none
    → lookup id s.flow_buffer.buffer ≡ none
    → let r = s.receive_heap.next in
      let f = new_receive_flow id s.receive_buffer_size s.qlog in
      (s' : Session) × (receive_flow s id ≡ some (s', r))
      × IsValid s'
      × (lookup id s'.flow_buffer.buffer ≡ some r)
      × (s'.receive_heap ≡ alloc f s.receive_heap)
      × (s'.receive_flows ≡ s.receive_flows)
      × (s'.closed_err ≡ s.closed_err)
receive_flow_first s id v unknown absent =
    let (c, e, w, found, less, rest) =
      get_or_create-IsValid s.flow_buffer s.receive_heap id s.receive_buffer_size s.qlog
        v.buffer_valid in
    let (new, heap) = made_new _ _ _ c absent rest in
    (
      record s {
        flow_buffer = c.self;
        receive_heap = c.heap;
        cancelled = s.cancelled ++ c.cancelled;
      },
      receive_flow_unknown s id unknown ∙ unfold buffered in rw (e, new),
      record {
        buffer_valid = w;
        apart = λ k. ground (arith, less k, v.apart k, ap present unknown);
      },
      found ∙ ap some new,
      heap,
      refl,
      refl,
    )

-- `NewReceiveFlow` hands a buffered flow over as it is.
pub new_receive_flow_of_held :
    (s : Session) (id r : ℕ)
    → IsValid s
    → s.closed_err ≡ none
    → get s.receive_flows id ≡ none
    → lookup id s.flow_buffer.buffer ≡ some r
    → new_receive_flow_of s id ≡ (
      record s { flow_buffer = (pop s.flow_buffer id).0; receive_flows = set s.receive_flows id r },
      flow r,
    )
unfolding adopt
new_receive_flow_of_held s id r v alive new kept =
    let (w, popped, others) = pop-IsValid s.flow_buffer id v.buffer_valid in
    new_receive_flow_of_new s id alive new ∙ rw (popped ∙ kept)

new_flow_takes :
    (f : ReceiveFlow) (id size : ℕ) (log : Option Qlogger) (p : Bytes)
    → f ≡ new_receive_flow id size log
    → 0 < size
    → IsOpen f × (offer f.buffer.cap (packets f) p ≡ p ∷ [])
unfolding new_receive_flow make_chan
new_flow_takes f id size log p new room =
    rw new (record { not_closed = refl; chan_open = refl }, rw (lt→ltb 0 size room))

-- A packet that comes before its flow is not lost: a valid and open session that knows nothing of the
-- flow ID, which is below 2^62, and whose flows hold a packet at least, takes the datagram of a send
-- flow's packet, and the flow that `NewReceiveFlow` then gives out holds that packet, and only it.
pub early_packet_is_kept :
    (q : Quicvarint) (qv : IsQuicvarint q) (t : Transport) (choice : ℕ) (s : Session) (id : ℕ)
    (p : Bytes)
    → id < varint_limit
    → IsValid s
    → s.closed_err ≡ none
    → get s.receive_flows id ≡ none
    → lookup id s.flow_buffer.buffer ≡ none
    → 0 < s.receive_buffer_size
    → (s1 : Session) × (s2 : Session) × (r : ℕ) × (handle_datagram q t choice s
          (q.append [] id ++ p)
        ≡ some s1)
      × (new_receive_flow_of s1 id ≡ (s2, flow r))
      × (packets (s2.receive_heap.obj r) ≡ p ∷ [])
early_packet_is_kept q qv t choice s id p small v alive unknown absent room =
    let s0 = logged s (q.append [] id ++ p) id (q.len id) in
    let r = s.receive_heap.next in
    let (s1, served, w, kept, heap, flows, err) =
      receive_flow_first s0 id (same_IsValid s s0 refl refl v) unknown absent in
    let s' = taken choice r p s1 in
    let made : s1.receive_heap.obj r ≡ new_receive_flow id s.receive_buffer_size s.qlog =
      ap (λ h. h.obj r) heap ∙ rw (==_refl r) in
    let (o, only) =
      new_flow_takes (s1.receive_heap.obj r) id s.receive_buffer_size s.qlog p made room in
    (
      s',
      record s' {
        flow_buffer = (pop s'.flow_buffer id).0;
        receive_flows = set s'.receive_flows id r;
      },
      r,
      handle_sent q qv t choice s s1 id r p small served,
      new_receive_flow_of_held s' id r (same_IsValid s1 s' refl refl w) (err ∙ alive)
          (ap (λ m. get m id) flows ∙ unknown) kept,
      taken-packets choice r p s1 o ∙ only,
    )
