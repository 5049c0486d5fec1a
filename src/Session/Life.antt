-- ===== src/Session/Life.antt =====
-- session.go from the creation of a session on: its operations one after the other, and between them the
-- critical sections of the methods of its flows.
use roq.Common.{
  ℕ, ◌≡◌, ◌≢◌, ◌⊎◌, inl, inr, refl, sym, ap, ◌∙◌, Bool, true, false, ◌++◌, Option, none, some, List,
  arith, Option-cases,
}
use mathlib.Core.Path.{subst}
use mathlib.Core.Option.{some-injective, none-ne-some}
use roq.Common.Heap.{Heap, alloc, store}
use roq.Qlog.{Event}
use roq.ReceiveFlow.Invariant
use roq.SendFlow.{OpenResult}
use roq.Session.Incoming.{opened_stream}
use roq.Errors.{SessionError, err_roq_no_error}
use roq.Quicvarint.{Bytes, Quicvarint}
use roq.Qlogger.{Qlogger}
use roq.Options.Settings.{Setting, options}
use roq.ReceiveFlow.{ReceiveFlow}
use roq.ReceiveFlow.Frames.{ReceiveStream}
use roq.ReceiveFlowBuffer.{pop}
use roq.SendFlow.{SendFlow, new_flow}
use roq.SyncMap.{SyncMap, get_or_insert, get}
use roq.Session.{
  Session, made, Connection, create_session, FlowResult, adopt, or_refuse, unless_known,
  inserted_or_refused, new_receive_flow_open, new_receive_flow_of, new_send_flow,
  new_send_flow_open,
}
use roq.Session.Shutdown.{
  Transport, close_send_flow, close_receive_flow, close, close_producer, close_session,
}
use roq.Session.Incoming.{handle_datagram, handle_uni_stream, handle_uni_stream_with_flow_id}
use roq.Session.Flows.{
  IsValid, same_IsValid, new_receive_flow_of-IsValid, new_receive_flow_of_alive,
}
use roq.Session.Datagrams.{handle_datagram-IsValid}
use roq.Session.Streams.{handle_uni_stream-IsValid, handle_uni_stream_with_flow_id-IsValid}
use roq.Session.Creation.{create_session-IsValid}
use roq.Session.Closing.{close-IsValid}

-- The operations of a session, each with nothing running in between. `datagram` and `stream` are those
-- of the peer that the session has handled without a panic. `use_receive_flow` is a critical section of
-- `Read`, `SetReadDeadline`, `Close` or `readStream` on any flow, so that these may overlap with each other
-- and with the operations; `open_stream` is `NewSendStream`; and `write` is a `WriteRTPBytes` of a send flow
-- or of a stream, of which the session has the events.
pub data SessionStep (q : Quicvarint) (t : Transport) (s : Session) : Session → Type 0 where
  datagram :
      {s' : Session} (choice : ℕ) (d : Bytes)
      → handle_datagram q t choice s d ≡ some s'
      → SessionStep q t s s'
  stream :
      {s' : Session} (pick : ReceiveFlow → ℕ) (rs : ReceiveStream)
      → handle_uni_stream q pick s rs ≡ some s'
      → SessionStep q t s s'
  stream_of_flow :
      {s' : Session} (pick : ReceiveFlow → ℕ) (id : ℕ) (rs : ReceiveStream)
      → handle_uni_stream_with_flow_id q pick s id rs ≡ some s'
      → SessionStep q t s s'
  ask_receive_flow : (id : ℕ) → SessionStep q t s (new_receive_flow_of s id).0
  ask_send_flow : (id : ℕ) → SessionStep q t s (new_send_flow q s id).0
  end_send_flow : (r : ℕ) → SessionStep q t s (close_send_flow t s r).0
  end_receive_flow : (r : ℕ) → SessionStep q t s (close_receive_flow s r)
  end_session : SessionStep q t s (close_session t s).0
  use_receive_flow :
      (r : ℕ) (f : ReceiveFlow)
      → Invariant.Step (s.receive_heap.obj r) f
      → SessionStep q t s (record s { receive_heap = store r f s.receive_heap })
  open_stream :
      (r : ℕ) (answer : OpenResult) (priority : ℕ) (incremental : Bool)
      → SessionStep q t s (opened_stream s r answer priority incremental)
  write : (events : List Event) → SessionStep q t s (record s { events = s.events ++ events })

pub data Lives (q : Quicvarint) (t : Transport) (s : Session) : Session → Type 0 where
  born : Lives q t s s
  then_step : {s' s'' : Session} → Lives q t s s' → SessionStep q t s' s'' → Lives q t s s''

-- `NewReceiveFlow` leaves the session as it was, or it is open and has no flow for the ID.
pub new_receive_flow_of_cases :
    (s : Session) (id : ℕ)
    → ((new_receive_flow_of s id).0 ≡ s) ⊎ ((s.closed_err ≡ none) × (get s.receive_flows id ≡ none))
unfolding new_receive_flow_of new_receive_flow_open
new_receive_flow_of_cases s id = elim (Option-cases s.closed_err) [
  | inr (e, done) ↦ inl (ap (λ o. (or_refuse s o (new_receive_flow_open s id)).0) done)
  | inl alive ↦ elim (Option-cases (get s.receive_flows id)) [
    | inr (r, known) ↦ inl (
        ap (λ x. x.0)
          (new_receive_flow_of_alive s id alive
            ∙ ap
                (λ o. unless_known s o (
                  adopt (record s { flow_buffer = (pop s.flow_buffer id).0 }) id
                    (pop s.flow_buffer id).1))
                known))
    | inl new ↦ inr (alive, new)
  ]
]

pub ask_receive_flow-IsValid :
    (s : Session) (id : ℕ) → IsValid s → IsValid (new_receive_flow_of s id).0
ask_receive_flow-IsValid s id v = elim (new_receive_flow_of_cases s id) [
  | inl same ↦ subst IsValid (sym same) v
  | inr (alive, new) ↦
      let (s', r, e, w, _, _) = new_receive_flow_of-IsValid s id v alive new in
      subst IsValid (ap (λ x. x.0) (sym e)) w
]

inserted_or_refused_keeps :
    {A : Type 0} (field : Session → A) (s : Session) (address : ℕ) (m : SyncMap ℕ) (held : ℕ)
    (inserted : Bool)
    → field (record s { send_flows = m }) ≡ field s
    → field (inserted_or_refused s address (m, held, inserted)).0 ≡ field s
inserted_or_refused_keeps field s address m held true e = e
inserted_or_refused_keeps field s address m held false e = refl

or_refuse_keeps :
    {A : Type 0} (field : Session → A) (s : Session) (o : Option SessionError)
    (rest : Session × FlowResult)
    → field rest.0 ≡ field s
    → field (or_refuse s o rest).0 ≡ field s
or_refuse_keeps field s none rest e = e
or_refuse_keeps field s (some _) rest e = refl

-- `NewSendFlow` leaves the receive flows as they were.
pub new_send_flow_keeps :
    (q : Quicvarint) (s : Session) (id : ℕ)
    → let s' = (new_send_flow q s id).0 in
      (s'.flow_buffer ≡ s.flow_buffer)
      × (s'.receive_flows ≡ s.receive_flows)
      × (s'.receive_heap ≡ s.receive_heap)
unfolding new_send_flow new_send_flow_open
new_send_flow_keeps q s id =
    let s1 = record s { send_heap = alloc (new_flow q id s.qlog) s.send_heap } in
    let g = get_or_insert s.send_flows id s.send_heap.next in
    let rest = new_send_flow_open q s id in
    (
      or_refuse_keeps (λ x. x.flow_buffer) s s.closed_err rest
          (inserted_or_refused_keeps (λ x. x.flow_buffer) s1 s.send_heap.next g.0 g.1 g.2 refl),
      or_refuse_keeps (λ x. x.receive_flows) s s.closed_err rest
          (inserted_or_refused_keeps (λ x. x.receive_flows) s1 s.send_heap.next g.0 g.1 g.2 refl),
      or_refuse_keeps (λ x. x.receive_heap) s s.closed_err rest
          (inserted_or_refused_keeps (λ x. x.receive_heap) s1 s.send_heap.next g.0 g.1 g.2 refl),
    )

pub ask_send_flow-IsValid :
    (q : Quicvarint) (s : Session) (id : ℕ) → IsValid s → IsValid (new_send_flow q s id).0
ask_send_flow-IsValid q s id v =
    let (b, f, _) = new_send_flow_keeps q s id in same_IsValid s (new_send_flow q s id).0 b f v

pub close_producer-IsValid :
    (l : Option Qlogger) (s : Session) → IsValid s → IsValid (close_producer l s)
unfolding close_producer
close_producer-IsValid none s v = v
close_producer-IsValid (some l) s v =
    same_IsValid s (close_producer (some l) s) (ground arith) (ground arith) v

same_result :
    {o : Option Session} {s s' : Session} → o ≡ some s → o ≡ some s' → IsValid s → IsValid s'
same_result {o} {s} {s'} e e' v = subst IsValid (some-injective s s' (sym e ∙ e')) v

SessionStep-IsValid :
    {q : Quicvarint} {t : Transport} {s s' : Session}
    → SessionStep q t s s'
    → IsValid s
    → IsValid s'
unfolding close_send_flow close_receive_flow close_session
SessionStep-IsValid {q} {t} {s} (datagram choice d done) v =
    let (_, e, w) = handle_datagram-IsValid q t choice s d v in same_result e done w
SessionStep-IsValid {q} {t} {s} (stream pick rs done) v =
    let (_, e, w) = handle_uni_stream-IsValid q pick s rs v in same_result e done w
SessionStep-IsValid {q} {t} {s} (stream_of_flow pick id rs done) v =
    let (_, e, w) = handle_uni_stream_with_flow_id-IsValid q pick s id rs v in same_result e done w
SessionStep-IsValid {q} {t} {s} (ask_receive_flow id) v = ask_receive_flow-IsValid s id v
SessionStep-IsValid {q} {t} {s} (ask_send_flow id) v = ask_send_flow-IsValid q s id v
SessionStep-IsValid {q} {t} {s} (end_send_flow r) v = same_IsValid s _ refl refl v
SessionStep-IsValid {q} {t} {s} (end_receive_flow r) v = same_IsValid s _ refl refl v
SessionStep-IsValid {q} {t} {s} (use_receive_flow r f step) v = same_IsValid s _ refl refl v
SessionStep-IsValid {q} {t} {s} (open_stream r answer priority incremental) v =
    same_IsValid s _ refl refl v
SessionStep-IsValid {q} {t} {s} (write events) v = same_IsValid s _ refl refl v
SessionStep-IsValid {q} {t} {s} end_session v =
    let s' = close t s err_roq_no_error "" in
    close_producer-IsValid s'.qlog s' (close-IsValid t s err_roq_no_error "" v)

pub Lives-IsValid :
    {q : Quicvarint} {t : Transport} {s s' : Session} → Lives q t s s' → IsValid s → IsValid s'
Lives-IsValid born v = v
Lives-IsValid (then_step l step) v = SessionStep-IsValid step (Lives-IsValid l v)

-- In every state of a session that was created with options that are accepted, after any sequence of
-- datagrams and streams of the peer and of calls of the application, of the session and of its flows, where
-- the session's operations follow one another and the critical sections of the receive flows' methods come
-- anywhere between them: each flow is in one place, the
-- buffer of unknown flows is within its bound, and `HandleDatagram` returns on every datagram and
-- `handleUniStream` on every stream that ends.
pub session-IsValid :
    (q : Quicvarint) (t : Transport) (conn : Option Connection) (accept : Bool) (ss : List Setting)
    (rh : Heap ReceiveFlow) (sh : Heap SendFlow) (s s' : Session)
    → create_session conn accept (options ss) rh sh ≡ made s
    → Lives q t s s'
    → IsValid s'
      × ((choice : ℕ) (d : Bytes) → handle_datagram q t choice s' d ≢ none)
      × ((pick : ReceiveFlow → ℕ) (rs : ReceiveStream) → handle_uni_stream q pick s' rs ≢ none)
session-IsValid q t conn accept ss rh sh s s' m l =
    let v = Lives-IsValid l (create_session-IsValid conn accept ss rh sh s m) in
    (
      v,
      λ choice d e.
          (let (next, done, w) = handle_datagram-IsValid q t choice s' d v in
            none-ne-some next (sym e ∙ done)),
      λ pick rs e.
          (let (next, done, w) = handle_uni_stream-IsValid q pick s' rs v in
            none-ne-some next (sym e ∙ done)),
    )
