-- ===== src/Session/Flows.antt =====
-- `receiveFlow`, `NewReceiveFlow` and `NewSendFlow` of session.go, and the validity of a session: each
-- receive flow is either with the application or in the bounded buffer.
use roq.Common.{
  false, ℕ, ◌+◌, ◌≤◌, ◌≡◌, ◌⊎◌, inl, inr, refl, ap, ◌∙◌, none, some, ◌++◌, arith, Option-cases,
  ==_refl,
}
use roq.Common.GoMap.{lookup}
use roq.Common.Heap.{alloc}
use roq.Errors.{SessionError, duplicate_flow_id, session_error}
use roq.Quicvarint.{Quicvarint}
use roq.ReceiveFlow.{new_receive_flow}
use roq.ReceiveFlowBuffer.{get_or_create, pop}
use roq.ReceiveFlowBuffer.Order
use roq.ReceiveFlowBuffer.Order.{present, get_or_create-IsValid, pop-IsValid}
use roq.SyncMap.{get, set, get_or_insert}
use roq.SyncMap.Laws.{get-set}
use roq.Session.{
  Session, flow, or_refuse, unless_known, inserted_or_refused, refused, adopt,
  new_receive_flow_open, new_receive_flow_of, new_send_flow, new_send_flow_open,
}
use roq.Session.Incoming.{buffered, receive_flow}

pub record IsValid (s : Session) : Type 0 where
  pub buffer_valid : Order.IsValid s.flow_buffer
  pub apart :
      (k : ℕ) → present (get s.receive_flows k) + present (lookup k s.flow_buffer.buffer) ≤ 1

pub same_IsValid :
    (s s' : Session)
    → s'.flow_buffer ≡ s.flow_buffer
    → s'.receive_flows ≡ s.receive_flows
    → IsValid s
    → IsValid s'
same_IsValid s s' b r v = record {
  buffer_valid = rw b v.buffer_valid;
  apart = λ k. rw (b, r) (v.apart k);
}

-- The flow for an ID: the application's, or the buffered one.
pub data Serves (s : Session) (id r : ℕ) : Type 0 where
  registered : get s.receive_flows id ≡ some r → Serves s id r
  held : lookup id s.flow_buffer.buffer ≡ some r → Serves s id r

pub receive_flow_known :
    (s : Session) (id r : ℕ) → get s.receive_flows id ≡ some r → receive_flow s id ≡ some (s, r)
unfolding receive_flow
receive_flow_known s id r e = rw (e, receive_flow)

pub receive_flow_unknown :
    (s : Session) (id : ℕ)
    → get s.receive_flows id ≡ none
    → receive_flow s id
      ≡ buffered s (get_or_create s.flow_buffer s.receive_heap id s.receive_buffer_size s.qlog)
unfolding receive_flow
receive_flow_unknown s id e = rw (e, receive_flow)

-- On a valid session `receiveFlow` never panics, keeps the session valid, and returns the flow that
-- serves the ID afterwards; the registered flows stay as they are.
pub receive_flow-IsValid :
    (s : Session) (id : ℕ)
    → IsValid s
    → (s' : Session) × (r : ℕ) × (receive_flow s id ≡ some (s', r))
      × IsValid s'
      × Serves s' id r
      × (s'.receive_flows ≡ s.receive_flows)
receive_flow-IsValid s id v = elim (Option-cases (get s.receive_flows id)) [
  | inr (r, known) ↦ (s, r, receive_flow_known s id r known, v, registered known, refl)
  | inl unknown ↦
      let (c, e, w, found, less, rest) =
        get_or_create-IsValid s.flow_buffer s.receive_heap id s.receive_buffer_size s.qlog
          v.buffer_valid in
      (
        record s {
          flow_buffer = c.self;
          receive_heap = c.heap;
          cancelled = s.cancelled ++ c.cancelled;
        },
        c.flow,
        receive_flow_unknown s id unknown ∙ unfold buffered in rw e,
        record {
          buffer_valid = w;
          apart = λ k. ground (arith, less k, v.apart k, ap present unknown);
        },
        held found,
        refl,
      )
]

adopted-apart :
    (s : Session) (id r k : ℕ)
    → IsValid s
    → present (get (set s.receive_flows id r) k)
        + present (lookup k (pop s.flow_buffer id).0.buffer)
      ≤ 1
adopted-apart s id r k v =
    let (w, e, others) = pop-IsValid s.flow_buffer id v.buffer_valid in
    ground (arith, get-set s.receive_flows id k r, others k, v.apart k)

pub new_receive_flow_of_alive :
    (s : Session) (id : ℕ)
    → s.closed_err ≡ none
    → new_receive_flow_of s id ≡ new_receive_flow_open s id
unfolding new_receive_flow_of
new_receive_flow_of_alive s id alive = ap (λ o. or_refuse s o (new_receive_flow_open s id)) alive

pub new_send_flow_alive :
    (q : Quicvarint) (s : Session) (id : ℕ)
    → s.closed_err ≡ none
    → new_send_flow q s id ≡ new_send_flow_open q s id
unfolding new_send_flow
new_send_flow_alive q s id alive = ap (λ o. or_refuse s o (new_send_flow_open q s id)) alive

pub new_receive_flow_open_new :
    (s : Session) (id : ℕ)
    → get s.receive_flows id ≡ none
    → new_receive_flow_open s id
      ≡ adopt (record s { flow_buffer = (pop s.flow_buffer id).0 }) id (pop s.flow_buffer id).1
unfolding new_receive_flow_open
new_receive_flow_open_new s id new =
    ap
      (λ o.
        unless_known s o
          (adopt (record s { flow_buffer = (pop s.flow_buffer id).0 }) id (pop s.flow_buffer id).1))
      new

-- What `NewReceiveFlow` does where it makes or hands over a flow.
pub new_receive_flow_of_new :
    (s : Session) (id : ℕ)
    → s.closed_err ≡ none
    → get s.receive_flows id ≡ none
    → new_receive_flow_of s id
      ≡ adopt (record s { flow_buffer = (pop s.flow_buffer id).0 }) id (pop s.flow_buffer id).1
new_receive_flow_of_new s id alive new =
    new_receive_flow_of_alive s id alive ∙ new_receive_flow_open_new s id new

-- On a valid and open session that has no flow registered for the ID, `NewReceiveFlow` succeeds and
-- keeps the session valid. The flow is then registered under the ID; it is the one that the unknown
-- flows' buffer held, where it held one, and a new one otherwise.
pub new_receive_flow_of-IsValid :
    (s : Session) (id : ℕ)
    → IsValid s
    → s.closed_err ≡ none
    → get s.receive_flows id ≡ none
    → (s' : Session) × (r : ℕ) × (new_receive_flow_of s id ≡ (s', flow r))
      × IsValid s'
      × (get s'.receive_flows id ≡ some r)
      × ((lookup id s.flow_buffer.buffer ≡ some r)
          ⊎ ((lookup id s.flow_buffer.buffer ≡ none) × (r ≡ s.receive_heap.next)))
unfolding adopt
new_receive_flow_of-IsValid s id v alive new =
    let (w, popped, others) = pop-IsValid s.flow_buffer id v.buffer_valid in
    elim (Option-cases (lookup id s.flow_buffer.buffer)) [
      | inr (r, kept) ↦ (
        record s {
          flow_buffer = (pop s.flow_buffer id).0;
          receive_flows = set s.receive_flows id r;
        },
        r,
        new_receive_flow_of_new s id alive new ∙ rw (popped ∙ kept),
        record { buffer_valid = w; apart = λ k. adopted-apart s id r k v },
        get-set s.receive_flows id id r ∙ rw (==_refl id),
        inl kept,
      )
      | inl absent ↦
          let r = s.receive_heap.next in
          (
            record s {
              flow_buffer = (pop s.flow_buffer id).0;
              receive_flows = set s.receive_flows id r;
              receive_heap =
                  alloc (new_receive_flow id s.receive_buffer_size s.qlog) s.receive_heap;
            },
            r,
            new_receive_flow_of_new s id alive new ∙ rw (popped ∙ absent),
            record { buffer_valid = w; apart = λ k. adopted-apart s id r k v },
            get-set s.receive_flows id id r ∙ rw (==_refl id),
            inr (absent, refl),
          )
    ]

-- A closed session gives out no receive flow and no send flow, and neither call changes it.
pub closed_session_refuses :
    (q : Quicvarint) (s : Session) (id : ℕ) (e : SessionError)
    → s.closed_err ≡ some e
    → (new_receive_flow_of s id ≡ (s, refused (session_error e)))
      × (new_send_flow q s id ≡ (s, refused (session_error e)))
unfolding new_receive_flow_of new_send_flow
closed_session_refuses q s id e closed = (
  ap (λ o. or_refuse s o (new_receive_flow_open s id)) closed,
  ap (λ o. or_refuse s o (new_send_flow_open q s id)) closed,
)

-- On an open session that has flows of both directions under an ID, `NewReceiveFlow` and `NewSendFlow`
-- refuse the ID; the first leaves the session as it was, the second its send flows.
pub duplicate_refused :
    (q : Quicvarint) (s : Session) (id r w : ℕ)
    → s.closed_err ≡ none
    → get s.receive_flows id ≡ some r
    → get s.send_flows id ≡ some w
    → (new_receive_flow_of s id ≡ (s, refused duplicate_flow_id))
      × ((new_send_flow q s id).1 ≡ refused duplicate_flow_id)
      × ((new_send_flow q s id).0.send_flows ≡ s.send_flows)
unfolding new_receive_flow_open new_send_flow_open get get_or_insert
duplicate_refused q s id r w alive known taken =
    let found : get_or_insert s.send_flows id s.send_heap.next ≡ (s.send_flows, w, false) =
      rw (taken, get_or_insert) in
    let sent =
      new_send_flow_alive q s id alive ∙ ap (inserted_or_refused _ s.send_heap.next) found in
    (
      new_receive_flow_of_alive s id alive
          ∙ ap
              (λ o. unless_known s o (
                adopt (record s { flow_buffer = (pop s.flow_buffer id).0 }) id
                  (pop s.flow_buffer id).1))
              known,
      ap (λ x. x.1) sent,
      ap (λ x. x.0.send_flows) sent,
    )
