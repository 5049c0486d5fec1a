-- ===== src/Session/FlowIds.antt =====
-- session.go, send_flow.go: `Close` of a send flow and the ID that it gives back to the session.
use roq.Common.{ℕ, ◌≡◌, ◌≢◌, ap, ◌∙◌, none, some, arith, ==_refl}
use roq.Quicvarint.{Quicvarint}
use roq.SyncMap.{get}
use roq.SyncMap.Laws.{get_or_insert_absent, get-delete_key}
use roq.Session.{Session, flow, inserted_or_refused, new_send_flow, new_send_flow_open}
use roq.Session.Flows.{new_send_flow_alive}
use roq.Session.Shutdown.{Transport, close_send_flow}

-- After `Close` of a send flow of an open session, `NewSendFlow` makes a new flow with the same ID, at
-- a new address.
pub id_is_free_again :
    (q : Quicvarint) (t : Transport) (s : Session) (r : ℕ)
    → s.closed_err ≡ none
    → let id = (s.send_heap.obj r).id in
      (new_send_flow q (close_send_flow t s r).0 id).1 ≡ flow s.send_heap.next
unfolding new_send_flow_open close_send_flow
id_is_free_again q t s r alive =
    let id = (s.send_heap.obj r).id in
    let s' = (close_send_flow t s r).0 in
    let gone : get s'.send_flows id ≡ none = get-delete_key s.send_flows id id ∙ rw (==_refl id) in
    let made = get_or_insert_absent s'.send_flows id s.send_heap.next gone in
    ap (λ x. x.1)
      (new_send_flow_alive q s' id alive ∙ ap (inserted_or_refused _ s.send_heap.next) made)

-- `Close` of a flow deletes whatever flow is registered under its ID: where another flow has the ID
-- since, the session does not know that flow any more, which is left as it was.
pub close_forgets_other_flow :
    (t : Transport) (s : Session) (r other : ℕ)
    → r ≢ other
    → get s.send_flows (s.send_heap.obj r).id ≡ some other
    → let s' = (close_send_flow t s r).0 in
      (get s'.send_flows (s.send_heap.obj r).id ≡ none)
      × (s'.send_heap.obj other ≡ s.send_heap.obj other)
unfolding close_send_flow
close_forgets_other_flow t s r other ne known = (
  get-delete_key s.send_flows (s.send_heap.obj r).id (s.send_heap.obj r).id
      ∙ rw (==_refl (s.send_heap.obj r).id),
  ground (arith, ne),
)
