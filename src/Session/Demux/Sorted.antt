-- ===== src/Session/Demux/Sorted.antt =====
-- `receiveDatagrams` of session.go: each flow gets its own packets.
use roq.Common.{
  ℕ, ◌≤◌, ◌≡◌, inl, inr, refl, ap, ◌∙◌, Bool, true, false, Option, none, some, List, [], ◌∷◌, ◌++◌,
  Option-cases, ◌==◌, if◌then◌else◌, drop, take, length,
}
use roq.Errors.{err_roq_packet_error}
use roq.Quicvarint.{Bytes, Quicvarint}
use roq.ReceiveFlow.{ReceiveFlow}
use roq.ReceiveFlow.Queue.{IsOpen, packets, offer, offer_all, offer_all-take}
use roq.Session.{Session}
use roq.Session.Incoming.{handle_parsed, handle_datagram, then_handle, handle_datagrams}
use roq.Session.Shutdown.{Transport, close}
use roq.Session.Flows.{IsValid}
use roq.Session.Demux.Alone.{Alone}
use roq.Session.Demux.ByFlow.{
  for_flow, accept_if, accept_if-Keeps, accept_if-packets, Has, with_flow_id, close_keeps,
  close-Ended, Ended-stays,
}

offer_if-all :
    (own : Bool) (cap : ℕ) (qs rest : List Bytes) (p : Bytes)
    → offer_all cap (if own then offer cap qs p else qs) rest
      ≡ offer_all cap qs (if own then p ∷ rest else rest)
offer_if-all true cap qs rest p = refl
offer_if-all false cap qs rest p = refl

module _ (q : Quicvarint) (t : Transport) (id r : ℕ) where
  -- The session is open, and the flow takes packets.
  record Takes (s : Session) : Type 0 where
    pub has : Has q t id r s
    pub is_open : IsOpen (s.receive_heap.obj r)
    pub alive : s.closed_err ≡ none

  -- The queue afterwards.
  abbrev Queued : Session → List Bytes → Option Session → Type 0
  Queued s ps o =
      let f = s.receive_heap.obj r in
      (s' : Session) × (o ≡ some s')
      × (packets (s'.receive_heap.obj r) ≡ offer_all f.buffer.cap (packets f) ps)

  no_flow_id-Queued :
      (choice : Session → ℕ) (d : Bytes) (ds : List Bytes) (s : Session)
      → q.parse d ≡ none
      → Takes s
      → Queued s [] (handle_datagrams q t choice (d ∷ ds) s)
  unfolding handle_datagrams handle_datagram
  no_flow_id-Queued choice d ds s bad h =
      let ended = close-Ended q t id r s "invalid flow ID" h.has h.alive in
      let (s', done, same) =
        Ended-stays q t id r choice ds (close t s err_roq_packet_error "invalid flow ID") ended in
      (
        s',
        ap (then_handle (handle_datagrams q t choice ds))
              (ap (handle_parsed q t (choice s) s d) bad)
            ∙ done,
        same ∙ (close_keeps q t id r s "invalid flow ID" h.alive).1,
      )

  sorted :
      (choice : Session → ℕ) (ds : List Bytes) (s : Session)
      → Takes s
      → Queued s (for_flow q id ds) (handle_datagrams q t choice ds s)
  unfolding handle_datagrams for_flow
  sorted choice [] s h = (s, refl, refl)
  sorted choice (d ∷ ds) s h = elim (Option-cases (q.parse d)) [
    | inl bad ↦ rw bad (no_flow_id-Queued choice d ds s bad h)
    | inr ((k, n), parsed) ↦
        let f = s.receive_heap.obj r in
        let p = drop (q.len k) d in
        let keeps = accept_if-Keeps (k == id) (choice s) f p in
        let (s1, handled, has, err, flow) = with_flow_id q t id r (choice s) s d k n parsed h.has in
        let (s', done, queued) = sorted choice ds s1 (record {
          has = has;
          is_open = record {
            not_closed =
                ap (λ (g : ReceiveFlow). g.closed) flow ∙ keeps.same_closed ∙ h.is_open.not_closed;
            chan_open =
                ap (λ (g : ReceiveFlow). g.buffer.is_closed) flow
                ∙ keeps.same_chan_state
                ∙ h.is_open.chan_open;
          };
          alive = err ∙ h.alive;
        }) in
        rw parsed (
          s',
          ap (then_handle (handle_datagrams q t choice ds)) handled ∙ done,
          queued
              ∙ ap (λ (g : ReceiveFlow). offer_all g.buffer.cap (packets g) (for_flow q id ds)) flow
              ∙ ap
                  (λ c.
                    offer_all c (packets (accept_if (k == id) (choice s) f p)) (for_flow q id ds))
                  keeps.same_cap
              ∙ ap (λ qs. offer_all f.buffer.cap qs (for_flow q id ds))
                  (accept_if-packets (k == id) (choice s) f p h.is_open)
              ∙ offer_if-all (k == id) f.buffer.cap (packets f) (for_flow q id ds) p,
        )
  ]

  -- On a valid and open session, for a flow that is registered under one ID, is nowhere else, is open and
  -- within its capacity: handling any sequence of datagrams, of this flow, of others, of flows that the
  -- session does not know, or without a flow ID, returns, and the flow's queue then holds what it held
  -- before and then, in order and as far as it has room, what just the datagrams with its
  -- ID have behind the `Len` of the ID, up to the first datagram without a flow ID, which closes the session.
  pub datagrams_by_flow :
      (choice : Session → ℕ) (ds : List Bytes) (s : Session)
      → IsValid s
      → Alone id r s
      → s.closed_err ≡ none
      → IsOpen (s.receive_heap.obj r)
      → length (packets (s.receive_heap.obj r)) ≤ (s.receive_heap.obj r).buffer.cap
      → let f = s.receive_heap.obj r in
        (s' : Session) × (handle_datagrams q t choice ds s ≡ some s')
        × (packets (s'.receive_heap.obj r) ≡ take f.buffer.cap (packets f ++ for_flow q id ds))
  datagrams_by_flow choice ds s v a alive o room =
      let f = s.receive_heap.obj r in
      let (s', done, queued) =
        sorted choice ds s
          (record { has = record { valid = v; alone = a }; is_open = o; alive = alive }) in
      (s', done, queued ∙ offer_all-take f.buffer.cap (packets f) (for_flow q id ds) room)
