-- ===== src/Session/AfterClose.antt =====
-- `HandleDatagram` of session.go behind `Close`.
use mathlib.Core.Path.{subst}
use roq.Common.{
  ℕ, suc, ◌≡◌, refl, ap, ◌∙◌, false, Option, none, some, [], ◌∷◌, ◌++◌, ◌-◌, length, drop, arith,
  inl, inr, Option-cases,
}
use roq.Errors.{SessionError, err_roq_no_error}
use roq.Qlog.{Event, datagram_packet_parsed}
use roq.Qlogger.{Qlogger, raw_data, recorded}
use roq.Quicvarint.{Bytes, Quicvarint}
use roq.Session.{Session}
use roq.Session.Shutdown.{
  Transport, close_send_flow, close_receive_flow, shut_down, close, close_producer, close_session,
}
use roq.Session.Incoming.{receive_flow, handle_datagram}
use roq.Session.Flows.{IsValid, same_IsValid, receive_flow-IsValid}
use roq.Session.Datagrams.{logged, taken, handle_datagram-taken}
use roq.Session.Closing.{after_send_flows, loops_keep, close_alive, close_closed, close-IsValid}
use roq.Session.Life.{close_producer-IsValid}
use roq.Session.Loops.Quiet.{Quiet, close-Quiet, Leaves, receive_flow-Leaves}

close-qlog : (t : Transport) (s : Session) → (close t s err_roq_no_error "").qlog ≡ s.qlog
unfolding shut_down after_send_flows close_send_flow close_receive_flow
close-qlog t s = elim (Option-cases s.closed_err) [
  | inr (e, done) ↦ rw (close_closed t s err_roq_no_error "" e done) refl
  | inl alive ↦
      let e : SessionError = record { code = err_roq_no_error; reason = "" } in
      rw (close_alive t s err_roq_no_error "" alive)
        (loops_keep (λ st. st.qlog) t s e (λ st r. refl) (λ st r. refl))
]

close_producer_fresh :
    (l : Qlogger) (s : Session)
    → s.close_qlog_once ≡ false
    → (close_producer (some l) s).producer_closes ≡ suc s.producer_closes
unfolding close_producer
close_producer_fresh l s e = rw e (omega arith)

close_producer-qlog : (l : Option Qlogger) (s : Session) → (close_producer l s).qlog ≡ s.qlog
unfolding close_producer
close_producer-qlog none s = refl
close_producer-qlog (some l) s = ground arith

served_events :
    (s s' : Session) (id r : ℕ) → receive_flow s id ≡ some (s', r) → s'.events ≡ s.events
served_events s s' id r e = (subst (Leaves (Quiet s)) e (receive_flow-Leaves s id)).events

abbrev event_of : Bytes → ℕ → ℕ → Qlogger → Event
event_of d id n l = datagram_packet_parsed (record {
  flow_id = id;
  packet_length = length d;
  raw = record {
    length_on_wire = length d;
    payload_length = length d - n;
    raw_data = raw_data l d;
  };
})

-- A session with a qlog producer that is not closed yet: `Close` closes the producer, and does not keep
-- `HandleDatagram` from recording: a datagram with a flow ID that comes behind it still records an
-- event.
pub late_datagram_records :
    (q : Quicvarint) (t : Transport) (choice : ℕ) (s : Session) (l : Qlogger) (d : Bytes) (id n : ℕ)
    → IsValid s
    → s.qlog ≡ some l
    → s.close_qlog_once ≡ false
    → q.parse d ≡ some (id, n)
    → let s1 = (close_session t s).0 in
      (s' : Session) × (e : Event) × (s1.producer_closes ≡ suc s.producer_closes)
      × (handle_datagram q t choice s1 d ≡ some s')
      × (s'.events ≡ s1.events ++ (e ∷ []))
unfolding close_session
late_datagram_records q t choice s l d id n v log fresh parsed =
    let s0 = close t s err_roq_no_error "" in
    let kept = close-Quiet t s err_roq_no_error "" in
    let log0 = close-qlog t s ∙ log in
    let s1 = close_producer s0.qlog s0 in
    let v1 = close_producer-IsValid s0.qlog s0 (close-IsValid t s err_roq_no_error "" v) in
    let sl = logged s1 d id n in
    let (s2, r, served, _, _, _) = receive_flow-IsValid sl id (same_IsValid s1 sl refl refl v1) in
    (
      taken choice r (drop (q.len id) d) s2,
      event_of d id n l,
      ap (λ o. (close_producer o s0).producer_closes) log0
          ∙ close_producer_fresh l s0 (kept.same.once ∙ fresh)
          ∙ ap suc kept.same.closes,
      handle_datagram-taken q t choice s1 s2 d id n r parsed served,
      served_events sl s2 id r served
          ∙ ap (λ o. s1.events ++ recorded o (event_of d id n))
              (close_producer-qlog s0.qlog s0 ∙ log0),
    )
