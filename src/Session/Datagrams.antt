-- ===== src/Session/Datagrams.antt =====
-- `HandleDatagram` of session.go: where a datagram's packet ends up.
use roq.Common.{
  ℕ, ◌-◌, ◌<◌, ◌≡◌, inl, inr, refl, sym, ap, ◌∙◌, Option, none, some, [], ◌∷◌, ◌++◌, arith,
  Option-cases, ==_refl, length, drop, length-drop, drop-append_length,
}
use roq.Common.Heap.{store}
use roq.Errors.{Error, SessionError, err_roq_packet_error}
use roq.Qlog.{datagram_packet_parsed}
use roq.Qlogger.{Qlogger, raw_data, recorded}
use roq.Quicvarint.{Bytes, Quicvarint, IsQuicvarint, varint_limit}
use roq.ReceiveFlow.Queue.{IsOpen, packets, offer, accept, accept-packets}
use roq.SendFlow
use roq.SendFlow.{new_flow}
use roq.SyncMap.{get}
use roq.Session.{Session}
use roq.Session.Incoming.{receive_flow, push_packet, handle_parsed, handle_datagram}
use roq.Session.Shutdown.{Transport, close}
use roq.Session.Flows.{IsValid, same_IsValid, receive_flow_known, receive_flow-IsValid}
use roq.Session.Closing.{close_first, close-IsValid}

-- The session with the event of a datagram, whose flow ID took `n` bytes.
abbrev pub logged : Session → Bytes → ℕ → ℕ → Session
logged s d id n = record s {
  events =
      s.events
      ++ recorded s.qlog (λ l. datagram_packet_parsed (record {
        flow_id = id;
        packet_length = length d;
        raw = record {
          length_on_wire = length d;
          payload_length = length d - n;
          raw_data = raw_data l d;
        };
      }));
}

-- A packet taken by the flow at an address.
abbrev pub taken : ℕ → ℕ → Bytes → Session → Session
taken choice r p s = record s {
  receive_heap = store r (accept choice (s.receive_heap.obj r) p) s.receive_heap;
}

pub handle_datagram-taken :
    (q : Quicvarint) (t : Transport) (choice : ℕ) (s s1 : Session) (d : Bytes) (id n r : ℕ)
    → q.parse d ≡ some (id, n)
    → receive_flow (logged s d id n) id ≡ some (s1, r)
    → handle_datagram q t choice s d ≡ some (taken choice r (drop (q.len id) d) s1)
unfolding handle_datagram push_packet
handle_datagram-taken q t choice s s1 d id n r parsed served =
    ap (handle_parsed q t choice s d) parsed ∙ ap (push_packet choice (drop (q.len id) d)) served

pub taken-packets :
    (choice r : ℕ) (p : Bytes) (s : Session)
    → IsOpen (s.receive_heap.obj r)
    → let f = s.receive_heap.obj r in
      packets ((taken choice r p s).receive_heap.obj r) ≡ offer f.buffer.cap (packets f) p
taken-packets choice r p s o = rw (==_refl r) (accept-packets choice (s.receive_heap.obj r) p o)

pub handle_sent :
    (q : Quicvarint) (qv : IsQuicvarint q) (t : Transport) (choice : ℕ) (s s1 : Session) (id r : ℕ)
    (p : Bytes)
    → id < varint_limit
    → receive_flow (logged s (q.append [] id ++ p) id (q.len id)) id ≡ some (s1, r)
    → handle_datagram q t choice s (q.append [] id ++ p) ≡ some (taken choice r p s1)
handle_sent q qv t choice s s1 id r p small served =
    handle_datagram-taken q t choice s s1 (q.append [] id ++ p) id (q.len id) r
      (qv.parse-append id p small) served
    ∙ ap (λ x. some (taken choice r x s1))
        (ap (λ n. drop n (q.append [] id ++ p)) (sym (qv.length-append id small))
          ∙ drop-append_length (q.append [] id) p)

-- The datagram that `WriteRTPBytes` of a new send flow sends, with a flow ID below 2^62, is taken by
-- the open receive flow that is registered under the same ID at the other end: the packet, without the
-- flow ID, stands last in its queue, if the queue has room.
pub handle_datagram-write_rtp_bytes :
    (q : Quicvarint) (qv : IsQuicvarint q) (send : Bytes → Option Error) (log : Option Qlogger)
    (t : Transport) (choice : ℕ) (s : Session) (id r : ℕ) (p : Bytes)
    → id < varint_limit
    → get s.receive_flows id ≡ some r
    → IsOpen (s.receive_heap.obj r)
    → let f = s.receive_heap.obj r in
      (d : Bytes) × (s' : Session) × ((SendFlow.write_rtp_bytes send (new_flow q id log) p).sent
        ≡ some d)
      × (handle_datagram q t choice s d ≡ some s')
      × (packets (s'.receive_heap.obj r) ≡ offer f.buffer.cap (packets f) p)
unfolding SendFlow.write_rtp_bytes new_flow
handle_datagram-write_rtp_bytes q qv send log t choice s id r p small known o =
    let s1 = logged s (q.append [] id ++ p) id (q.len id) in
    (
      q.append [] id ++ p,
      taken choice r p s1,
      refl,
      handle_sent q qv t choice s s1 id r p small (receive_flow_known s1 id r known),
      taken-packets choice r p s1 o,
    )

-- A flow ID that was encoded in more bytes than it needs, for an open flow that is registered:
-- `HandleDatagram` counts the bytes that `Len` gives, not the `n` that `Parse` took, and offers the
-- queue a packet that is longer than the payload.
pub long_flow_id_leaks :
    (q : Quicvarint) (qv : IsQuicvarint q) (t : Transport) (choice : ℕ) (s : Session) (d : Bytes)
    (id n r : ℕ)
    → q.parse d ≡ some (id, n)
    → q.len id < n
    → get s.receive_flows id ≡ some r
    → IsOpen (s.receive_heap.obj r)
    → let f = s.receive_heap.obj r in
      (s' : Session) × (queued : Bytes) × (handle_datagram q t choice s d ≡ some s')
      × (packets (s'.receive_heap.obj r) ≡ offer f.buffer.cap (packets f) queued)
      × (length d - n < length queued)
long_flow_id_leaks q qv t choice s d id n r parsed long known o =
    let s1 = logged s d id n in
    (
      taken choice r (drop (q.len id) d) s1,
      drop (q.len id) d,
      handle_datagram-taken q t choice s s1 d id n r parsed (receive_flow_known s1 id r known),
      taken-packets choice r (drop (q.len id) d) s1 o,
      omega (arith, length-drop (q.len id) d, qv.parse_bounds d id n parsed),
    )

-- A datagram without a flow ID closes an open session, with `ErrRoQPacketError` and the reason
-- `invalid flow ID`, of which the peer is told once.
pub bad_datagram_closes :
    (q : Quicvarint) (t : Transport) (choice : ℕ) (s : Session) (d : Bytes)
    → q.parse d ≡ none
    → s.closed_err ≡ none
    → let e : SessionError = record { code = err_roq_packet_error; reason = "invalid flow ID" } in
      (s' : Session) × (handle_datagram q t choice s d ≡ some s')
      × (s'.closed_err ≡ some e)
      × (s'.conn_closes ≡ s.conn_closes ++ (e ∷ []))
unfolding handle_datagram
bad_datagram_closes q t choice s d bad alive =
    let (err, done, told, rest) = close_first t s err_roq_packet_error "invalid flow ID" alive in
    (
      close t s err_roq_packet_error "invalid flow ID",
      ap (handle_parsed q t choice s d) bad,
      err,
      told,
    )

-- On a valid session `HandleDatagram` returns, whatever the datagram is, and leaves a valid session.
pub handle_datagram-IsValid :
    (q : Quicvarint) (t : Transport) (choice : ℕ) (s : Session) (d : Bytes)
    → IsValid s
    → (s' : Session) × (handle_datagram q t choice s d ≡ some s') × IsValid s'
unfolding handle_datagram
handle_datagram-IsValid q t choice s d v = elim (Option-cases (q.parse d)) [
  | inl bad ↦ (
    close t s err_roq_packet_error "invalid flow ID",
    ap (handle_parsed q t choice s d) bad,
    close-IsValid t s err_roq_packet_error "invalid flow ID" v,
  )
  | inr ((id, n), parsed) ↦
      let s0 = logged s d id n in
      let (s1, r, served, w, _, _) = receive_flow-IsValid s0 id (same_IsValid s s0 refl refl v) in
      (
        taken choice r (drop (q.len id) d) s1,
        handle_datagram-taken q t choice s s1 d id n r parsed served,
        same_IsValid s1 (taken choice r (drop (q.len id) d) s1) refl refl w,
      )
]
