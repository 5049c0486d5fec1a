-- ===== src/Session/Incoming.antt =====
-- What session.go does with a datagram and with a stream that the peer sent, and with a stream that the
-- application opens.
use roq.Common.{ℕ, ◌-◌, Bool, Option, none, some, List, [], ◌∷◌, ◌++◌, length, drop}
use roq.Common.Heap.{store}
use roq.Errors.{err_roq_packet_error}
use roq.Quicvarint.{Bytes, Quicvarint}
use roq.Qlog.{datagram_packet_parsed, stream_opened}
use roq.Qlogger.{raw_data, recorded}
use roq.SendFlow.{OpenResult, new_send_stream}
use roq.SyncMap.{get}
use roq.ReceiveFlow.{ReceiveFlow, PacketBuffer}
use roq.ReceiveFlow
use roq.ReceiveFlow.Frames.{ReceiveStream, StreamRead, read_stream}
use roq.ReceiveFlowBuffer.{Created, get_or_create}
use roq.Session.{Session}
use roq.Session.Shutdown.{Transport, close}

unfoldable pub buffered : Session → Option Created → Option (Session × ℕ)
buffered s none = none
buffered s (some c) = some (
  record s { flow_buffer = c.self; receive_heap = c.heap; cancelled = s.cancelled ++ c.cancelled },
  c.flow,
)

-- `receiveFlow`: the session's flow for an ID, or a buffered one; `none` is a panic.
unfoldable pub receive_flow : Session → ℕ → Option (Session × ℕ)
unfolding buffered
receive_flow s flow_id = elim (get s.receive_flows flow_id) [
  | some r ↦ some (s, r)
  | none ↦
      buffered s (get_or_create s.flow_buffer s.receive_heap flow_id s.receive_buffer_size s.qlog)
]

-- A buffer of the flow's pool is filled with the packet and pushed.
unfoldable pub push_packet : ℕ → Bytes → Option (Session × ℕ) → Option Session
push_packet choice packet none = none
push_packet choice packet (some (s, r)) =
    let (b, f) = ReceiveFlow.get choice (s.receive_heap.obj r) in
    some (record s {
      receive_heap = store r (ReceiveFlow.push f (record b { bytes = packet })) s.receive_heap;
    })

-- The rest of `HandleDatagram` by what `Parse` returned. The slice is in range: `Len` is the length of the
-- shortest encoding, which is no longer than what `Parse` took.
abbrev pub handle_parsed :
    Quicvarint → Transport → ℕ → Session → Bytes → Option (ℕ × ℕ) → Option Session
handle_parsed q t choice s datagram none = some (close t s err_roq_packet_error "invalid flow ID")
handle_parsed q t choice s datagram (some (flow_id, n)) =
    let logged = record s {
      events =
          s.events
          ++ recorded s.qlog (λ l. datagram_packet_parsed (record {
            flow_id = flow_id;
            packet_length = length datagram;
            raw = record {
              length_on_wire = length datagram;
              payload_length = length datagram - n;
              raw_data = raw_data l datagram;
            };
          }));
    } in
    push_packet choice (drop (q.len flow_id) datagram) (receive_flow logged flow_id)

-- `HandleDatagram`; `choice` is the pool's.
unfoldable pub handle_datagram : Quicvarint → Transport → ℕ → Session → Bytes → Option Session
handle_datagram q t choice s datagram = handle_parsed q t choice s datagram (q.parse datagram)

-- `HandleDatagram` of one datagram after the other, as `receiveDatagrams` calls it.
abbrev pub then_handle : (Session → Option Session) → Option Session → Option Session
then_handle more none = none
then_handle more (some s) = more s

unfoldable pub handle_datagrams :
    Quicvarint → Transport → (Session → ℕ) → List Bytes → Session → Option Session
handle_datagrams q t choice [] s = some s
handle_datagrams q t choice (d ∷ ds) s =
    then_handle (handle_datagrams q t choice ds) (handle_datagram q t (choice s) s d)

abbrev pub read_into : ℕ → Session → Option StreamRead → Option Session
read_into r s none = none
read_into r s (some read) = some (record s {
  receive_heap = store r read.flow s.receive_heap;
  events = s.events ++ read.events;
  cancelled = s.cancelled ++ read.cancelled;
})

abbrev pub read_stream_of :
    Quicvarint → (ReceiveFlow → ℕ) → ReceiveStream → Option (Session × ℕ) → Option Session
read_stream_of q pick rs none = none
read_stream_of q pick rs (some (s, r)) =
    read_into r s (read_stream q pick (s.receive_heap.obj r) rs)

-- `HandleUniStreamWithFlowID`, with nothing running in between.
unfoldable pub handle_uni_stream_with_flow_id :
    Quicvarint → (ReceiveFlow → ℕ) → Session → ℕ → ReceiveStream → Option Session
handle_uni_stream_with_flow_id q pick s flow_id rs =
    let logged = record s {
      events = s.events ++ recorded s.qlog (λ _. stream_opened flow_id rs.id);
    } in
    read_stream_of q pick rs (receive_flow logged flow_id)

-- `handleUniStream`, by what `Read` of the flow ID returned.
abbrev pub handle_read :
    Quicvarint → (ReceiveFlow → ℕ) → Session → ReceiveStream → Option (ℕ × Bytes) → Option Session
handle_read q pick s rs none =
    some (record s { cancelled = s.cancelled ++ ((rs.id, err_roq_packet_error) ∷ []) })
handle_read q pick s rs (some (flow_id, rest)) =
    handle_uni_stream_with_flow_id q pick s flow_id (record rs { content = rest })

unfoldable pub handle_uni_stream :
    Quicvarint → (ReceiveFlow → ℕ) → Session → ReceiveStream → Option Session
handle_uni_stream q pick s rs = handle_read q pick s rs (q.read rs.content)

-- `NewSendStream` of the send flow at an address.
abbrev pub opened_stream : Session → ℕ → OpenResult → ℕ → Bool → Session
opened_stream s r answer priority incremental =
    let (f, x) = new_send_stream (s.send_heap.obj r) answer priority incremental in
    record s { send_heap = store r f s.send_heap; events = s.events ++ x.events }
