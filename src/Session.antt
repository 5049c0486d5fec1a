-- ===== src/Session.antt =====
-- session.go: the flows of one QUIC connection, and where its datagrams and streams go.
-- The state has the session's fields, the heaps of the flows that it points to, and a record of what the
-- code did to the outside: the cancelled receive streams, the closed send streams, the recorded events
-- and the calls of the connection's `CloseWithError`. `close_qlog_once` says that `closeQlogOnce` was done,
-- and `producer_closes` counts the closes of the qlog producer.
pub mod Shutdown
pub mod Incoming
pub mod Flows
pub mod Datagrams
pub mod EarlyPackets
pub mod Streams
pub mod Closing
pub mod CloseEffect
pub mod FlowIds
pub mod Creation
pub mod Life
pub mod Loops
pub mod AfterClose
pub mod Sample
pub mod Race
pub mod Demux
mod Tests
use roq.Common.{
  ℕ, ◌+◌, Bool, true, false, Option, none, some, List, [], ◌∷◌, ◌++◌, length, drop, ◌-◌,
  if◌then◌else◌,
}
use roq.Common.Int.{pos_part}
use roq.Common.Heap.{Heap, alloc, store}
use roq.Errors.{
  nil_connection, Error, SessionError, session_error, duplicate_flow_id, err_roq_packet_error,
  err_roq_no_error,
}
use roq.Quicvarint.{Bytes, Quicvarint}
use roq.Qlog.{Event, datagram_packet_parsed, stream_opened}
use roq.Qlogger.{Qlogger, raw_data, recorded}
use roq.Options.{
  SessionConfig, SessionOption, Configured, applied, Trace, new_session_config, new_qlogger,
}
use roq.SyncMap.{SyncMap, new_sync_map, get_or_insert, set, get, delete_key, range_fn}
use roq.ReceiveFlow.{ReceiveFlow, Cancel, new_receive_flow}
use roq.ReceiveFlow
use roq.ReceiveFlowBuffer.{ReceiveFlowBuffer, new_receive_flow_buffer, get_or_create, pop}
use roq.SendFlow.{SendFlow, new_flow}
use roq.SendFlow

pub record Session : Type 0 where
  pub receive_buffer_size : ℕ
  pub accept_datagrams : Bool
  pub send_flows : SyncMap ℕ
  pub receive_flows : SyncMap ℕ
  pub flow_buffer : ReceiveFlowBuffer
  pub closed_err : Option SessionError
  pub conn_close_err : Option Error
  pub ctx_done : Bool
  pub qlog : Option Qlogger
  pub receive_heap : Heap ReceiveFlow
  pub send_heap : Heap SendFlow
  pub cancelled : List Cancel
  pub closed_streams : List ℕ
  pub events : List Event
  pub conn_closes : List SessionError
  pub close_qlog_once : Bool
  pub producer_closes : ℕ

-- The heaps are those of the program before the session is made; the configuration's sizes are positive.
unfoldable pub new_session :
    SessionConfig → Bool → Option Qlogger → Heap ReceiveFlow → Heap SendFlow → Session
new_session config accept_datagrams log receive_heap send_heap = record {
  receive_buffer_size = pos_part config.receive_buffer_size;
  accept_datagrams = accept_datagrams;
  send_flows = new_sync_map;
  receive_flows = new_sync_map;
  flow_buffer = new_receive_flow_buffer (pos_part config.unknown_flow_buffer_size);
  closed_err = none;
  conn_close_err = none;
  ctx_done = false;
  qlog = log;
  receive_heap = receive_heap;
  send_heap = send_heap;
  cancelled = [];
  closed_streams = [];
  events = [];
  conn_closes = [];
  close_qlog_once = false;
  producer_closes = 0;
}

-- A connection: what its `QlogTrace` returns, or nothing if it is no `QlogConnection`.
abbrev pub Connection : Type 0
Connection = Option (Option Trace)

pub data SessionResult : Type 0 where
  made : Session → SessionResult
  not_made : Error → SessionResult

abbrev pub configured_session :
    Connection → Bool → Heap ReceiveFlow → Heap SendFlow → Configured → SessionResult
configured_session conn accept_datagrams rh sh (Configured.refused e) = not_made e
configured_session conn accept_datagrams rh sh (applied config) =
    made (new_session config accept_datagrams (new_qlogger conn config) rh sh)

-- `NewSessionWithAppHandledConn`, and `NewSession` up to the start of its loops; `conn` may be nil.
abbrev pub create_session :
    Option Connection
    → Bool
    → List (Option SessionOption)
    → Heap ReceiveFlow
    → Heap SendFlow
    → SessionResult
create_session none accept_datagrams opts rh sh = not_made nil_connection
create_session (some conn) accept_datagrams opts rh sh =
    configured_session conn accept_datagrams rh sh (new_session_config opts)

-- The address of a flow, or an error.
pub data FlowResult : Type 0 where
  flow : ℕ → FlowResult
  refused : Error → FlowResult

-- A closed session answers with the error that it was closed with.
abbrev pub or_refuse : Session → Option SessionError → Session × FlowResult → Session × FlowResult
or_refuse s (some e) rest = (s, refused (session_error e))
or_refuse s none rest = rest

abbrev pub unless_known : Session → Option ℕ → Session × FlowResult → Session × FlowResult
unless_known s (some r) rest = (s, refused duplicate_flow_id)
unless_known s none rest = rest

-- What `getOrInsert` answered, for the flow that was allocated at the address.
abbrev pub inserted_or_refused : Session → ℕ → SyncMap ℕ × ℕ × Bool → Session × FlowResult
inserted_or_refused s address (m, held, inserted) =
    if inserted then (record s { send_flows = m }, flow address) else (s, refused duplicate_flow_id)

unfoldable pub new_send_flow_open : Quicvarint → Session → ℕ → Session × FlowResult
new_send_flow_open q s id =
    let address = s.send_heap.next in
    inserted_or_refused (record s { send_heap = alloc (new_flow q id s.qlog) s.send_heap }) address
      (get_or_insert s.send_flows id address)

-- `NewSendFlow`
unfoldable pub new_send_flow : Quicvarint → Session → ℕ → Session × FlowResult
unfolding new_send_flow_open
new_send_flow q s id = or_refuse s s.closed_err (new_send_flow_open q s id)

-- The flow that the application is given: the one that was buffered, or a new one.
unfoldable pub adopt : Session → ℕ → Option ℕ → Session × FlowResult
adopt s id (some r) = (record s { receive_flows = set s.receive_flows id r }, flow r)
adopt s id none =
    let r = s.receive_heap.next in
    (
      record s {
        receive_heap = alloc (new_receive_flow id s.receive_buffer_size s.qlog) s.receive_heap;
        receive_flows = set s.receive_flows id r;
      },
      flow r,
    )

unfoldable pub new_receive_flow_open : Session → ℕ → Session × FlowResult
unfolding adopt
new_receive_flow_open s id =
    unless_known s (get s.receive_flows id)
      (let (b, popped) = pop s.flow_buffer id in adopt (record s { flow_buffer = b }) id popped)

-- `NewReceiveFlow`
unfoldable pub new_receive_flow_of : Session → ℕ → Session × FlowResult
unfolding new_receive_flow_open
new_receive_flow_of s id = or_refuse s s.closed_err (new_receive_flow_open s id)
