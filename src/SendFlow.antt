-- ===== src/SendFlow.antt =====
-- send_flow.go: the sending side of a flow, by datagrams and by streams. A stream is an address; what
-- its methods do is in RtpSendStream.
pub mod Laws
mod Tests
use roq.Common.{
  ℕ, ◌+◌, Bool, true, false, Option, none, some, List, [], ◌∷◌, ◌++◌, length, if◌then◌else◌,
}
use roq.Errors.{Error, closed}
use roq.Quicvarint.{Bytes, Quicvarint}
use roq.Qlog.{Event, datagram_packet_created, stream_opened}
use roq.Qlogger.{Qlogger, raw_data, recorded}

pub record SendFlow : Type 0 where
  pub id : ℕ
  pub flow_id : Bytes
  pub streams : List ℕ
  pub closed_err : Option Error
  pub qlog : Option Qlogger

unfoldable pub new_flow : Quicvarint → ℕ → Option Qlogger → SendFlow
new_flow q id log = record {
  id = id;
  flow_id = q.append [] id;
  streams = [];
  closed_err = none;
  qlog = log;
}

-- What a call of `WriteRTPBytes` does: the datagram that it sends, if any, the error that it returns and
-- the events that it records.
pub record Datagram : Type 0 where
  pub sent : Option Bytes
  pub err : Option Error
  pub events : List Event

-- The rest of `WriteRTPBytes` by the answer of `isClosed`.
abbrev pub send_packet : (Bytes → Option Error) → SendFlow → Bytes → Option Error → Datagram
send_packet send f packet (some e) = record { sent = none; err = some e; events = [] }
send_packet send f packet none =
    let buf = f.flow_id ++ packet in
    record {
      sent = some buf;
      err = send buf;
      events = recorded f.qlog (λ l. datagram_packet_created (record {
        flow_id = f.id;
        packet_length = length buf;
        raw = record {
          length_on_wire = length buf;
          payload_length = length packet;
          raw_data = raw_data l buf;
        };
      }));
    }

-- `send` is `SendDatagram` of the connection.
unfoldable pub write_rtp_bytes : (Bytes → Option Error) → SendFlow → Bytes → Datagram
write_rtp_bytes send f packet = send_packet send f packet f.closed_err

-- A stream that the connection opened: its address and ID, and whether it takes a priority.
pub record OpenedStream : Type 0 where
  pub address : ℕ
  pub stream_id : ℕ
  pub takes_priority : Bool

pub data OpenResult : Type 0 where
  opened : OpenedStream → OpenResult
  open_failed : Error → OpenResult

-- The stream or the error that `NewSendStream` returns, the priority that it set, and the events.
pub record NewStream : Type 0 where
  pub stream : OpenResult
  pub priority : Option (ℕ × Bool)
  pub events : List Event

-- The rest of that first part by the flow's error.
abbrev pub open_stream : SendFlow → OpenResult → ℕ → Bool → Option Error → NewStream
open_stream f answer priority incremental (some e) = record {
  stream = open_failed e;
  priority = none;
  events = [];
}
open_stream f (open_failed e) priority incremental none = record {
  stream = open_failed e;
  priority = none;
  events = [];
}
open_stream f (opened s) priority incremental none = record {
  stream = opened s;
  priority = if s.takes_priority then some (priority, incremental) else none;
  events = recorded f.qlog (λ _. stream_opened f.id s.stream_id);
}

-- `NewSendStream` up to its second critical section: the test for a closed flow, then the connection's
-- answer.
unfoldable pub open_send_stream : SendFlow → OpenResult → ℕ → Bool → NewStream
open_send_stream f answer priority incremental =
    open_stream f answer priority incremental f.closed_err

-- Its second critical section.
abbrev pub add_stream : SendFlow → ℕ → SendFlow
add_stream f s = record f { streams = f.streams ++ (s ∷ []) }

abbrev pub keep_stream : SendFlow → NewStream → OpenResult → SendFlow × NewStream
keep_stream f r (open_failed e) = (f, r)
keep_stream f r (opened s) = (add_stream f s.address, r)

-- `NewSendStream` with nothing running in between.
unfoldable pub new_send_stream : SendFlow → OpenResult → ℕ → Bool → SendFlow × NewStream
unfolding open_send_stream
new_send_stream f answer priority incremental =
    let r = open_send_stream f answer priority incremental in keep_stream f r r.stream

-- The errors that closing the streams returned; `errors.Join` of them is nil if there are none.
close_errors : (ℕ → Option Error) → List ℕ → List Error
close_errors close_stream [] = []
close_errors close_stream (s ∷ ss) =
    let rest = close_errors close_stream ss in
    elim (close_stream s) [ none ↦ rest | some e ↦ e ∷ rest ]

-- `Close` but for `onClose`, which the session gave the flow: every stream is closed, in order.
pub record ClosedFlow : Type 0 where
  pub self : SendFlow
  pub closed_streams : List ℕ
  pub errs : List Error

unfoldable pub close : (ℕ → Option Error) → SendFlow → ClosedFlow
unfolding close_errors
close close_stream f = record {
  self = record f { closed_err = some closed };
  closed_streams = f.streams;
  errs = close_errors close_stream f.streams;
}
