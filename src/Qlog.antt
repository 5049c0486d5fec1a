-- ===== src/Qlog.antt =====
-- qlog/event.go and qlog/qlog.go: the RoQ events of a qlog trace.
pub mod Encode
mod Tests
use Prim.Native.String.{String}
use roq.Common.{ℕ, Bool, not, ◌||◌, ◌==◌, length}
use roq.Quicvarint.{Bytes}

abbrev pub event_schema : String
event_schema = "urn:ietf:params:qlog:events:roq-01"

-- `length_on_wire` is the field `Length`, `raw_data` the field `Data`; nil and the empty slice, which the code treats alike, are both `[]`.
pub record RawInfo : Type 0 where
  pub length_on_wire : ℕ
  pub payload_length : ℕ
  pub raw_data : Bytes

unfoldable pub has_values : RawInfo → Bool
has_values i =
    not (i.length_on_wire == 0) || not (i.payload_length == 0) || not (length i.raw_data == 0)

pub record Packet : Type 0 where
  pub flow_id : ℕ
  pub packet_length : ℕ
  pub raw : RawInfo

pub data Event : Type 0 where
  stream_opened : ℕ → ℕ → Event
  stream_packet_created : ℕ → Packet → Event
  stream_packet_parsed : ℕ → Packet → Event
  datagram_packet_created : Packet → Event
  datagram_packet_parsed : Packet → Event

unfoldable pub name : Event → String
name (stream_opened f s) = "roq:stream_opened"
name (stream_packet_created s p) = "roq:stream_packet_created"
name (stream_packet_parsed s p) = "roq:stream_packet_parsed"
name (datagram_packet_created p) = "roq:datagram_packet_created"
name (datagram_packet_parsed p) = "roq:datagram_packet_parsed"
