-- ===== src/RtpSendStream.antt =====
-- rtp_send_stream.go: a QUIC stream that carries the packets of one flow, each behind its length, the
-- flow ID once ahead of them.
-- The QUIC stream is the interface `SendStream` of session.go, over a state `S` of its own.
pub mod Wire
pub mod Run
pub mod Pipe
mod Tests
use roq.Common.{
  ℕ, ◌-◌, ◌+◌, ◌≤◌, ◌≡◌, Bool, true, false, Option, none, some, List, [], ◌∷◌, ◌++◌, length, take,
  drop, min, ltb, if◌then◌else◌,
}
use roq.Errors.{Error, short_write}
use roq.Quicvarint.{Bytes, Quicvarint}
use roq.Qlog.{Event, stream_packet_created}
use roq.Qlogger.{Qlogger, raw_data, recorded}

-- `Write` returns how many bytes it accepted, and an error or nil.
pub record SendStream (S : Type 0) : Type 0 where
  pub write : S → Bytes → S × ℕ × Option Error
  pub close : S → S × Option Error
  pub cancel_write : S → ℕ → S
  pub id : S → ℕ

-- What io.Writer promises of `Write`, for the bytes `delivered` that the stream has accepted so far: it
-- accepts a front of what it is given.
pub record IsSendStream {S : Type 0} (i : SendStream S) (delivered : S → Bytes) : Type 0 where
  pub accepts : (s : S) (b : Bytes) → (i.write s b).1 ≤ length b
  pub delivers :
      (s : S) (b : Bytes) → delivered (i.write s b).0 ≡ delivered s ++ take (i.write s b).1 b

pub record RtpSendStream (S : Type 0) : Type 0 where
  pub stream : S
  pub flow_id : ℕ
  pub flow_id_bytes : Bytes
  pub qlog : Option Qlogger
  pub sent_flow_id : Bool
  pub buffer : Bytes
  pub pending : Bytes

-- What a call of `WriteRTPBytes` leaves: the stream, the count and the error that it returns, and the
-- events that it recorded.
pub record Written (S : Type 0) : Type 0 where
  pub self : RtpSendStream S
  pub count : ℕ
  pub err : Option Error
  pub events : List Event

unfoldable pub new_rtp_send_stream : {S : Type 0} → S → ℕ → Bytes → Option Qlogger → RtpSendStream S
new_rtp_send_stream stream flow_id flow_id_bytes qlog = record {
  stream = stream;
  flow_id = flow_id;
  flow_id_bytes = flow_id_bytes;
  qlog = qlog;
  sent_flow_id = false;
  buffer = [];
  pending = [];
}

-- The error of a write that left bytes over, where `Write` itself reported none.
abbrev pub or_short_write : Option Error → Option Error
or_short_write none = some short_write
or_short_write (some x) = some x

module _ {S : Type 0} (i : SendStream S) where
  unfoldable pub flush : RtpSendStream S → RtpSendStream S × Option Error
  flush s =
      let (st, n, e) = i.write s.stream s.pending in
      let rest = drop n s.pending in
      (
        record s { stream = st; pending = rest },
        if ltb 0 (length rest) then or_short_write e else e,
      )

  unfoldable pub cancel_stream : RtpSendStream S → ℕ → RtpSendStream S
  cancel_stream s error_code = record s { stream = i.cancel_write s.stream error_code }

  unfoldable pub close : RtpSendStream S → RtpSendStream S × Option Error
  close s = let (st, e) = i.close s.stream in (record s { stream = st }, e)

module _ {S : Type 0} (q : Quicvarint) (i : SendStream S) where
  -- `WriteRTPBytes` from where nothing is pending any more.
  unfoldable pub write_frame : RtpSendStream S → Bytes → Written S
  write_frame s packet =
      let head = if s.sent_flow_id then [] else s.flow_id_bytes in
      let header = q.append head (length packet) in
      let buffer = header ++ packet in
      let (st, n, e) = i.write s.stream buffer in
      let short = ltb n (length buffer) in
      let framed = drop (length head) buffer in
      record {
        self = record s {
          stream = st;
          sent_flow_id = true;
          buffer = buffer;
          pending = if short then drop n buffer else s.pending;
        };
        count = min (n - length header) (length packet);
        err = if short then or_short_write e else e;
        events = recorded s.qlog (λ l. stream_packet_created (i.id st) (record {
          flow_id = s.flow_id;
          packet_length = length buffer - length head;
          raw = record {
            length_on_wire = length buffer - length head;
            payload_length = length packet;
            raw_data = raw_data l framed;
          };
        }));
      }

  unfoldable pub write_rtp_bytes : RtpSendStream S → Bytes → Written S
  write_rtp_bytes s packet =
      if ltb 0 (length s.pending)
      then (let (s', e) = flush i s in
          elim e [
            | some x ↦ record { self = s'; count = 0; err = some x; events = [] }
            | none ↦ write_frame s' packet
          ])
      else write_frame s packet
