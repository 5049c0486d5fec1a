-- ===== src/QuicConnection.antt =====
-- quic_connection.go: quic-go's connection and streams as the interfaces of session.go.
-- quic-go is a parameter: its streams have a state, and its connection answers each call.
pub mod Laws
use Prim.Native.String.{String}
use roq.Common.{ℕ, Bool, false, Option, none, some}
use roq.Errors.{Error}
use roq.Quicvarint.{Bytes}
use roq.RtpSendStream.{SendStream}
use roq.SendFlow.{OpenedStream, OpenResult, opened, open_failed}

-- `quic.SendStream`: the error code of `CancelWrite` is a 64-bit number there too.
pub record QuicSendStream (S : Type 0) : Type 0 where
  pub stream_id : S → ℕ
  pub write : S → Bytes → S × ℕ × Option Error
  pub close : S → S × Option Error
  pub cancel_write : S → ℕ → S

-- `QUICGoSendStream`, method by method.
abbrev pub quic_go_send_stream : {S : Type 0} → QuicSendStream S → SendStream S
quic_go_send_stream u = record {
  write = λ s b. u.write s b;
  close = λ s. u.close s;
  cancel_write = λ s c. u.cancel_write s c;
  id = λ s. u.stream_id s;
}

-- What quic-go's `OpenUniStreamSync` returns: a new stream's address and ID, or an error.
pub data QuicOpened : Type 0 where
  quic_stream : ℕ → ℕ → QuicOpened
  quic_error : Error → QuicOpened

-- `QUICGoConnection.OpenUniStreamSync`: a `QUICGoSendStream` is no `PrioritySendStream`.
abbrev pub open_uni_stream_sync : QuicOpened → OpenResult
open_uni_stream_sync (quic_error e) = open_failed e
open_uni_stream_sync (quic_stream address id) =
    opened (record { address = address; stream_id = id; takes_priority = false })

-- `quic.ReceiveStream`: `Read` into a buffer of the given length returns the bytes it wrote, and an error
-- or nil.
pub record QuicReceiveStream (S : Type 0) : Type 0 where
  pub stream_id : S → ℕ
  pub cancel_read : S → ℕ → S
  pub read : S → ℕ → S × Bytes × Option Error

-- `ReceiveStream` of session.go.
pub record ReceiveStream (S : Type 0) : Type 0 where
  pub read : S → ℕ → S × Bytes × Option Error
  pub id : S → ℕ
  pub cancel_read : S → ℕ → S

-- `QUICGoReceiveStream`, method by method.
abbrev pub quic_go_receive_stream : {S : Type 0} → QuicReceiveStream S → ReceiveStream S
quic_go_receive_stream u = record {
  read = λ s size. u.read s size;
  id = λ s. u.stream_id s;
  cancel_read = λ s c. u.cancel_read s c;
}

-- A stream of the other end and what it is called through, or the error of `AcceptUniStream`.
pub data Accepted (I S : Type 0) : Type 0 where
  accepted : I → S → Accepted I S
  accept_failed : Error → Accepted I S

-- What `ReceiveDatagram` returns.
pub data Datagram : Type 0 where
  datagram : Bytes → Datagram
  no_datagram : Error → Datagram

-- `quic.Conn`. A trace is nil where qlog is not enabled.
pub record QuicConn (N S T : Type 0) : Type 0 where
  pub send_datagram : N → Bytes → N × Option Error
  pub receive_datagram : N → N × Datagram
  pub open_uni_stream_sync : N → N × QuicOpened
  pub accept_uni_stream : N → N × Accepted (QuicReceiveStream S) S
  pub qlog_trace : N → Option T
  pub close_with_error : N → ℕ → String → N × Option Error

-- `Connection` and `QlogConnection` of session.go.
pub record Connection (N S T : Type 0) : Type 0 where
  pub send_datagram : N → Bytes → N × Option Error
  pub receive_datagram : N → N × Datagram
  pub open_uni_stream_sync : N → N × OpenResult
  pub accept_uni_stream : N → N × Accepted (ReceiveStream S) S
  pub qlog_trace : N → Option T
  pub close_with_error : N → ℕ → String → N × Option Error

-- `QUICGoConnection.AcceptUniStream`
abbrev pub accept_uni_stream :
    {S : Type 0} → Accepted (QuicReceiveStream S) S → Accepted (ReceiveStream S) S
accept_uni_stream (accept_failed e) = accept_failed e
accept_uni_stream (accepted u s) = accepted (quic_go_receive_stream u) s

-- `QUICGoConnection`, method by method.
abbrev pub quic_go_connection : {N S T : Type 0} → QuicConn N S T → Connection N S T
quic_go_connection u = record {
  send_datagram = λ c payload. u.send_datagram c payload;
  receive_datagram = λ c. u.receive_datagram c;
  open_uni_stream_sync =
      λ c. (let (c', answer) = u.open_uni_stream_sync c in (c', open_uni_stream_sync answer));
  accept_uni_stream =
      λ c. (let (c', answer) = u.accept_uni_stream c in (c', accept_uni_stream answer));
  qlog_trace = λ c. u.qlog_trace c;
  close_with_error = λ c code reason. u.close_with_error c code reason;
}
