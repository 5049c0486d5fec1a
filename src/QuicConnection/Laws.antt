-- ===== src/QuicConnection/Laws.antt =====
-- quic_connection.go behind the streams of send_flow.go and rtp_send_stream.go.
use roq.Common.{ℕ, ◌≡◌, refl, Bool, Option, none, some}
use roq.Errors.{Error}
use roq.SendFlow.{SendFlow, open_stream, keep_stream, new_send_stream, open_send_stream}
use roq.QuicConnection.{QuicOpened, quic_stream, quic_error, open_uni_stream_sync}

no_priority :
    (f : SendFlow) (answer : QuicOpened) (priority : ℕ) (incremental : Bool) (e : Option Error)
    → let r = open_stream f (open_uni_stream_sync answer) priority incremental e in
      (keep_stream f r r.stream).1.priority ≡ none
no_priority f answer priority incremental (some e) = refl
no_priority f (quic_error x) priority incremental none = refl
no_priority f (quic_stream address id) priority incremental none = refl

-- `NewSendStream` on a quic-go connection sets no priority on the stream, whatever it is asked for.
pub quic_go_sets_no_priority :
    (f : SendFlow) (answer : QuicOpened) (priority : ℕ) (incremental : Bool)
    → (new_send_stream f (open_uni_stream_sync answer) priority incremental).1.priority ≡ none
unfolding new_send_stream open_send_stream
quic_go_sets_no_priority f answer priority incremental =
    no_priority f answer priority incremental f.closed_err
