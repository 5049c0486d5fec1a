-- ===== src/ReceiveFlow/Tests.antt =====
-- Tests of receive_flow.go on a flow whose queue has room for two packets.
use roq.Common.{ℕ, ◌≡◌, ◌≢◌, ◌⊎◌, inr, refl, true, false, none, some, [], ◌∷◌, ◌++◌, arith}
use roq.Common.Chan.{make_chan, close_signal, make_signal}
use roq.Common.GoMap.{lookup, keys}
use roq.Errors.{deadline_exceeded, err_roq_no_error}
use roq.Quicvarint.Rfc.{rfc, rfc-IsQuicvarint}
use roq.RtpSendStream.Wire.{frames}
use roq.ReceiveFlow.{
  ReceiveFlow, new_receive_flow, expire_deadline, passed, renew_deadline, set_read_deadline,
  close_buffer, cancel_ctx, close, cancels, register,
}
use roq.ReceiveFlow.Queue.{packets, IsOpen, accept}
use roq.ReceiveFlow.Reader.{waiting, returned, read_step}
use roq.ReceiveFlow.Frames.{ReceiveStream, finished, reset, StreamRead, read_stream, read_varint}
use roq.ReceiveFlow.Frames.Varint.{by_parse, read_varint-parse}
use roq.ReceiveFlow.Frames.Truncated.{read_stream_truncated}
use roq.ReceiveFlow.Frames.Total.{read_stream-total}
use roq.ReceiveFlow.Invariant.{
  Reach, here, next, set_deadline, arrive, cancel, shut, DeadlineValid, BufferValid,
}
use roq.ReceiveFlow.Invariant.Wakeups.{new-DeadlineValid}
use roq.ReceiveFlow.Invariant.Readers.{waiting_is_woken, passed_deadline_stops_reader}
use roq.ReceiveFlow.Invariant.Closing.{new-valid, close_lem}

abbrev small_flow : ReceiveFlow
small_flow = new_receive_flow 5 2 none

small_flow-IsOpen : IsOpen small_flow
unfolding new_receive_flow make_chan
small_flow-IsOpen = record { not_closed = refl; chan_open = refl }

abbrev first_choice : ReceiveFlow → ℕ
first_choice f = 0

abbrev two_frames : ReceiveStream
two_frames = record {
  id = 3;
  content = frames rfc ((7 ∷ 8 ∷ []) ∷ (9 ∷ []) ∷ []);
  ending = finished;
}

abbrev cut_stream : ReceiveStream
cut_stream = record { id = 3; content = rfc.append [] 4 ++ (7 ∷ 8 ∷ []); ending = finished }

read_stream_truncated_example :
    (r : StreamRead) × (read_stream rfc first_choice small_flow cut_stream ≡ some r)
    × (packets r.flow ≡ packets small_flow ++ ((7 ∷ 8 ∷ []) ∷ []))
unfolding new_receive_flow make_chan
read_stream_truncated_example =
    read_stream_truncated rfc rfc-IsQuicvarint first_choice small_flow cut_stream 4 (7 ∷ 8 ∷ [])
      small_flow-IsOpen refl (omega arith) refl refl (omega arith) (omega arith)

abbrev reset_stream : ReceiveStream
reset_stream = record { id = 3; content = 200 ∷ 1 ∷ []; ending = reset }

read_stream-total_example :
    (r : StreamRead) × (read_stream rfc first_choice small_flow reset_stream ≡ some r)
    × (((small_flow.ctx_done ≡ true)
          × (r.flow ≡ small_flow)
          × (r.cancelled ≡ (3, err_roq_no_error) ∷ []))
        ⊎ ((small_flow.ctx_done ≡ false) × (lookup 3 r.flow.streams ≡ none) × (r.cancelled ≡ [])))
read_stream-total_example = read_stream-total rfc first_choice small_flow reset_stream

abbrev expired_flow : ReceiveFlow
expired_flow = set_read_deadline small_flow passed

expired_flow-expired : expired_flow.deadline_expired ≡ true
unfolding new_receive_flow set_read_deadline renew_deadline expire_deadline close_signal make_signal
expired_flow-expired = refl

waiting_is_woken_example :
    (read_step expired_flow 10 true (waiting small_flow.deadline_ch)).1
    ≢ waiting small_flow.deadline_ch
waiting_is_woken_example =
    waiting_is_woken small_flow expired_flow 10 true (new-DeadlineValid 5 2 none)
      (next here (set_deadline passed)) (inr expired_flow-expired)

passed_deadline_stops_reader_example :
    let f' = set_read_deadline small_flow passed in
    let s = read_step f' 10 false (waiting small_flow.deadline_ch) in
    read_step s.0 10 true s.1
    ≡ (f', returned (record { copied = []; err = some deadline_exceeded }))
passed_deadline_stops_reader_example =
    passed_deadline_stops_reader small_flow small_flow 10 true (new-DeadlineValid 5 2 none) here

abbrev filled_flow : ReceiveFlow
filled_flow = accept 0 small_flow (7 ∷ 8 ∷ [])

abbrev shut_flow : ReceiveFlow
shut_flow = close_buffer (cancel_ctx filled_flow)

shut_flow-Reach : Reach small_flow shut_flow
unfolding cancel_ctx
shut_flow-Reach = next (next (next here (arrive 0 (7 ∷ 8 ∷ []))) cancel) (shut refl)

new-valid_example : DeadlineValid shut_flow × BufferValid shut_flow
new-valid_example = new-valid 5 2 none shut_flow shut_flow-Reach

close_lem_example :
    let f = (register filled_flow 3).0 in
    ((close f).0.closed ≡ true)
    × ((close f).0.ctx_done ≡ true)
    × (packets (close f).0 ≡ packets f)
    × ((close f).1 ≡ cancels err_roq_no_error (keys f.streams))
    × ((close (close f).0).0 ≡ (close f).0)
close_lem_example = close_lem (register filled_flow 3).0

read_varint-parse_example :
    read_varint rfc (64 ∷ 5 ∷ 7 ∷ []) finished
    ≡ by_parse (rfc.parse (64 ∷ 5 ∷ 7 ∷ [])) (64 ∷ 5 ∷ 7 ∷ []) finished
read_varint-parse_example =
    read_varint-parse rfc rfc-IsQuicvarint (64 ∷ 5 ∷ 7 ∷ []) finished (omega arith)
