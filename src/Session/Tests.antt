-- ===== src/Session/Tests.antt =====
-- Tests of session.go on a session with one flow in each direction, under the ID 5.
use roq.Common.{
  if◌then◌else◌, ℕ, ◌≡◌, ◌⊎◌, ◌++◌, ◌-◌, ◌<◌, refl, true, false, none, some, [], ◌∷◌, length, take,
  arith,
}
use roq.Common.Chan.{make_chan}
use roq.Common.GoMap.{lookup}
use roq.Errors.{SessionError, err_roq_internal_error}
use roq.Quicvarint.{Bytes}
use roq.Quicvarint.Rfc.{rfc, rfc-IsQuicvarint, rfc_parse_long}
use roq.ReceiveFlow.{ReceiveFlow, new_receive_flow}
use roq.ReceiveFlow.Queue.{packets, offer}
use roq.ReceiveFlow.Frames.{ReceiveStream, finished}
use roq.RtpSendStream.{RtpSendStream, new_rtp_send_stream, write_rtp_bytes}
use roq.RtpSendStream.Pipe.{narrow, narrow_flushed, Pipe, pipe, pipe-IsSendStream}
use roq.RtpSendStream.Run.{send_all, accepted}
use roq.SendFlow.{new_flow}
use roq.SyncMap.{get}
use roq.Session.{Session, flow, new_receive_flow_of}
use roq.Session.Shutdown.{close_send_flow, close, close_session}
use roq.Session.Incoming.{handle_datagram, handle_uni_stream}
use roq.Session.Flows.{IsValid, new_receive_flow_of-IsValid}
use roq.Session.Datagrams.{long_flow_id_leaks}
use roq.Session.EarlyPackets.{early_packet_is_kept}
use roq.Session.Streams.{stream_end_to_end}
use roq.Session.Closing.{close_session_again}
use roq.Session.CloseEffect.{close_effect}
use roq.SyncMap.Effects.{has_value, collected}
use roq.ReceiveFlow
use roq.SendFlow
use roq.Common.{◌≢◌}
use roq.Common.Int.{pos}
use roq.Options.Settings.{unknown_flow_buffer_size}
use roq.Session.{new_receive_flow_open}
use roq.Session.Life.{born, then_step, ask_receive_flow, session-IsValid}
use roq.Session.Race.{close_misses_new_receive_flow}
use roq.Session.FlowIds.{close_forgets_other_flow}
use roq.Session.Sample.{created, created_made, busy, busy-IsValid, busy-IsOpen, calm}

abbrev first_choice : ReceiveFlow → ℕ
first_choice f = 0

abbrev stopped : SessionError
stopped = record { code = err_roq_internal_error; reason = "stop" }

abbrev sender : RtpSendStream Pipe
sender = new_rtp_send_stream narrow 5 (rfc.append [] 5) none

stream_end_to_end_example :
    let f = busy.receive_heap.obj 0 in
    let sent = (send_all rfc pipe sender ((7 ∷ 8 ∷ []) ∷ (9 ∷ []) ∷ [])).stream.received in
    let got =
      (7 ∷ 8 ∷ [])
      ∷ accepted rfc pipe (write_rtp_bytes rfc pipe sender (7 ∷ 8 ∷ [])).self ((9 ∷ []) ∷ []) in
    (s' : Session) × (handle_uni_stream rfc first_choice busy
        (record { id = 3; content = sent; ending = finished })
      ≡ some s')
    × (packets (s'.receive_heap.obj 0) ≡ take f.buffer.cap (packets f ++ got))
unfolding lookup get new_receive_flow make_chan
stream_end_to_end_example =
    stream_end_to_end rfc rfc-IsQuicvarint pipe (λ p. p.received) pipe-IsSendStream narrow 5 0 3
      none (7 ∷ 8 ∷ []) ((9 ∷ []) ∷ []) first_choice busy (omega arith) refl
      (omega arith, (omega arith, tt)) narrow_flushed refl busy-IsOpen refl (omega arith)

long_flow_id_leaks_example :
    let f = busy.receive_heap.obj 0 in
    (s' : Session) × (queued : Bytes) × (handle_datagram rfc calm 0 busy (64 ∷ 5 ∷ 7 ∷ [])
      ≡ some s')
    × (packets (s'.receive_heap.obj 0) ≡ offer f.buffer.cap (packets f) queued)
    × (length {A = ℕ} (64 ∷ 5 ∷ 7 ∷ []) - 2 < length queued)
unfolding lookup get
long_flow_id_leaks_example =
    let (two, one) = rfc_parse_long in
    long_flow_id_leaks rfc rfc-IsQuicvarint calm 0 busy (64 ∷ 5 ∷ 7 ∷ []) 5 2 0 two one refl
      busy-IsOpen

early_packet_is_kept_example :
    (s1 : Session) × (s2 : Session) × (r : ℕ) × (handle_datagram rfc calm 0 busy
        (rfc.append [] 6 ++ (7 ∷ 8 ∷ []))
      ≡ some s1)
    × (new_receive_flow_of s1 6 ≡ (s2, flow r))
    × (packets (s2.receive_heap.obj r) ≡ (7 ∷ 8 ∷ []) ∷ [])
unfolding lookup get
early_packet_is_kept_example =
    early_packet_is_kept rfc rfc-IsQuicvarint calm 0 busy 6 (7 ∷ 8 ∷ []) (omega arith) busy-IsValid
      refl refl refl (omega arith)

new_receive_flow_of-IsValid_example :
    (s' : Session) × (r : ℕ) × (new_receive_flow_of busy 6 ≡ (s', flow r))
    × IsValid s'
    × (get s'.receive_flows 6 ≡ some r)
    × ((lookup 6 busy.flow_buffer.buffer ≡ some r)
        ⊎ ((lookup 6 busy.flow_buffer.buffer ≡ none) × (r ≡ busy.receive_heap.next)))
unfolding lookup get
new_receive_flow_of-IsValid_example = new_receive_flow_of-IsValid busy 6 busy-IsValid refl refl

close_effect_example :
    let s' = close calm busy 2 "stop" in
    ((r : ℕ)
      → s'.receive_heap.obj r ≡ (
          if has_value r busy.receive_flows.elements
          then (ReceiveFlow.close (busy.receive_heap.obj r)).0
          else busy.receive_heap.obj r))
    × ((r : ℕ)
        → s'.send_heap.obj r ≡ (
            if has_value r busy.send_flows.elements
            then (SendFlow.close calm.close_stream (busy.send_heap.obj r)).self
            else busy.send_heap.obj r))
    × (s'.cancelled
        ≡ busy.cancelled
          ++ collected
              (λ r. (ReceiveFlow.close (busy.receive_heap.obj r)).1)
              busy.receive_flows.elements)
    × (s'.closed_streams
        ≡ busy.closed_streams
          ++ collected (λ r. (busy.send_heap.obj r).streams) busy.send_flows.elements)
close_effect_example = close_effect calm busy 2 "stop" refl

close_session_again_example :
    close_session calm (close_session calm busy).0 ≡ close_session calm busy
close_session_again_example = close_session_again calm busy

close_forgets_other_flow_example :
    let s' = (close_send_flow calm busy 0).0 in
    (get s'.send_flows (busy.send_heap.obj 0).id ≡ none)
    × (s'.send_heap.obj 1 ≡ busy.send_heap.obj 1)
unfolding lookup get new_flow
close_forgets_other_flow_example =
    close_forgets_other_flow calm busy 0 1 (λ e. ground (arith, e)) refl

session-IsValid_example :
    let life = (new_receive_flow_of created 5).0 in
    IsValid life
    × ((choice : ℕ) (d : Bytes) → handle_datagram rfc calm choice life d ≢ none)
    × ((pick : ReceiveFlow → ℕ) (rs : ReceiveStream) → handle_uni_stream rfc pick life rs ≢ none)
session-IsValid_example =
    session-IsValid rfc calm (some none) true (unknown_flow_buffer_size (pos 3) ∷ [])
      busy.receive_heap busy.send_heap created (new_receive_flow_of created 5).0 created_made
      (then_step born (ask_receive_flow 5))

close_misses_new_receive_flow_example :
    let s1 = close calm busy 2 "stop" in
    (s2 : Session) × (r : ℕ) × (new_receive_flow_open s1 6 ≡ (s2, flow r))
    × (get s2.receive_flows 6 ≡ some r)
    × ((s2.receive_heap.obj r).ctx_done ≡ false)
    × (close calm s2 2 "stop" ≡ s2)
unfolding lookup get
close_misses_new_receive_flow_example =
    close_misses_new_receive_flow calm busy 2 "stop" 6 busy-IsValid refl refl refl
