-- ===== src/Interop/EndToEnd/Tests.antt =====
-- A video from examples/interop/sender.go into a queue of session.go with room for two packets.
use roq.Common.{◌≡◌, ◌≢◌, refl, none, some, List, [], ◌++◌, map, take, arith}
use roq.Quicvarint.{Bytes}
use roq.Quicvarint.Rfc.{rfc, rfc-IsQuicvarint, encode}
use roq.SendFlow.{new_flow}
use roq.SendFlow
use roq.RtpSendStream.{RtpSendStream, new_rtp_send_stream, write_frame, write_rtp_bytes, close}
use roq.RtpSendStream.Pipe.{Pipe, pipe, pipe-IsSendStream}
use roq.ReceiveFlow.{new_receive_flow}
use roq.ReceiveFlow.Queue.{packets}
use roq.ReceiveFlow.Frames.{finished}
use roq.SyncMap.{get}
use roq.Common.GoMap.{lookup}
use roq.Common.Chan.{make_chan}
use roq.Session.{Session}
use roq.Session.Incoming.{handle_uni_stream}
use roq.Session.Sample.{busy, busy-IsOpen, calm}
use roq.Interop.Sender.{
  datagram_mode, single_stream_mode, stream_per_frame_mode, send, send_frames, send_stream,
  send_datagrams,
}
use roq.Interop.Sender.Packets.{packetized, concat, Marshals}
use roq.Interop.Sender.Sample.{packetizer, opens, flow, video, sends, packets_fit, opens_empty}
use roq.Interop.EndToEnd.Frames.{handle_streams, other_end, streams_reach_receiver}
use roq.Interop.EndToEnd.{Ready, datagrams_reach_receiver, single_stream_reaches_receiver}
use roq.Session.Incoming.{handle_datagrams}

busy-Ready : Ready 5 0 busy
unfolding lookup get
busy-Ready = record { known = refl; is_open = busy-IsOpen }

datagrams_sent : (send packetizer rfc pipe sends opens flow datagram_mode 0 video).err ≡ none
unfolding send send_frames send_datagrams SendFlow.write_rtp_bytes encode new_flow
datagrams_sent = refl

stream_sent : (send packetizer rfc pipe sends opens flow single_stream_mode 0 video).err ≡ none
unfolding send send_frames send_stream write_rtp_bytes write_frame close encode new_flow
    new_rtp_send_stream
stream_sent = refl

some_packets : concat (packetized packetizer 0 video.frames) ≢ []
some_packets e = cc

datagrams_reach_receiver_example :
    let st = send packetizer rfc pipe sends opens flow datagram_mode 0 video in
    let f = busy.receive_heap.obj 0 in
    (s' : Session) × (bufs : List Bytes) × Marshals packetizer
      (concat (packetized packetizer 0 video.frames))
      bufs
    × (handle_datagrams rfc calm (λ s. 0) st.datagrams busy ≡ some s')
    × (packets (s'.receive_heap.obj 0) ≡ take f.buffer.cap (packets f ++ bufs))
unfolding new_receive_flow make_chan
datagrams_reach_receiver_example =
    datagrams_reach_receiver packetizer rfc rfc-IsQuicvarint pipe (λ p. p.received)
      pipe-IsSendStream packets_fit (λ s. refl) sends opens opens_empty calm (λ s. 0) 0 video none 5
      0 busy (omega arith) busy-Ready (omega arith) datagrams_sent

single_stream_reaches_receiver_example :
    let st = send packetizer rfc pipe sends opens flow single_stream_mode 0 video in
    let f = busy.receive_heap.obj 0 in
    (x : RtpSendStream Pipe) × (s' : Session) × (bufs : List Bytes) × (st.single ≡ some x)
    × Marshals packetizer (concat (packetized packetizer 0 video.frames)) bufs
    × (handle_uni_stream rfc
          (λ f. 0)
          busy
          (record { id = 3; content = x.stream.received; ending = finished })
        ≡ some s')
    × (packets (s'.receive_heap.obj 0) ≡ take f.buffer.cap (packets f ++ bufs))
unfolding new_receive_flow make_chan
single_stream_reaches_receiver_example =
    single_stream_reaches_receiver packetizer rfc rfc-IsQuicvarint pipe (λ p. p.received)
      pipe-IsSendStream packets_fit (λ s. refl) sends opens opens_empty (λ f. 0) 0 video none 5 0 3
      busy (omega arith) busy-Ready refl (omega arith) some_packets stream_sent

streams_sent : (send packetizer rfc pipe sends opens flow stream_per_frame_mode 0 video).err ≡ none
unfolding send send_frames send_stream write_rtp_bytes write_frame close encode new_flow
    new_rtp_send_stream
streams_sent = refl

streams_reach_receiver_example :
    let st = send packetizer rfc pipe sends opens flow stream_per_frame_mode 0 video in
    let f = busy.receive_heap.obj 0 in
    (s' : Session) × (bufs : List Bytes) × Marshals packetizer
      (concat (packetized packetizer 0 video.frames))
      bufs
    × (handle_streams rfc (λ f. 0) (map (other_end pipe (λ p. p.received)) st.per_frame) busy
        ≡ some s')
    × (packets (s'.receive_heap.obj 0) ≡ take f.buffer.cap (packets f ++ bufs))
unfolding new_receive_flow make_chan
streams_reach_receiver_example =
    streams_reach_receiver packetizer rfc rfc-IsQuicvarint pipe (λ p. p.received) pipe-IsSendStream
      packets_fit (λ s. refl) sends opens opens_empty (λ f. 0) 0 video none 5 0 busy (omega arith)
      busy-Ready refl (omega arith) streams_sent
