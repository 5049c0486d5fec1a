-- ===== src/Interop/Sender/Tests.antt =====
-- examples/interop/sender.go on a video of two frames, each of two packets.
use roq.Common.{◌≡◌, refl, none, [], ◌∷◌}
use roq.Quicvarint.Rfc.{rfc, rfc-IsQuicvarint, encode}
use roq.SendFlow.{SendFlow, new_flow}
use roq.SendFlow
use roq.RtpSendStream.{new_rtp_send_stream, write_frame, write_rtp_bytes, close}
use roq.RtpSendStream.Pipe.{Pipe, pipe, pipe-IsSendStream}
use roq.Interop.Sender.{
  datagram_mode, stream_per_frame_mode, single_stream_mode, send, send_stream, send_frames,
  send_datagrams,
}
use roq.Interop.Sender.Packets.{packetized}
use roq.Interop.Sender.Modes.{Sent}
use roq.Interop.Sender.Send.{send_lem}
use roq.Interop.Sender.Sample.{packetizer, opens, flow, video, sends, packets_fit, opens_empty}

send_ok : (send packetizer rfc pipe sends opens flow single_stream_mode 0 video).err ≡ none
unfolding send send_frames send_stream write_rtp_bytes write_frame close encode new_flow
    new_rtp_send_stream
send_ok = refl

no_datagrams :
    (send packetizer rfc pipe sends opens flow stream_per_frame_mode 0 video).datagrams ≡ []
unfolding send send_frames send_stream write_rtp_bytes write_frame close encode new_flow
    new_rtp_send_stream
no_datagrams = refl

datagrams_sent :
    (send packetizer rfc pipe sends opens flow datagram_mode 0 video).datagrams
    ≡ (5 ∷ 7 ∷ 8 ∷ []) ∷ (5 ∷ 0 ∷ []) ∷ (5 ∷ 9 ∷ []) ∷ (5 ∷ 1 ∷ []) ∷ []
unfolding send send_frames send_datagrams SendFlow.write_rtp_bytes encode new_flow
datagrams_sent = refl

send_lem_example :
    Sent packetizer rfc
      (λ (p : Pipe). p.received)
      flow
      single_stream_mode
      (send packetizer rfc pipe sends opens flow single_stream_mode 0 video)
      (packetized packetizer 0 video.frames)
send_lem_example =
    send_lem packetizer rfc rfc-IsQuicvarint pipe (λ p. p.received) pipe-IsSendStream packets_fit
      (λ s. refl) sends opens opens_empty flow single_stream_mode 0 video send_ok
