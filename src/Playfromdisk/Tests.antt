-- ===== src/Playfromdisk/Tests.antt =====
-- examples/playfromdisk/main.go with a video of one frame and two packets, and examples/savetodisk/main.go.
use roq.Common.{ℕ, suc, ◌≡◌, refl, Option, none, some, true, List, [], ◌∷◌, map, length, arith}
use roq.Errors.{Error, canceled}
use roq.Interop.Main.{Result, ok}
use roq.Savetodisk.{Saved, logged, save_loop}
use roq.ReceiveFlow
use roq.Playfromdisk.Saved.{IsRtp, video_is_saved}
use roq.Quicvarint.{Bytes}
use roq.Quicvarint.Rfc.{rfc, rfc-IsQuicvarint, encode}
use roq.SendFlow.{new_flow}
use roq.RtpSendStream.{new_rtp_send_stream, write_frame, write_rtp_bytes, close}
use roq.RtpSendStream.Pipe.{pipe, pipe-IsSendStream}
use roq.ReceiveFlow.{new_receive_flow}
use roq.ReceiveFlow.Queue.{packets}
use roq.SyncMap.{get}
use roq.Common.GoMap.{lookup}
use roq.Common.Chan.{make_chan}
use roq.Session.{Session}
use roq.Session.Sample.{busy, busy-IsOpen}
use roq.Interop.Sender.{send_stream}
use roq.Interop.Sender.Packets.{packetized, concat}
use roq.Interop.Sender.Sample.{packetizer, opens, flow, opens_empty}
use roq.Interop.EndToEnd.{Ready}
use roq.Interop.EndToEnd.Frames.{handle_streams, other_end}
use roq.Playfromdisk.{play}

registered : Ready 5 0 busy
unfolding lookup get
registered = record { known = refl; is_open = busy-IsOpen }

abbrev one_frame : List Bytes
one_frame = (9 ∷ []) ∷ []

abbrev unmarshal : Bytes → Result Bytes
unmarshal p = ok p

abbrev write_rtp : ℕ → Bytes → ℕ × Option Error
write_rtp n p = (suc n, none)

read_back : (p b : Bytes) → packetizer.marshal p ≡ some b → unmarshal b ≡ ok p
read_back p b e = ground arith

packets_IsRtp : IsRtp packetizer unmarshal write_rtp
packets_IsRtp = record {
  within = λ p b e. ground arith;
  reads_back = read_back;
  writes = λ w p. refl;
}

no_panic : (play packetizer rfc pipe opens flow 0 0 one_frame none).panicked ≡ none
unfolding play send_stream write_rtp_bytes write_frame close encode new_flow new_rtp_send_stream
no_panic = refl

video_is_saved_example :
    let p = play packetizer rfc pipe opens flow 0 0 one_frame none in
    (s' : Session) × (out : Saved Bytes ℕ) × (handle_streams rfc
        (λ f. 0)
        (map (other_end pipe (λ p. p.received)) p.streams)
        busy
      ≡ some s')
    × (let f = (ReceiveFlow.close (s'.receive_heap.obj 0)).0 in
        save_loop unmarshal write_rtp (suc (length (packets f))) true f 0 [] ≡ some out)
    × (out.written ≡ concat (packetized packetizer 0 one_frame))
    × (out.ending ≡ logged canceled)
unfolding new_receive_flow make_chan
video_is_saved_example =
    video_is_saved packetizer unmarshal write_rtp rfc rfc-IsQuicvarint pipe (λ p. p.received)
      pipe-IsSendStream (λ s. refl) opens opens_empty (λ f. 0) 0 one_frame none none 5 0 busy true 0
      packets_IsRtp (omega arith) registered refl refl refl refl (omega arith) no_panic
