-- ===== src/Interop/Sender/Loop.antt =====
-- The loop of `send` of examples/interop/sender.go, frame by frame.
use roq.Common.{ℕ, suc, zero, ◌≡◌, refl, ap, ◌∙◌, Option, none, some, List, ◌∷◌, length}
use roq.Common.Int.{ℤ, pos, negsuc}
use roq.Errors.{Error}
use roq.Quicvarint.{Bytes, Quicvarint}
use roq.SendFlow.{SendFlow}
use roq.RtpSendStream.{SendStream, RtpSendStream, new_rtp_send_stream}
use roq.Interop.Sender.{
  Packetizer, send_stream, Opening, stream_of, open_fails, Sending, end_frame, frame_on,
  frame_on_single, send_packets, send_frame, send_frames, with_single, or_stop, start_sending,
}

module _ {K P S : Type 0} (z : Packetizer K P) (q : Quicvarint) (i : SendStream S)
    (send_datagram : Bytes → Option Error) (open_stream : ℕ → Opening S) (f : SendFlow) where
  pub send_packets-packetizer :
      (mode : ℤ) (st : Sending K S) (ps : List P)
      → (send_packets z q i send_datagram open_stream f mode st ps).packetizer ≡ st.packetizer
  send_packets-packetizer (pos zero) st ps = refl
  send_packets-packetizer (pos (suc zero)) st ps = frame (open_stream (length st.per_frame))
    where
      ended :
          (x : RtpSendStream S × Option Error)
          → (end_frame z q i send_datagram open_stream f st x).packetizer ≡ st.packetizer
      ended (r, some e) = refl
      ended (r, none) = refl

      frame :
          (o : Opening S)
          → (frame_on z q i send_datagram open_stream f st ps o).packetizer ≡ st.packetizer
      frame (open_fails e) = refl
      frame (stream_of s) =
          ended (send_stream z q i (new_rtp_send_stream s f.id f.flow_id f.qlog) ps)
  send_packets-packetizer (pos (suc (suc zero))) st ps = single st.single
    where
      single :
          (o : Option (RtpSendStream S))
          → (frame_on_single z q i send_datagram open_stream f st ps o).packetizer ≡ st.packetizer
      single none = refl
      single (some r) = refl
  send_packets-packetizer (pos (suc (suc (suc n)))) st ps = refl
  send_packets-packetizer (negsuc n) st ps = refl

  pub send_frames_stop :
      (mode : ℤ) (st : Sending K S) (x : Bytes) (xs : List Bytes) (ending : Option Error)
      (e : Error)
      → (send_frame z q i send_datagram open_stream f mode st x).err ≡ some e
      → (send_frames z q i send_datagram open_stream f mode st (x ∷ xs) ending).err ≡ some e
  unfolding send_frames
  send_frames_stop mode st x xs ending e bad =
      ap
        (λ o.
          (or_stop z q i send_datagram open_stream f
            (send_frame z q i send_datagram open_stream f mode st x)
            (send_frames z q i send_datagram open_stream f mode
              (send_frame z q i send_datagram open_stream f mode st x) xs ending)
            o).err)
        bad
      ∙ bad

  pub send_frames_step :
      (mode : ℤ) (st : Sending K S) (x : Bytes) (xs : List Bytes) (ending : Option Error)
      → (send_frame z q i send_datagram open_stream f mode st x).err ≡ none
      → send_frames z q i send_datagram open_stream f mode st (x ∷ xs) ending
        ≡ send_frames z q i send_datagram open_stream f mode
            (send_frame z q i send_datagram open_stream f mode st x)
            xs
            ending
  unfolding send_frames
  send_frames_step mode st x xs ending ok =
      ap
        (or_stop z q i send_datagram open_stream f
          (send_frame z q i send_datagram open_stream f mode st x)
          (send_frames z q i send_datagram open_stream f mode
            (send_frame z q i send_datagram open_stream f mode st x) xs ending))
        ok

  pub start_sending-packetizer :
      (mode : ℤ) (k : K) → (start_sending z q i send_datagram open_stream f mode k).packetizer ≡ k
  start_sending-packetizer (pos zero) k = refl
  start_sending-packetizer (pos (suc zero)) k = refl
  start_sending-packetizer (pos (suc (suc zero))) k = opens (open_stream 0)
    where
      opens : (o : Opening S) → (with_single z q i send_datagram open_stream f k o).packetizer ≡ k
      opens (open_fails e) = refl
      opens (stream_of s) = refl
  start_sending-packetizer (pos (suc (suc (suc n)))) k = refl
  start_sending-packetizer (negsuc n) k = refl
