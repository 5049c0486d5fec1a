-- ===== src/Interop/Sender/Send.antt =====
-- `send` of examples/interop/sender.go, from the first frame to the last.
use mathlib.Core.Path.{subst}
use mathlib.Core.Option.{some-ne-none}
use mathlib.Core.Option
use roq.Common.{
  ℕ, suc, zero, ◌≡◌, inl, inr, refl, sym, ap, ◌∙◌, Option, none, some, List, [], append-nil,
  Option-cases,
}
use roq.Common.Int.{ℤ, pos, negsuc}
use roq.Errors.{Error}
use roq.Quicvarint.{Bytes, Quicvarint, IsQuicvarint}
use roq.SendFlow.{SendFlow}
use roq.RtpSendStream.{SendStream, IsSendStream, RtpSendStream, new_rtp_send_stream, close}
use roq.RtpSendStream.Run.{Fits}
use roq.Interop.Sender.{
  single_stream_mode, Video, Packetizer, Opening, stream_of, open_fails, Sending, send_frames,
  with_single, or_stop, start_sending, send_video, close_each, finish, send,
}
use roq.Interop.Sender.Packets.{packetized, concat}
use roq.Interop.Sender.Modes.{Sent}
use roq.Interop.Sender.Loop.{start_sending-packetizer}
use roq.Interop.Sender.Going.{
  Going, send_frames-Going, close-Carries, Progress-Carries, close_each-CarryEach,
}

module _ {K P S : Type 0} (z : Packetizer K P) (q : Quicvarint) (qv : IsQuicvarint q)
    (i : SendStream S) (delivered : S → Bytes) (w : IsSendStream i delivered)
    (fit : (p : P) (b : Bytes) → z.marshal p ≡ some b → Fits b)
    (keeps : (s : S) → delivered (i.close s).0 ≡ delivered s) (send_datagram : Bytes → Option Error)
    (open_stream : ℕ → Opening S)
    (fresh : (n : ℕ) (s : S) → open_stream n ≡ stream_of s → delivered s ≡ []) (f : SendFlow) where
  -- The deferred `Close` of the single stream, which the flow has closed before.
  abbrev closed_twice : RtpSendStream S → RtpSendStream S
  closed_twice r = (close i (close i r).0).0

  finish-Sent :
      (mode : ℤ) (st : Sending K S) (pss : List (List P))
      → Going z q qv i delivered w fit keeps send_datagram open_stream fresh f mode st pss
      → Sent z q delivered f mode (finish z q i send_datagram open_stream f st) pss
  finish-Sent (pos zero) st pss (sent, single, per_frame) = (
    sent,
    ap (Option.map closed_twice) single,
    ap (close_each z q i send_datagram open_stream f) per_frame,
  )
  finish-Sent (pos (suc zero)) st pss (each, single, datagrams) = (
    close_each-CarryEach z q qv i delivered w fit keeps send_datagram open_stream fresh f
        st.per_frame pss each,
    ap (Option.map closed_twice) single,
    datagrams,
  )
  finish-Sent (pos (suc (suc zero))) st pss (r, e, progress, per_frame, datagrams) = (
    closed_twice r,
    ap (Option.map closed_twice) e,
    close-Carries z q qv i delivered w fit keeps send_datagram open_stream fresh f (close i r).0
        (concat pss)
        (close-Carries z q qv i delivered w fit keeps send_datagram open_stream fresh f r
          (concat pss)
          (Progress-Carries z q qv i delivered w fit keeps send_datagram open_stream fresh f r
            (concat pss) progress)),
    ap (close_each z q i send_datagram open_stream f) per_frame,
    datagrams,
  )
  finish-Sent (pos (suc (suc (suc n)))) st pss (single, per_frame, datagrams) = (
    ap (Option.map closed_twice) single,
    ap (close_each z q i send_datagram open_stream f) per_frame,
    datagrams,
  )
  finish-Sent (negsuc n) st pss (single, per_frame, datagrams) = (
    ap (Option.map closed_twice) single,
    ap (close_each z q i send_datagram open_stream f) per_frame,
    datagrams,
  )

  with_single-Going :
      (k : K) (o : Opening S)
      → open_stream 0 ≡ o
      → (with_single z q i send_datagram open_stream f k o).err ≡ none
      → Going z q qv i delivered w fit keeps send_datagram open_stream fresh f single_stream_mode
          (with_single z q i send_datagram open_stream f k o)
          []
  with_single-Going k (open_fails e) opened ok = absurd (some-ne-none _ ok)
  with_single-Going k (stream_of s) opened ok = (
    new_rtp_send_stream s f.id f.flow_id f.qlog,
    refl,
    (0, s, opened, ([], tt, sym (append-nil _), unfold new_rtp_send_stream in refl, refl)),
    refl,
    refl,
  )

  start_sending-Going :
      (mode : ℤ) (k : K)
      → (start_sending z q i send_datagram open_stream f mode k).err ≡ none
      → Going z q qv i delivered w fit keeps send_datagram open_stream fresh f mode
          (start_sending z q i send_datagram open_stream f mode k)
          []
  start_sending-Going (pos zero) k ok = (([], tt, refl), refl, refl)
  start_sending-Going (pos (suc zero)) k ok = (tt, refl, refl)
  start_sending-Going (pos (suc (suc zero))) k ok = with_single-Going k (open_stream 0) refl ok
  start_sending-Going (pos (suc (suc (suc n)))) k ok = (refl, refl, refl)
  start_sending-Going (negsuc n) k ok = (refl, refl, refl)

  send_video-Going :
      (mode : ℤ) (video : Video) (st : Sending K S)
      → (st.err ≡ none
          → Going z q qv i delivered w fit keeps send_datagram open_stream fresh f mode st [])
      → (send_video z q i send_datagram open_stream f mode video st).err ≡ none
      → Going z q qv i delivered w fit keeps send_datagram open_stream fresh f mode
          (send_video z q i send_datagram open_stream f mode video st)
          (packetized z st.packetizer video.frames)
  send_video-Going mode video st g ok = elim (Option-cases st.err) [
    | inr (e, bad) ↦ absurd (some-ne-none _ (sym (stopped e bad) ∙ ok))
    | inl fine ↦
        let go =
          ap
            (or_stop z q i send_datagram open_stream f st
              (send_frames z q i send_datagram open_stream f mode st video.frames video.ending))
            fine in
        rw go (
          send_frames-Going z q qv i delivered w fit keeps send_datagram open_stream fresh f mode st
            [] video.frames video.ending (g fine) (rw go at ok))
  ]
    where
      stopped :
          (e : Error)
          → st.err ≡ some e
          → (send_video z q i send_datagram open_stream f mode video st).err ≡ some e
      stopped e bad =
          ap
            (λ o.
              (or_stop z q i send_datagram open_stream f st
                (send_frames z q i send_datagram open_stream f mode st video.frames video.ending)
                o).err)
            bad
          ∙ bad

  -- A call of `send` that returns nil, where each packet is below 2^62 bytes and the streams keep the
  -- promise of io.Writer, have delivered nothing before, and deliver nothing by being closed. With
  -- datagrams, each packet of the video was sent in a datagram of its own, behind the flow ID, in order,
  -- and on no stream. With a stream per frame, there is a stream for each frame of the video, in order,
  -- which delivered the flow ID and the frames of its packets, or nothing if it had none. With
  -- a single stream, that stream delivered the flow ID and the frames of all packets, in order. In any
  -- other mode nothing was sent.
  pub send_lem :
      (mode : ℤ) (k : K) (video : Video)
      → (send z q i send_datagram open_stream f mode k video).err ≡ none
      → Sent z q delivered f mode
          (send z q i send_datagram open_stream f mode k video)
          (packetized z k video.frames)
  unfolding send
  send_lem mode k video ok =
      let st = start_sending z q i send_datagram open_stream f mode k in
      let all = send_video-Going mode video st (start_sending-Going mode k) ok in
      finish-Sent mode (send_video z q i send_datagram open_stream f mode video st)
        (packetized z k video.frames)
        (subst
          (λ j.
            Going z q qv i delivered w fit keeps send_datagram open_stream fresh f mode
              (send_video z q i send_datagram open_stream f mode video st)
              (packetized z j video.frames))
          (start_sending-packetizer z q i send_datagram open_stream f mode k) all)
