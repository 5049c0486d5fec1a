-- ===== src/RtpSendStream/Run.antt =====
-- A stream over its whole life: any sequence of calls of `WriteRTPBytes`, whatever each `Write` accepts.
use roq.Common.{
  All, ℕ, ◌<◌, ◌≡◌, inl, inr, refl, sym, ◌∙◌, Option, List, [], ◌∷◌, ◌++◌, length, if◌then◌else◌,
  append-nil, append_assoc,
}
use roq.Quicvarint.{Bytes, Quicvarint, IsQuicvarint, varint_limit}
use roq.Qlogger.{Qlogger}
use roq.RtpSendStream.{
  SendStream, IsSendStream, RtpSendStream, new_rtp_send_stream, write_rtp_bytes,
}
use roq.RtpSendStream.Wire.{frames, lead, on_wire, flushes, write_rtp_bytes_cases}

abbrev pub Fits : Bytes → Type 0
Fits packet = length packet < varint_limit

-- The bytes of a stream that carries these packets: no byte before the first packet.
abbrev pub stream_bytes : Quicvarint → Bytes → List Bytes → Bytes
stream_bytes q ahead [] = []
stream_bytes q ahead (p ∷ ps) = ahead ++ frames q (p ∷ ps)

pub stream_bytes-nil : (q : Quicvarint) (ps : List Bytes) → stream_bytes q [] ps ≡ frames q ps
stream_bytes-nil q [] = refl
stream_bytes-nil q (p ∷ ps) = refl

module _ {S : Type 0} (q : Quicvarint) (i : SendStream S) where
  -- The application writes the packets one after the other, and goes on after an error.
  unfoldable pub send_all : RtpSendStream S → List Bytes → RtpSendStream S
  send_all s [] = s
  send_all s (p ∷ ps) = send_all (write_rtp_bytes q i s p).self ps

module _ {S : Type 0} (q : Quicvarint) (i : SendStream S) where
  -- The packets whose calls got past the bytes of an earlier frame.
  unfoldable pub accepted : RtpSendStream S → List Bytes → List Bytes
  accepted s [] = []
  accepted s (p ∷ ps) =
      let rest = accepted (write_rtp_bytes q i s p).self ps in
      if flushes i s then p ∷ rest else rest

module _ {S : Type 0} (q : Quicvarint) (qv : IsQuicvarint q) (i : SendStream S)
    (delivered : S → Bytes) (w : IsSendStream i delivered) where
  send_all-on_wire :
      (s : RtpSendStream S) (ps : List Bytes)
      → All Fits ps
      → on_wire delivered (send_all q i s ps)
        ≡ on_wire delivered s ++ stream_bytes q (lead s) (accepted q i s ps)
  unfolding send_all accepted
  send_all-on_wire s [] h = sym (append-nil _)
  send_all-on_wire s (p ∷ ps) h = elim (write_rtp_bytes_cases q qv i delivered w s p h.0) [
    | inl (ok, (wire, sent, bytes, count, rest)) ↦
        send_all-on_wire (write_rtp_bytes q i s p).self ps h.1
        ∙ rw (ok, wire, sent) (simp (stream_bytes-nil, append_assoc))
    | inr (refused, (wire, sent, bytes, count, failed)) ↦
        send_all-on_wire (write_rtp_bytes q i s p).self ps h.1 ∙ rw (refused, wire, sent, bytes)
  ]

  -- For packets below 2^62 bytes on a stream that delivered nothing before: the bytes that the stream
  -- delivered and those still pending are together the flow ID, once, and the frames of the accepted
  -- packets, in the order of the calls. Nothing is there if no packet was accepted.
  pub delivered-send_all :
      (stream : S) (flow_id : ℕ) (flow_id_bytes : Bytes) (log : Option Qlogger) (ps : List Bytes)
      → delivered stream ≡ []
      → All Fits ps
      → let s = new_rtp_send_stream stream flow_id flow_id_bytes log in
        delivered (send_all q i s ps).stream ++ (send_all q i s ps).pending
        ≡ stream_bytes q flow_id_bytes (accepted q i s ps)
  delivered-send_all stream flow_id flow_id_bytes log ps e h =
      send_all-on_wire (new_rtp_send_stream stream flow_id flow_id_bytes log) ps h
      ∙ unfold new_rtp_send_stream in rw e
