-- ===== src/RtpSendStream/Tests.antt =====
-- Tests of rtp_send_stream.go on a stream that accepts a few bytes at a time.
use roq.Common.{◌≡◌, ◌⊎◌, refl, true, false, none, [], ◌∷◌, ◌++◌, arith}
use roq.Quicvarint.Rfc.{rfc, rfc-IsQuicvarint}
use roq.RtpSendStream.{RtpSendStream, new_rtp_send_stream, write_rtp_bytes}
use roq.RtpSendStream.Pipe.{Pipe, pipe, pipe-IsSendStream, narrow}
use roq.RtpSendStream.Run.{stream_bytes, send_all, accepted, delivered-send_all}
use roq.RtpSendStream.Wire.{flushes, Queued, Refused, write_rtp_bytes_cases}

abbrev fresh : RtpSendStream Pipe
fresh = new_rtp_send_stream narrow 5 (5 ∷ []) none

delivered-send_all_example :
    (send_all rfc pipe fresh ((7 ∷ 8 ∷ []) ∷ (9 ∷ []) ∷ [])).stream.received
      ++ (send_all rfc pipe fresh ((7 ∷ 8 ∷ []) ∷ (9 ∷ []) ∷ [])).pending
    ≡ stream_bytes rfc (5 ∷ []) (accepted rfc pipe fresh ((7 ∷ 8 ∷ []) ∷ (9 ∷ []) ∷ []))
delivered-send_all_example =
    delivered-send_all rfc rfc-IsQuicvarint pipe (λ p. p.received) pipe-IsSendStream narrow 5
      (5 ∷ []) none ((7 ∷ 8 ∷ []) ∷ (9 ∷ []) ∷ []) refl (omega arith, (omega arith, tt))

write_rtp_bytes_cases_example :
    let r = write_rtp_bytes rfc pipe fresh (7 ∷ 8 ∷ []) in
    ((flushes pipe fresh ≡ true)
      × Queued rfc rfc-IsQuicvarint pipe (λ p. p.received) pipe-IsSendStream fresh (7 ∷ 8 ∷ []) r)
    ⊎ ((flushes pipe fresh ≡ false)
        × Refused rfc rfc-IsQuicvarint pipe (λ p. p.received) pipe-IsSendStream fresh r)
write_rtp_bytes_cases_example =
    write_rtp_bytes_cases rfc rfc-IsQuicvarint pipe (λ p. p.received) pipe-IsSendStream fresh
      (7 ∷ 8 ∷ []) (omega arith)
