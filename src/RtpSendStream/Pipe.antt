-- ===== src/RtpSendStream/Pipe.antt =====
-- A stream for the tests: what it has delivered, and how many bytes each of the next writes accepts; it
-- accepts everything once that list is used up.
use roq.Common.{ℕ, ◌≡◌, ◌≤◌, refl, none, List, [], ◌∷◌, ◌++◌, length, take, min, arith}
use roq.Quicvarint.{Bytes}
use roq.Quicvarint.Rfc.{rfc, encode}
use roq.RtpSendStream.{
  SendStream, IsSendStream, new_rtp_send_stream, flush, write_frame, write_rtp_bytes,
}
use roq.RtpSendStream.Run.{send_all}

pub record Pipe : Type 0 where
  pub received : Bytes
  pub accepts : List ℕ

abbrev accept_bytes : ℕ → List ℕ → Pipe → Bytes → Pipe
accept_bytes n later p b = record { received = p.received ++ take n b; accepts = later }

abbrev pub pipe_write : List ℕ → Pipe → Bytes → Pipe × ℕ
pipe_write [] p b = (accept_bytes (length b) [] p b, length b)
pipe_write (c ∷ later) p b = let n = min c (length b) in (accept_bytes n later p b, n)

abbrev pub pipe : SendStream Pipe
pipe = record {
  write = λ p b. let (p', n) = pipe_write p.accepts p b in (p', n, none);
  close = λ p. (p, none);
  cancel_write = λ p code. p;
  id = λ p. 2;
}

pipe_accepts : (cs : List ℕ) (p : Pipe) (b : Bytes) → (pipe_write cs p b).1 ≤ length b
pipe_accepts [] p b = omega arith
pipe_accepts (c ∷ cs) p b = ground arith

pipe_delivers :
    (cs : List ℕ) (p : Pipe) (b : Bytes)
    → (pipe_write cs p b).0.received ≡ p.received ++ take (pipe_write cs p b).1 b
pipe_delivers [] p b = refl
pipe_delivers (c ∷ cs) p b = refl

pub pipe-IsSendStream : IsSendStream pipe (λ p. p.received)
pipe-IsSendStream = record {
  accepts = λ p b. pipe_accepts p.accepts p b;
  delivers = λ p b. pipe_delivers p.accepts p b;
}

-- Takes three bytes of the first write, and up to nine of the second.
abbrev pub narrow : Pipe
narrow = record { received = []; accepts = 3 ∷ 9 ∷ [] }

-- The second call writes the last byte of the first packet before its own.
pub narrow_flushed :
    (send_all rfc pipe
      (new_rtp_send_stream narrow 5 (rfc.append [] 5) none)
      ((7 ∷ 8 ∷ []) ∷ (9 ∷ []) ∷ [])).pending
    ≡ []
unfolding send_all write_rtp_bytes write_frame flush new_rtp_send_stream encode
narrow_flushed = refl
