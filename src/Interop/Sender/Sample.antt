-- ===== src/Interop/Sender/Sample.antt =====
-- A video of two frames for examples/interop/sender.go, each of two packets.
use roq.Common.{
  ℕ, suc, ◌≡◌, sym, ap, Option, none, some, [], ◌∷◌, length, ltb, if◌then◌else◌, arith,
}
use roq.Errors.{Error, closed}
use roq.Quicvarint.{Bytes}
use roq.Quicvarint.Rfc.{rfc}
use roq.SendFlow.{SendFlow, new_flow}
use roq.RtpSendStream.Run.{Fits}
use roq.RtpSendStream.Pipe.{Pipe}
use roq.Interop.Sender.{Video, Packetizer, Opening, stream_of}

-- The frame, then its number.
abbrev pub packetizer : Packetizer ℕ Bytes
packetizer = record {
  packetize = λ k x. (suc k, x ∷ (k ∷ []) ∷ []);
  marshal = λ p. if ltb (length p) 1500 then some p else none;
  marshal_error = closed;
}

abbrev pub empty_pipe : Pipe
empty_pipe = record { received = []; accepts = [] }

abbrev pub opens : ℕ → Opening Pipe
opens n = stream_of empty_pipe

abbrev pub flow : SendFlow
flow = new_flow rfc 5 none

abbrev pub video : Video
video = record { frames = (7 ∷ 8 ∷ []) ∷ (9 ∷ []) ∷ []; ending = none }

abbrev pub sends : Bytes → Option Error
sends b = none

pub packets_fit : (p b : Bytes) → packetizer.marshal p ≡ some b → Fits b
packets_fit p b e = ground arith

same_pipe : {p p' : Pipe} → stream_of p ≡ stream_of p' → p ≡ p'
same_pipe e = cc

pub opens_empty : (n : ℕ) (p : Pipe) → opens n ≡ stream_of p → p.received ≡ []
opens_empty n p e = sym (ap (λ (x : Pipe). x.received) (same_pipe e))
