-- ===== src/Playfromdisk.antt =====
-- examples/playfromdisk/main.go: the loop of `main`, which sends each frame of a video on a stream of its own.
-- The reader of the video and the packetizer are pion's, and parameters.
pub mod Play
pub mod Saved
pub mod Program
mod Tests
use roq.Common.{ℕ, suc, Option, none, some, List, [], ◌∷◌}
use roq.Errors.{Error}
use roq.Quicvarint.{Bytes, Quicvarint}
use roq.SendFlow.{SendFlow}
use roq.RtpSendStream.{SendStream, RtpSendStream, new_rtp_send_stream, close}
use roq.Interop.Sender.{Packetizer, Opening, stream_of, open_fails, send_stream}

-- The streams that `main` opened, in order, and the error that it panics with; where there is none it
-- returned at the end of the video.
pub record Played (S : Type 0) : Type 0 where
  pub streams : List (RtpSendStream S)
  pub panicked : Option Error

-- `open_stream n` is what the connection answers to the call with number `n`.
module _ {K P S : Type 0} (z : Packetizer K P) (q : Quicvarint) (i : SendStream S)
    (open_stream : ℕ → Opening S) (f : SendFlow) where
  -- What follows the packets of a frame: a panic, or `Close`, whose error is dropped, and the other frames.
  abbrev pub after_packets : Played S → RtpSendStream S × Option Error → Played S
  after_packets more (r, some e) = record { streams = r ∷ []; panicked = some e }
  after_packets more (r, none) = record more { streams = (close i r).0 ∷ more.streams }

  -- What follows `NewSendStream` on the open flow `f`. `send_stream` is the loop over the packets.
  abbrev pub on_opening : Played S → List P → Opening S → Played S
  on_opening more packets (open_fails e) = record { streams = []; panicked = some e }
  on_opening more packets (stream_of s) =
      after_packets more (send_stream z q i (new_rtp_send_stream s f.id f.flow_id f.qlog) packets)

  -- The loop of `main`, from the frame with number `n` on. `ending` is `none` where the video ends with
  -- `io.EOF`.
  unfoldable pub play : ℕ → K → List Bytes → Option Error → Played S
  play n k [] ending = record { streams = []; panicked = ending }
  play n k (frame ∷ frames) ending =
      let (k', packets) = z.packetize k frame in
      on_opening (play (suc n) k' frames ending) packets (open_stream n)
