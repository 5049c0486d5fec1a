-- ===== src/Playfromdisk/Program/Releases.antt =====
-- How the `main` of examples/playfromdisk/main.go ends.
use roq.Common.{ℕ, refl, false, Option, none, some, List, arith}
use roq.Common.Acts.{session, panics, Keeps, Leaves, checked-Keeps}
use roq.Errors.{Error}
use roq.Quicvarint.{Bytes, Quicvarint}
use roq.SendFlow.{SendFlow}
use roq.RtpSendStream.{SendStream}
use roq.Interop.Sender.{Packetizer, Opening}
use roq.Playfromdisk.Program.{Payloader, payloader_of, Calls, with_payloader, main}

module _ {K P S : Type 0} (packetizer : Payloader → Packetizer K P) (q : Quicvarint)
    (i : SendStream S) (open_stream : ℕ → Opening S) (f : SendFlow) (k : K) (frames : List Bytes)
    (ending : Option Error) (c : Calls) where
  with_payloader-Keeps :
      (p : Option Payloader)
      → Keeps session false (with_payloader packetizer q i open_stream f k frames ending c p)
  unfolding Keeps Leaves
  with_payloader-Keeps none = refl
  with_payloader-Keeps (some p) = ground arith

  -- `main` closes the session that it made before it ends, also where it panics.
  pub main-Keeps : Keeps session false (main packetizer q i open_stream f k frames ending c)
  unfolding main
  main-Keeps = checked-Keeps session false panics c.open_file _ (
      checked-Keeps session false panics c.read_header _
        (with_payloader-Keeps (payloader_of c.four_cc)))
