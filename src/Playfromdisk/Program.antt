-- ===== src/Playfromdisk/Program.antt =====
-- examples/playfromdisk/main.go: `main` around its loop. What it calls of the operating system, of pion, of
-- quic-go and of the session is a parameter.
pub mod Releases
mod Tests
use Prim.Native.String.{String}
use text.Mathlib.Text.{◌==◌}
use roq.Common.{ℕ, Bool, Option, none, some, List, if◌then◌else◌}
use roq.Common.Acts.{conn, Outcome, returns, panics, Run, stops, acquired, session_scoped, checked}
use roq.Errors.{Error}
use roq.Quicvarint.{Bytes, Quicvarint}
use roq.SendFlow.{SendFlow}
use roq.RtpSendStream.{SendStream}
use roq.Interop.Sender.{Packetizer, Opening}
use roq.Playfromdisk.{Played, play}

-- pion's payloaders.
pub data Payloader : Type 0 where
  av1 vp9 vp8 : Payloader

abbrev pub payloader_of : String → Option Payloader
payloader_of four_cc =
    if four_cc == "AV01"
    then some av1
    else if four_cc == "VP90"
    then some vp9
    else if four_cc == "VP80"
    then some vp8
    else none

-- What the calls ahead of the loop return, and the header of the video. `unable` is the panic's text.
pub record Calls : Type 0 where
  pub open_file : Option Error
  pub read_header : Option Error
  pub four_cc : String
  pub unable : Error
  pub open_file_again : Option Error
  pub read_header_again : Option Error
  pub dial : Option Error
  pub new_session : Option Error
  pub new_send_flow : Option Error

abbrev pub end_of : Option Error → Outcome
end_of none = returns none
end_of (some e) = panics e

-- `c` is what the calls return, `frames` and `ending` what is read of the video, `packetizer` pion's by its
-- payloader.
module _ {K P S : Type 0} (packetizer : Payloader → Packetizer K P) (q : Quicvarint)
    (i : SendStream S) (open_stream : ℕ → Opening S) (f : SendFlow) (k : K) (frames : List Bytes)
    (ending : Option Error) (c : Calls) where
  -- With a payloader: the file once more, the connection, the session, and the loop.
  abbrev pub with_payloader : Option Payloader → Run
  with_payloader none = stops (panics c.unable)
  with_payloader (some payloader) = checked panics c.open_file_again (
      checked panics c.read_header_again (
        checked panics c.dial (
          acquired conn (
            checked panics c.new_session (
              session_scoped (
                checked panics c.new_send_flow (
                  stops (
                    end_of
                      (play (packetizer payloader) q i open_stream f 0 k frames
                        ending).panicked))))))))

  unfoldable pub main : Run
  main =
      checked panics c.open_file
        (checked panics c.read_header (with_payloader (payloader_of c.four_cc)))
