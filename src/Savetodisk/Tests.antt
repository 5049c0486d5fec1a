-- ===== src/Savetodisk/Tests.antt =====
-- examples/savetodisk/main.go on the end of a flow with two packets, the second of which is no RTP packet.
use roq.Common.{ℕ, suc, ◌≡◌, refl, true, false, Option, none, some, List, [], ◌∷◌, ◌++◌, length}
use roq.Errors.{Error, short_buffer}
use roq.Quicvarint.{Bytes}
use roq.ReceiveFlow.{ReceiveFlow, new_receive_flow}
use roq.ReceiveFlow.Queue.{packets}
use roq.Interop.Main.{Result, ok, fails}
use roq.Savetodisk.{Saved, save_loop}
use roq.Common.Acts.{Run, Resource, Keeps}
use roq.Savetodisk.Program.{Calls, main}
use roq.Savetodisk.Program.Releases.{leaks, main-ends}
use roq.Savetodisk.Drain.{Ended, Unmarshals, Because, saves_queue}

abbrev ending_flow : ReceiveFlow
ending_flow = record (new_receive_flow 0 4 none) {
  buffer = record {
    items = record { buf = 0; bytes = 7 ∷ 8 ∷ [] } ∷ record { buf = 1; bytes = [] } ∷ [];
    cap = 4;
    is_closed = true;
    faulted = false;
  };
  ctx_done = true;
  closed = true;
}

-- An RTP packet is not empty.
abbrev unmarshal : Bytes → Result Bytes
unmarshal [] = fails short_buffer
unmarshal (b ∷ p) = ok (b ∷ p)

-- The file's writer counts the packets.
abbrev write_rtp : ℕ → Bytes → ℕ × Option Error
write_rtp n p = (suc n, none)

ending_flow-Ended : Ended ending_flow
unfolding new_receive_flow
ending_flow-Ended = record {
  chan_closed = refl;
  ctx_done = refl;
  not_expired = refl;
  not_woken = refl;
}

saves_queue_example :
    (out : Saved Bytes ℕ) × (done : List Bytes) × (rest : List Bytes) × (save_loop unmarshal
        write_rtp
        (suc (length (packets ending_flow)))
        true
        ending_flow
        0
        []
      ≡ some out)
    × (packets ending_flow ≡ done ++ rest)
    × Unmarshals unmarshal write_rtp done out.written
    × Because unmarshal write_rtp rest out.ending
saves_queue_example = saves_queue unmarshal write_rtp true ending_flow 0 ending_flow-Ended

-- `main` with a certificate, and a file that can be made.
abbrev calls : Calls ℕ ℕ ℕ
calls = record {
  load_key_pair = ok 1;
  listen_addr = λ config. ok 2;
  accept = λ listener. none;
  new_session = none;
  new_receive_flow = none;
  new_writer = ok 0;
}

main-ends_example :
    (run : Run) × (main unmarshal write_rtp
        (suc (length (packets ending_flow)))
        true
        ending_flow
        calls
      ≡ some run)
    × ((x : Resource) → Keeps x (leaks calls.new_session x) run)
main-ends_example = main-ends unmarshal write_rtp true ending_flow ending_flow-Ended calls
