-- ===== src/Savetodisk.antt =====
-- examples/savetodisk/main.go: the loop of `main`, which writes the packets of one flow into a file.
-- The RTP packets and the file's writer are pion's, and parameters.
pub mod Drain
pub mod Program
mod Tests
use roq.Common.{ℕ, zero, suc, Bool, Option, none, some, List, [], ◌∷◌, ◌++◌}
use roq.Errors.{Error}
use roq.Quicvarint.{Bytes}
use roq.ReceiveFlow.{ReceiveFlow, ReadResult}
use roq.ReceiveFlow.Reader.{Reader, starting, waiting, returned, read_step}
use roq.Interop.Main.{Result, ok, fails}

-- A call of `Read` from its beginning to its first `select`, while nothing else touches the flow.
unfoldable pub read_call : ReceiveFlow → ℕ → Bool → ReceiveFlow × Reader
read_call f size prefer_packet =
    let (f', r) = read_step f size prefer_packet starting in read_step f' size prefer_packet r

-- How `main` ends: its return on an error of `Read`, a panic, or a `Read` that has not returned.
pub data Ending : Type 0 where
  logged : Error → Ending
  panicked : Error → Ending
  reading : Ending

-- The packets that were written, in order, the file's writer, and the end.
pub record Saved (P R : Type 0) : Type 0 where
  pub written : List P
  pub file_writer : R
  pub ending : Ending

-- The size of the buffer that `main` makes for each `Read`.
abbrev pub read_size : ℕ
read_size = 4096

module _ {P R : Type 0} (unmarshal : Bytes → Result P) (write_rtp : R → P → R × Option Error) where
  abbrev pub saved : List P → R → Ending → Option (Saved P R)
  saved written w ending = some (record { written = written; file_writer = w; ending = ending })

  -- What follows `WriteRTP`.
  abbrev pub after_write :
      (R → List P → Option (Saved P R)) → List P → P → R × Option Error → Option (Saved P R)
  after_write more written p (w, some e) = saved written w (panicked e)
  after_write more written p (w, none) = more w (written ++ (p ∷ []))

  -- What follows `Unmarshal`.
  abbrev pub after_unmarshal :
      (R → List P → Option (Saved P R)) → R → List P → Result P → Option (Saved P R)
  after_unmarshal more w written (fails e) = saved written w (panicked e)
  after_unmarshal more w written (ok p) = after_write more written p (write_rtp w p)

  abbrev pub after_result :
      (R → List P → Option (Saved P R)) → R → List P → Bytes → Option Error → Option (Saved P R)
  after_result more w written copied (some e) = saved written w (logged e)
  after_result more w written copied none = after_unmarshal more w written (unmarshal copied)

  -- What follows `Read`.
  abbrev pub after_read :
      (R → List P → Option (Saved P R)) → R → List P → Reader → Option (Saved P R)
  after_read more w written starting = saved written w reading
  after_read more w written (waiting ch) = saved written w reading
  after_read more w written (returned r) = after_result more w written r.copied r.err

  -- The loop of `main`, on fuel. `prefer_packet` is the choice of the `select`.
  unfoldable pub save_loop : ℕ → Bool → ReceiveFlow → R → List P → Option (Saved P R)
  save_loop zero prefer_packet f w written = none
  save_loop (suc fuel) prefer_packet f w written =
      let (f', r) = read_call f read_size prefer_packet in
      after_read (save_loop fuel prefer_packet f') w written r
