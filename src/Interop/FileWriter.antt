-- ===== src/Interop/FileWriter.antt =====
-- examples/interop/file_writer.go: packets through a jitter buffer into a file.
-- The jitter buffer, the RTP packets and the writers of the codecs are pion's, and parameters.
pub mod Write
mod Tests
use Prim.Native.String.{String}
use text.Mathlib.Text.{◌==◌}
use roq.Common.{
  ℕ, zero, suc, ◌≡◌, Bool, true, false, Option, none, some, List, [], ◌∷◌, ◌++◌, length,
  if◌then◌else◌,
}
use roq.Errors.{Error}
use roq.Quicvarint.{Bytes}
use roq.Interop.Main.{Result, ok, fails}

-- What `Pop` of the jitter buffer returns: a packet, a nil packet, or an error.
pub data Popped (P : Type 0) : Type 0 where
  packet : P → Popped P
  nil : Popped P
  empty : Popped P

-- pion: `Unmarshal`, the jitter buffer, and an `rtpWriter`.
pub record Pion (P J R : Type 0) : Type 0 where
  pub unmarshal : Bytes → Result P
  pub new_buffer : J
  pub push : J → P → J
  pub pop : J → J × Popped P
  pub write_rtp : R → P → R × Option Error
  pub close : R → R × Option Error

pub record FileWriter (J R : Type 0) : Type 0 where
  pub buffer : J
  pub writer : R

-- `newFileWriter` and `newIVFWriterWith`: the codec's writer or its error.
module _ {P J R : Type 0} (n : Pion P J R) (unknown_codec : Error) where
  abbrev pub with_writer : Result R → Result (FileWriter J R)
  with_writer (fails e) = fails e
  with_writer (ok r) = ok (record { buffer = n.new_buffer; writer = r })

  unfoldable pub new_file_writer :
      (String → Result R) → (String → Result R) → String → String → Result (FileWriter J R)
  new_file_writer new_ivf new_h264 filename codec =
      if codec == "vp8"
      then with_writer (new_ivf filename)
      else if codec == "h264"
      then with_writer (new_h264 filename)
      else fails unknown_codec

  unfoldable pub new_ivf_writer_with :
      {W : Type 0} → (W → Result R) → (W → R) → W → String → Result (FileWriter J R)
  new_ivf_writer_with new_ivf new_h264 w codec =
      if codec == "vp8"
      then with_writer (new_ivf w)
      else if codec == "h264"
      then with_writer (ok (new_h264 w))
      else fails unknown_codec

-- What a call of `Write` leaves: the count and the error that it returns, and the packets that it passed
-- to the codec's writer, in order.
pub record WriteResult (P J R : Type 0) : Type 0 where
  pub self : FileWriter J R
  pub count : ℕ
  pub err : Option Error
  pub passed : List P

module _ {P J R : Type 0} (n : Pion P J R) where
  abbrev pub result : FileWriter J R → Bytes → Option Error → List P → Option (WriteResult P J R)
  result w buf err passed =
      some (record { self = w; count = length buf; err = err; passed = passed })

  -- What the loop comes to after `WriteRTP`: its error, or the rest of the loop.
  abbrev pub or_error :
      FileWriter J R
      → Bytes
      → List P
      → Option Error
      → Option (WriteResult P J R)
      → Option (WriteResult P J R)
  or_error w buf passed (some e) rest = result w buf (some e) passed
  or_error w buf passed none rest = rest

  -- A round by what `Pop` returned; `more` is the loop from there on.
  abbrev pub on_pop :
      (FileWriter J R → List P → Option (WriteResult P J R))
      → Bytes
      → FileWriter J R
      → List P
      → J × Popped P
      → Option (WriteResult P J R)
  on_pop more buf w passed (j, empty) = result (record w { buffer = j }) buf none passed
  on_pop more buf w passed (j, nil) = more (record w { buffer = j }) passed
  on_pop more buf w passed (j, packet p) =
      let (r, e) = n.write_rtp w.writer p in
      let w' : FileWriter J R = record { buffer = j; writer = r } in
      or_error w' buf (passed ++ (p ∷ [])) e (more w' (passed ++ (p ∷ [])))

  -- The loop, on fuel.
  unfoldable pub pop_loop : ℕ → Bytes → FileWriter J R → List P → Option (WriteResult P J R)
  pop_loop zero buf w passed = none
  pop_loop (suc fuel) buf w passed = on_pop (pop_loop fuel buf) buf w passed (n.pop w.buffer)

  abbrev pub write_parsed : ℕ → Bytes → FileWriter J R → Result P → Option (WriteResult P J R)
  write_parsed fuel buf w (fails e) = result w buf (some e) []
  write_parsed fuel buf w (ok p) = pop_loop fuel buf (record w { buffer = n.push w.buffer p }) []

  -- `Write`, on fuel for its loop; the copy of the bytes is whole.
  unfoldable pub write : ℕ → FileWriter J R → Bytes → Option (WriteResult P J R)
  write fuel w buf = write_parsed fuel buf w (n.unmarshal buf)

  -- `Close`
  unfoldable pub close : FileWriter J R → FileWriter J R × Option Error
  close w = let (r, e) = n.close w.writer in (record w { writer = r }, e)
