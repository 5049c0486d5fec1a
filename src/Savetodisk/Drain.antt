-- ===== src/Savetodisk/Drain.antt =====
-- examples/savetodisk/main.go on a flow that has been closed: what is left in the queue goes into the file.
use mathlib.Core.Path.{subst}
use roq.Common.{
  ℕ, suc, ◌≡◌, refl, sym, ap, ◌∙◌, Bool, true, false, Option, none, some, List, [], ◌∷◌, ◌++◌,
  length, ltb, arith, append-nil, append_assoc, Bool-cases, inl, inr,
}
use roq.Common.Chan.{is_signalled}
use roq.Errors.{Error, canceled, short_buffer}
use roq.Quicvarint.{Bytes}
use roq.ReceiveFlow.{ReceiveFlow, PacketBuffer, copy_packet, put}
use roq.ReceiveFlow.Queue.{packets, contents}
use roq.ReceiveFlow.Invariant.Closing.{tail, drained, handed}
use roq.ReceiveFlow.Reader.{returned, read_step, receive}
use roq.Interop.Main.{Result, ok, fails}
use roq.Savetodisk.{
  read_call, Saved, Ending, panicked, after_write, after_read, after_unmarshal, logged, read_size,
  save_loop,
}

-- A closed flow without a deadline that has passed.
pub record Ended (f : ReceiveFlow) : Type 0 where
  pub chan_closed : f.buffer.is_closed ≡ true
  pub ctx_done : f.ctx_done ≡ true
  pub not_expired : f.deadline_expired ≡ false
  pub not_woken : is_signalled f.signals f.deadline_ch ≡ false

read_items :
    (f : ReceiveFlow) (size : ℕ) (prefer_packet : Bool) (xs : List PacketBuffer)
    → f.buffer.items ≡ xs
    → Ended f
    → ((read_call f size prefer_packet).1 ≡ returned (drained size (contents f.buffer.items)))
      × (packets (read_call f size prefer_packet).0 ≡ tail (contents f.buffer.items))
unfolding read_call read_step receive copy_packet put
read_items f size prefer_packet [] e h = (ground arith, ground arith)
read_items f size prefer_packet (x ∷ xs) e h = (ground arith, ground arith)

read_call-Ended :
    (f : ReceiveFlow) (size : ℕ) (prefer_packet : Bool) (xs : List PacketBuffer)
    → f.buffer.items ≡ xs
    → Ended f
    → Ended (read_call f size prefer_packet).0
unfolding read_call read_step receive copy_packet put
read_call-Ended f size prefer_packet xs e h = record {
  chan_closed = ground arith;
  ctx_done = ground arith;
  not_expired = ground arith;
  not_woken = ground arith;
}

module _ {P R : Type 0} (unmarshal : Bytes → Result P) (write_rtp : R → P → R × Option Error) where
  -- These packets, one by one, for these bytes.
  abbrev pub Unmarshals : List Bytes → List P → Type 0
  Unmarshals [] [] = Unit
  Unmarshals [] (x ∷ xs) = ⊥
  Unmarshals (p ∷ ps) [] = ⊥
  Unmarshals (p ∷ ps) (x ∷ xs) = (unmarshal p ≡ ok x) × Unmarshals ps xs

  -- Why `main` ended with these packets not written: there are none left, or the first of them is too
  -- long for the buffer, is no RTP packet, or could not be written.
  pub data Because : List Bytes → Ending → Type 0 where
    all_read : Because [] (logged canceled)
    too_long :
        (p : Bytes) (ps : List Bytes)
        → ltb read_size (length p) ≡ true
        → Because (p ∷ ps) (logged short_buffer)
    no_rtp :
        (p : Bytes) (ps : List Bytes) (e : Error)
        → unmarshal p ≡ fails e
        → Because (p ∷ ps) (panicked e)
    not_written :
        (p : Bytes) (ps : List Bytes) (x : P) (w w' : R) (e : Error)
        → unmarshal p ≡ ok x
        → write_rtp w x ≡ (w', some e)
        → Because (p ∷ ps) (panicked e)

  -- What the loop comes to on these packets, with the packets of its file before and after.
  abbrev pub Explained : List Bytes → List P → Option (Saved P R) → Type 0
  Explained ps written o =
      (out : Saved P R) × (done : List Bytes) × (rest : List Bytes) × (new : List P) × (o
        ≡ some out)
      × (ps ≡ done ++ rest)
      × (out.written ≡ written ++ new)
      × Unmarshals done new
      × Because rest out.ending

  abbrev GoesOn : (R → List P → Option (Saved P R)) → List Bytes → Type 0
  GoesOn more ps = (w : R) (written : List P) → Explained ps written (more w written)

  after_write-Explained :
      (more : R → List P → Option (Saved P R)) (p : Bytes) (ps : List Bytes) (x : P) (w : R)
      (written : List P) (o : R × Option Error)
      → GoesOn more ps
      → unmarshal p ≡ ok x
      → write_rtp w x ≡ o
      → Explained (p ∷ ps) written (after_write unmarshal write_rtp more written x o)
  after_write-Explained more p ps x w written (w', some e) on is_rtp wrote = (
    _,
    [],
    p ∷ ps,
    [],
    refl,
    refl,
    sym (append-nil written),
    tt,
    not_written p ps x w w' e is_rtp wrote,
  )
  after_write-Explained more p ps x w written (w', none) on is_rtp wrote =
      let (out, done, rest, new, e1, e2, e3, u, why) = on w' (written ++ (x ∷ [])) in
      (
        out,
        p ∷ done,
        rest,
        x ∷ new,
        e1,
        ap (λ l. p ∷ l) e2,
        e3 ∙ append_assoc written (x ∷ []) new,
        (is_rtp, u),
        why,
      )

  after_unmarshal-Explained :
      (more : R → List P → Option (Saved P R)) (p : Bytes) (ps : List Bytes) (w : R)
      (written : List P) (r : Result P)
      → GoesOn more ps
      → unmarshal p ≡ r
      → Explained (p ∷ ps) written (after_unmarshal unmarshal write_rtp more w written r)
  after_unmarshal-Explained more p ps w written (fails e) on h =
      (_, [], p ∷ ps, [], refl, refl, sym (append-nil written), tt, no_rtp p ps e h)
  after_unmarshal-Explained more p ps w written (ok x) on h =
      after_write-Explained more p ps x w written (write_rtp w x) on h refl

  handed-Explained :
      (more : R → List P → Option (Saved P R)) (p : Bytes) (ps : List Bytes) (w : R)
      (written : List P)
      → GoesOn more ps
      → Explained
          (p ∷ ps)
          written
          (after_read unmarshal write_rtp more w written (returned (handed read_size p)))
  handed-Explained more p ps w written on = elim (Bool-cases (ltb read_size (length p))) [
    | inl long ↦
        rw long (_, [], p ∷ ps, [], refl, refl, sym (append-nil written), tt, too_long p ps long)
    | inr fits ↦ rw fits (after_unmarshal-Explained more p ps w written (unmarshal p) on refl)
  ]

  save_loop-packets :
      (prefer_packet : Bool) (ps : List Bytes) (f : ReceiveFlow) (w : R) (written : List P)
      → packets f ≡ ps
      → Ended f
      → Explained ps written
          (save_loop unmarshal write_rtp (suc (length ps)) prefer_packet f w written)
  unfolding save_loop
  save_loop-packets prefer_packet [] f w written e h =
      let (result, _) = read_items f read_size prefer_packet f.buffer.items refl h in
      rw result (rw e (_, [], [], [], refl, refl, sym (append-nil written), tt, all_read))
  save_loop-packets prefer_packet (p ∷ ps) f w written e h =
      let (result, left) = read_items f read_size prefer_packet f.buffer.items refl h in
      rw result (
        rw e (
          handed-Explained _ p ps w written (λ w' written'.
            save_loop-packets prefer_packet ps (read_call f read_size prefer_packet).0 w' written'
              (left ∙ ap tail e)
              (read_call-Ended f read_size prefer_packet f.buffer.items refl h))))

  -- On a closed flow without a deadline that has passed, the loop of `main` returns after at most one
  -- `Read` more than there are packets in the queue. The file then has, in order, the packets of the front
  -- of the queue, each as `Unmarshal` reads it. Where all of them are there, `main` returned on the
  -- `context.Canceled` of `Read`; otherwise the first that is not there is longer than the buffer, which
  -- also makes `main` return, or `Unmarshal` or `WriteRTP` failed on it, which makes it panic.
  pub saves_queue :
      (prefer_packet : Bool) (f : ReceiveFlow) (w : R)
      → Ended f
      → (out : Saved P R) × (done : List Bytes) × (rest : List Bytes) × (save_loop unmarshal
            write_rtp
            (suc (length (packets f)))
            prefer_packet
            f
            w
            []
          ≡ some out)
        × (packets f ≡ done ++ rest)
        × Unmarshals done out.written
        × Because rest out.ending
  saves_queue prefer_packet f w h =
      let (out, done, rest, new, e, split, same, u, why) =
        save_loop-packets prefer_packet (packets f) f w [] refl h in
      (out, done, rest, e, split, subst (Unmarshals done) (sym same) u, why)
