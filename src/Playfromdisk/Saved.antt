-- ===== src/Playfromdisk/Saved.antt =====
-- examples/playfromdisk/main.go and examples/savetodisk/main.go together: from the frames of a video to the
-- packets of a file.
use mathlib.Core.List.{nil≢cons, head-eq_of_cons-eq, tail-eq_of_cons-eq}
use mathlib.Core.Option.{some-ne-none}
use mathlib.Core.Path.{subst}
use roq.Common.{
  ℕ, suc, ◌<◌, ◌≤◌, ◌≡◌, ◌≢◌, refl, sym, ap, ◌∙◌, Bool, true, false, Option, none, some, List, [],
  ◌∷◌, ◌++◌, map, length, take, take_all, arith, ltb,
}
use roq.Common.Chan.{is_signalled, close_chan}
use roq.Errors.{Error, canceled}
use roq.Quicvarint.{Bytes, Quicvarint, IsQuicvarint, varint_limit}
use roq.Qlogger.{Qlogger}
use roq.SendFlow.{new_flow}
use roq.RtpSendStream.{SendStream, IsSendStream}
use roq.RtpSendStream.Run.{Fits}
use roq.ReceiveFlow.{ReceiveFlow, close, close_buffer, cancel_ctx}
use roq.ReceiveFlow.Queue.{IsOpen, packets, offer_all-take}
use roq.ReceiveFlow.Invariant.Closing.{close_lem}
use roq.Session.{Session}
use roq.Interop.Main.{Result, ok}
use roq.Interop.Sender.{Packetizer, Opening, stream_of}
use roq.Interop.Sender.Packets.{packetized, concat, Marshals}
use roq.Interop.EndToEnd.{Ready}
use roq.Interop.EndToEnd.Frames.{handle_streams, other_end, streams-Took}
use roq.Playfromdisk.{play}
use roq.Playfromdisk.Play.{play_lem}
use roq.Savetodisk.{Saved, Ending, logged, read_size, save_loop}
use roq.Savetodisk.Drain.{
  Ended, Unmarshals, Because, all_read, too_long, no_rtp, not_written, saves_queue,
}

-- A flow that was open, after its `Close`.
close-Ended :
    (f : ReceiveFlow)
    → IsOpen f
    → f.deadline_expired ≡ false
    → is_signalled f.signals f.deadline_ch ≡ false
    → Ended (close f).0
unfolding close close_buffer cancel_ctx close_chan
close-Ended f o calm quiet = record {
  chan_closed = ground arith;
  ctx_done = ground arith;
  not_expired = ground arith;
  not_woken = ground arith;
}

length-Marshals :
    {K P : Type 0}
    → (z : Packetizer K P) (ps : List P) (bufs : List Bytes) → Marshals z ps bufs
    → length bufs ≡ length ps
length-Marshals z [] [] m = refl
length-Marshals z [] (b ∷ bufs) m = absurd m
length-Marshals z (p ∷ ps) [] m = absurd m
length-Marshals z (p ∷ ps) (b ∷ bufs) m = ap suc (length-Marshals z ps bufs m.1)

module _ {K P R : Type 0} (z : Packetizer K P) (unmarshal : Bytes → Result P)
    (write_rtp : R → P → R × Option Error) where
  -- What pion's packets are taken to be: within the buffer of `Read`, and read back as they were.
  pub record IsRtp : Type 0 where
    pub within : (p : P) (b : Bytes) → z.marshal p ≡ some b → length b ≤ read_size
    pub reads_back : (p : P) (b : Bytes) → z.marshal p ≡ some b → unmarshal b ≡ ok p
    pub writes : (w : R) (p : P) → (write_rtp w p).1 ≡ none

  ok-injective : (p p' : P) → ok p ≡ ok p' → p ≡ p'
  ok-injective p p' e = cc

  ended_empty :
      (rest : List Bytes) (how : Ending)
      → Because unmarshal write_rtp rest how
      → rest ≡ []
      → how ≡ logged canceled
  ended_empty rest how all_read e = refl
  ended_empty rest how (too_long p ps _) e = absurd (nil≢cons (sym e))
  ended_empty rest how (no_rtp p ps er _) e = absurd (nil≢cons (sym e))
  ended_empty rest how (not_written p ps x w w' er _ _) e = absurd (nil≢cons (sym e))

  goes_on :
      (rtp : IsRtp) (p : P) (b : Bytes) (bufs rest : List Bytes) (how : Ending)
      → z.marshal p ≡ some b
      → Because unmarshal write_rtp rest how
      → rest ≢ b ∷ bufs
  goes_on rtp p b bufs rest how m all_read e = nil≢cons e
  goes_on rtp p b bufs rest how m (too_long c ps long) e =
      let long_b = subst (λ x. ltb read_size (length x) ≡ true) (head-eq_of_cons-eq e) long in
      let short = rtp.within p b m in ground arith
  goes_on rtp p b bufs rest how m (no_rtp c ps er bad) e =
      let same = head-eq_of_cons-eq e in let fine = rtp.reads_back p b m in cc
  goes_on rtp p b bufs rest how m (not_written c ps x w w' er _ bad) e =
      some-ne-none er (sym (ap (λ o. o.1) bad) ∙ rtp.writes w x)

  saved_all :
      (rtp : IsRtp) (ps : List P) (bufs done rest : List Bytes) (written : List P) (how : Ending)
      → Marshals z ps bufs
      → bufs ≡ done ++ rest
      → Unmarshals unmarshal write_rtp done written
      → Because unmarshal write_rtp rest how
      → (written ≡ ps) × (how ≡ logged canceled)
  saved_all rtp [] [] [] rest [] how m e u why = (refl, ended_empty rest how why (sym e))
  saved_all rtp [] [] [] rest (x ∷ xs) how m e u why = absurd u
  saved_all rtp [] [] (d ∷ done) rest written how m e u why = absurd (nil≢cons e)
  saved_all rtp [] (b ∷ bufs) done rest written how m e u why = absurd m
  saved_all rtp (p ∷ ps) [] done rest written how m e u why = absurd m
  saved_all rtp (p ∷ ps) (b ∷ bufs) [] rest written how m e u why =
      absurd (goes_on rtp p b bufs rest how m.0 why (sym e))
  saved_all rtp (p ∷ ps) (b ∷ bufs) (d ∷ done) rest [] how m e u why = absurd u
  saved_all rtp (p ∷ ps) (b ∷ bufs) (d ∷ done) rest (x ∷ xs) how m e u why =
      let (all, end) = saved_all rtp ps bufs done rest xs how m.1 (tail-eq_of_cons-eq e) u.1 why in
      let same : x ≡ p =
        ok-injective x p
          (sym u.0 ∙ ap unmarshal (sym (head-eq_of_cons-eq e)) ∙ rtp.reads_back p b m.0) in
      (ap (λ y. y ∷ xs) same ∙ ap (λ l. p ∷ l) all, end)

  module _ {S : Type 0} (q : Quicvarint) (qv : IsQuicvarint q) (i : SendStream S)
      (delivered : S → Bytes) (w : IsSendStream i delivered)
      (keeps : (s : S) → delivered (i.close s).0 ≡ delivered s) (open_stream : ℕ → Opening S)
      (fresh : (n : ℕ) (s : S) → open_stream n ≡ stream_of s → delivered s ≡ []) where
    rtp-Fits : IsRtp → (p : P) (b : Bytes) → z.marshal p ≡ some b → Fits b
    rtp-Fits rtp p b m = omega (arith, rtp.within p b m)

    -- From the frames that playfromdisk reads to the packets in the file of savetodisk. Each packet is at
    -- most 4096 bytes, `Unmarshal` gives it back, and `WriteRTP` takes every packet; the flow ID is below
    -- 2^62; what a stream delivered is left by its `Close`, and a new stream has delivered nothing. At the
    -- other end a flow under this ID is registered, open, live, empty, with room for all packets of the
    -- video, and without a deadline that has passed. Where the `main` of playfromdisk does not
    -- panic, handling its streams in the order of the frames returns, and after `Close` of the flow the
    -- loop of savetodisk ends on `context.Canceled`, with exactly the packets of the video in its file, in
    -- order.
    pub video_is_saved :
        (pick : ReceiveFlow → ℕ) (k : K) (frames : List Bytes) (ending : Option Error)
        (log : Option Qlogger) (id r : ℕ) (s : Session) (prefer_packet : Bool) (file : R)
        → IsRtp
        → id < varint_limit
        → Ready id r s
        → (s.receive_heap.obj r).ctx_done ≡ false
        → (s.receive_heap.obj r).deadline_expired ≡ false
        → is_signalled (s.receive_heap.obj r).signals (s.receive_heap.obj r).deadline_ch ≡ false
        → packets (s.receive_heap.obj r) ≡ []
        → length (concat (packetized z k frames)) ≤ (s.receive_heap.obj r).buffer.cap
        → let p = play z q i open_stream (new_flow q id log) 0 k frames ending in
          p.panicked ≡ none
          → (s' : Session) × (out : Saved P R) × (handle_streams q pick
                (map (other_end i delivered) p.streams)
                s
              ≡ some s')
            × (let f = (close (s'.receive_heap.obj r)).0 in
                save_loop unmarshal write_rtp (suc (length (packets f))) prefer_packet f file []
                ≡ some out)
            × (out.written ≡ concat (packetized z k frames))
            × (out.ending ≡ logged canceled)
    video_is_saved pick k frames ending log id r s prefer_packet file rtp small ready live calm
          quiet empty room okay =
        let f = s.receive_heap.obj r in
        let p = play z q i open_stream (new_flow q id log) 0 k frames ending in
        let ps = concat (packetized z k frames) in
        let fit = rtp-Fits rtp in
        let (carry, _) =
          play_lem z q qv i delivered w fit keeps open_stream fresh (new_flow q id log) 0 k frames
            ending okay in
        let (bufs, marshals, (s', handled, ready', _, _, (expired, woken), queued)) =
          streams-Took q qv pick id r small z i delivered log fit p.streams (packetized z k frames)
            s carry ready live in
        let f' = s'.receive_heap.obj r in
        let ended = close-Ended f' ready'.is_open (expired ∙ calm) (woken ∙ quiet) in
        let (out, done, rest, saved, split, u, why) =
          saves_queue unmarshal write_rtp prefer_packet (close f').0 file ended in
        let all : packets (close f').0 ≡ bufs =
          (close_lem f').2
          ∙ queued
          ∙ offer_all-take f.buffer.cap (packets f) bufs (rw empty (omega arith))
          ∙ ap (λ l. take f.buffer.cap (l ++ bufs)) empty
          ∙ take_all f.buffer.cap bufs (omega (arith, length-Marshals z ps bufs marshals)) in
        let (written, end) =
          saved_all rtp ps bufs done rest out.written out.ending marshals (sym all ∙ split) u why in
        (s', out, handled, saved, written, end)
