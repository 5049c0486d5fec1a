-- ===== src/Playfromdisk/Play.antt =====
-- examples/playfromdisk/main.go, up to the queue of the receive flow at the other end.
use mathlib.Core.Option.{some-ne-none}
use roq.Common.{
  ℕ, suc, ◌<◌, ◌≤◌, ◌≡◌, refl, Option, none, some, List, [], ◌∷◌, ◌++◌, map, length, take, false,
  ◌∙◌,
}
use roq.Errors.{Error}
use roq.Quicvarint.{Bytes, Quicvarint, IsQuicvarint, varint_limit}
use roq.Qlogger.{Qlogger}
use roq.SendFlow.{SendFlow, new_flow}
use roq.RtpSendStream.{SendStream, IsSendStream, RtpSendStream, new_rtp_send_stream}
use roq.RtpSendStream.Run.{Fits}
use roq.ReceiveFlow.{ReceiveFlow}
use roq.ReceiveFlow.Queue.{packets, offer_all-take}
use roq.Session.{Session}
use roq.Interop.Sender.{Packetizer, Opening, stream_of, open_fails, send_stream}
use roq.Interop.Sender.Packets.{packetized, concat, Marshals}
use roq.Interop.Sender.Modes.{Carries, CarryEach}
use roq.Interop.Sender.Going.{Progress-Carries, opened-Carries, close-Carries}
use roq.Interop.EndToEnd.{Ready}
use roq.Interop.EndToEnd.Frames.{handle_streams, other_end, streams-Took}
use roq.Playfromdisk.{Played, play, on_opening, after_packets}

module _ {K P S : Type 0} (z : Packetizer K P) (q : Quicvarint) (qv : IsQuicvarint q)
    (i : SendStream S) (delivered : S → Bytes) (w : IsSendStream i delivered)
    (fit : (p : P) (b : Bytes) → z.marshal p ≡ some b → Fits b)
    (keeps : (s : S) → delivered (i.close s).0 ≡ delivered s) (open_stream : ℕ → Opening S)
    (fresh : (n : ℕ) (s : S) → open_stream n ≡ stream_of s → delivered s ≡ []) where
  -- A run that came to the end of the video, each of whose streams carries the packets of its frame.
  abbrev PlayedAll : SendFlow → Played S → List (List P) → Option Error → Type 0
  PlayedAll f p pss ending = CarryEach z q delivered f p.streams pss × (ending ≡ none)

  abbrev none_sent : Bytes → Option Error
  none_sent b = none

  after_packets-PlayedAll :
      (f : SendFlow) (more : Played S) (ps : List P) (pss : List (List P)) (ending : Option Error)
      (x : RtpSendStream S × Option Error)
      → (x.1 ≡ none → Carries z q delivered f x.0 ps)
      → (more.panicked ≡ none → PlayedAll f more pss ending)
      → (after_packets z q i open_stream f more x).panicked ≡ none
      → PlayedAll f (after_packets z q i open_stream f more x) (ps ∷ pss) ending
  after_packets-PlayedAll f more ps pss ending (r, some e) sent rest ok = absurd (some-ne-none _ ok)
  after_packets-PlayedAll f more ps pss ending (r, none) sent rest ok =
      let (each, ended) = rest ok in
      (
        (
          close-Carries z q qv i delivered w fit keeps none_sent open_stream fresh f r ps
              (sent refl),
          each,
        ),
        ended,
      )

  on_opening-PlayedAll :
      (f : SendFlow) (more : Played S) (n : ℕ) (ps : List P) (pss : List (List P))
      (ending : Option Error) (o : Opening S)
      → open_stream n ≡ o
      → (more.panicked ≡ none → PlayedAll f more pss ending)
      → (on_opening z q i open_stream f more ps o).panicked ≡ none
      → PlayedAll f (on_opening z q i open_stream f more ps o) (ps ∷ pss) ending
  on_opening-PlayedAll f more n ps pss ending (open_fails e) opened rest ok =
      absurd (some-ne-none _ ok)
  on_opening-PlayedAll f more n ps pss ending (stream_of s) opened rest ok =
      let x = send_stream z q i (new_rtp_send_stream s f.id f.flow_id f.qlog) ps in
      after_packets-PlayedAll f more ps pss ending x
        (λ (fine : x.1 ≡ none).
          Progress-Carries z q qv i delivered w fit keeps none_sent open_stream fresh f x.0 ps (
            opened-Carries z q qv i delivered w fit keeps none_sent open_stream fresh f n s ps
              opened fine))
        rest ok

  -- Where `main` does not panic, each frame's packets are on a stream of its own.
  pub play_lem :
      (f : SendFlow) (n : ℕ) (k : K) (frames : List Bytes) (ending : Option Error)
      → (play z q i open_stream f n k frames ending).panicked ≡ none
      → CarryEach z q delivered f
          (play z q i open_stream f n k frames ending).streams
          (packetized z k frames)
        × (ending ≡ none)
  unfolding play
  play_lem f n k [] ending ok = (tt, ok)
  play_lem f n k (x ∷ xs) ending ok =
      let (k', ps) = z.packetize k x in
      on_opening-PlayedAll f (play z q i open_stream f (suc n) k' xs ending) n ps
        (packetized z k' xs) ending (open_stream n) refl (play_lem f (suc n) k' xs ending) ok

  -- From playfromdisk to the queue of a receive flow. Each packet is below 2^62 bytes, the flow ID too, what
  -- a stream delivered is left by its `Close`, a new stream has delivered nothing, and at the other end a
  -- flow under this ID is registered, open, live and within its capacity. Where `main` does not panic,
  -- handling its streams in the order of the frames, each with the bytes that it delivered and its end,
  -- returns, whether their `Close` failed or not, and the queue then holds what it held before and then
  -- all packets of the video, in order, as far as it has room.
  pub play_reaches_receiver :
      (pick : ReceiveFlow → ℕ) (k : K) (frames : List Bytes) (ending : Option Error)
      (log : Option Qlogger) (id r : ℕ) (s : Session)
      → id < varint_limit
      → Ready id r s
      → (s.receive_heap.obj r).ctx_done ≡ false
      → length (packets (s.receive_heap.obj r)) ≤ (s.receive_heap.obj r).buffer.cap
      → let p = play z q i open_stream (new_flow q id log) 0 k frames ending in
        let f = s.receive_heap.obj r in
        p.panicked ≡ none
        → (s' : Session) × (bufs : List Bytes) × Marshals z (concat (packetized z k frames)) bufs
          × (handle_streams q pick (map (other_end i delivered) p.streams) s ≡ some s')
          × (packets (s'.receive_heap.obj r) ≡ take f.buffer.cap (packets f ++ bufs))
  play_reaches_receiver pick k frames ending log id r s small ready live room ok =
      let f = s.receive_heap.obj r in
      let p = play z q i open_stream (new_flow q id log) 0 k frames ending in
      let (carry, _) = play_lem (new_flow q id log) 0 k frames ending ok in
      let (bufs, marshals, (s', done, _, _, _, _, queued)) =
        streams-Took q qv pick id r small z i delivered log fit p.streams (packetized z k frames) s
          carry ready live in
      (s', bufs, marshals, done, queued ∙ offer_all-take f.buffer.cap (packets f) bufs room)
