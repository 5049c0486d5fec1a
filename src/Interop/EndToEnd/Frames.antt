-- ===== src/Interop/EndToEnd/Frames.antt =====
-- A video on a stream for each frame, from examples/interop/sender.go to the queue of a receive flow.
use roq.Common.{
  ℕ, ◌<◌, ◌≤◌, ◌≡◌, refl, sym, ap, ◌∙◌, false, Option, none, some, List, [], ◌∷◌, ◌++◌, map, length,
  take, All, ==_refl,
}
use roq.Common.Chan.{is_signalled}
use roq.Common.GoMap.{insert}
use roq.Errors.{Error}
use roq.Quicvarint.{Bytes, Quicvarint, IsQuicvarint, varint_limit}
use roq.Qlogger.{Qlogger}
use roq.RtpSendStream.{SendStream, IsSendStream, RtpSendStream}
use roq.RtpSendStream.Wire.{frames}
use roq.RtpSendStream.Run.{Fits, stream_bytes}
use roq.SendFlow.{new_flow}
use roq.ReceiveFlow.{ReceiveFlow, unregister}
use roq.ReceiveFlow.Queue.{packets, offer, offer_all, offer_all-take}
use roq.ReceiveFlow.Frames.{ReceiveStream, StreamRead, silent, finished}
use roq.ReceiveFlow.Frames.RoundTrip.{
  accept_all, accept_all-Keeps, accept_all-packets, events_all, read_stream_live,
  read_registered-frames,
}
use roq.Session.{Session}
use roq.Session.Incoming.{handle_uni_stream, handle_read}
use roq.Session.Flows.{receive_flow_known}
use roq.Session.Streams.{opened, after_read, handle_uni_stream_reads, read-frames}
use roq.Interop.Sender.{stream_per_frame_mode, Video, Packetizer, Opening, stream_of, send}
use roq.Interop.Sender.Packets.{packetized, concat, Marshals, Marshals-append}
use roq.Interop.Sender.Modes.{CarryEach}
use roq.Interop.Sender.Send.{send_lem}
use roq.Interop.EndToEnd.{Ready, Marshals-Fits}
use roq.Session.Incoming.{then_handle}

-- The streams of the peer one after the other, each to its end.
unfoldable pub handle_streams :
    Quicvarint → (ReceiveFlow → ℕ) → List ReceiveStream → Session → Option Session
handle_streams q pick [] s = some s
handle_streams q pick (rs ∷ more) s =
    then_handle (handle_streams q pick more) (handle_uni_stream q pick s rs)

-- What the other end of a stream yields, with the ID that both ends give it.
abbrev pub other_end : {S : Type 0} → SendStream S → (S → Bytes) → RtpSendStream S → ReceiveStream
other_end i delivered r = record {
  id = i.id r.stream;
  content = delivered r.stream;
  ending = finished;
}

offer_all-append :
    (cap : ℕ) (ps rs qs : List Bytes)
    → offer_all cap qs (ps ++ rs) ≡ offer_all cap (offer_all cap qs ps) rs
offer_all-append cap [] rs qs = refl
offer_all-append cap (p ∷ ps) rs qs = offer_all-append cap ps rs (offer cap qs p)

-- The deadline of a flow is as expired, and its waiting readers as woken, as those of another.
abbrev pub SameDeadline : ReceiveFlow → ReceiveFlow → Type 0
SameDeadline f g =
    (g.deadline_expired ≡ f.deadline_expired)
    × (is_signalled g.signals g.deadline_ch ≡ is_signalled f.signals f.deadline_ch)

module _ (q : Quicvarint) (qv : IsQuicvarint q) (pick : ReceiveFlow → ℕ) (id r : ℕ)
    (small : id < varint_limit) where
  -- The session handled what stands for these packets, and is ready for more.
  abbrev pub Took : Session → List Bytes → Option Session → Type 0
  Took s ps o =
      let f = s.receive_heap.obj r in
      (s' : Session) × (o ≡ some s')
      × Ready id r s'
      × ((s'.receive_heap.obj r).ctx_done ≡ false)
      × ((s'.receive_heap.obj r).buffer.cap ≡ f.buffer.cap)
      × SameDeadline f (s'.receive_heap.obj r)
      × (packets (s'.receive_heap.obj r) ≡ offer_all f.buffer.cap (packets f) ps)

  -- A stream with the flow ID and the frames of packets.
  stream-Took :
      (s : Session) (rs : ReceiveStream) (ps : List Bytes)
      → Ready id r s
      → (s.receive_heap.obj r).ctx_done ≡ false
      → rs.content ≡ q.append [] id ++ frames q ps
      → rs.ending ≡ finished
      → All Fits ps
      → Took s ps (handle_uni_stream q pick s rs)
  unfolding handle_uni_stream unregister
  stream-Took s rs ps h live content ending fits =
      let s0 = opened s id rs.id in
      let f : ReceiveFlow = record (s.receive_heap.obj r) {
        streams = insert rs.id tt (s.receive_heap.obj r).streams;
      } in
      let rest : ReceiveStream = record rs { content = frames q ps } in
      let read : StreamRead = record {
        flow = unregister (accept_all pick f ps) rs.id;
        log = silent;
        events = events_all q qv pick f rs.id ps;
        cancelled = [];
      } in
      let done =
        read_stream_live q pick (s.receive_heap.obj r) rest live
        ∙ read_registered-frames q qv pick f rest ps refl ending fits in
      let k = accept_all-Keeps pick f ps in
      (
        after_read r read s0,
        ap (handle_read q pick s rs) (read-frames q qv id rs.content ps small content)
            ∙ handle_uni_stream_reads q pick s s0 id r rest read
                (receive_flow_known s0 id r h.known) done,
        record {
          known = h.known;
          is_open = rw (==_refl r) (record {
            not_closed = k.same_closed ∙ h.is_open.not_closed;
            chan_open = k.same_chan_state ∙ h.is_open.chan_open;
          });
        },
        rw (==_refl r) (k.same_ctx ∙ live),
        rw (==_refl r) k.same_cap,
        rw (==_refl r) (k.same_expired, rw (k.same_signals, k.same_deadline_ch) refl),
        rw (==_refl r) (
            accept_all-packets pick f ps
              (record { not_closed = h.is_open.not_closed; chan_open = h.is_open.chan_open })),
      )

  -- A stream that ended with no byte on it is cancelled.
  empty-Took :
      (s : Session) (rs : ReceiveStream)
      → Ready id r s
      → (s.receive_heap.obj r).ctx_done ≡ false
      → rs.content ≡ []
      → Took s [] (handle_uni_stream q pick s rs)
  unfolding handle_uni_stream
  empty-Took s rs h live content = (
    _,
    ap (handle_read q pick s rs) (ap q.read content ∙ qv.read_fails [] qv.parse-nil),
    record { known = h.known; is_open = h.is_open },
    live,
    refl,
    (refl, refl),
    refl,
  )

  carried-Took :
      (s : Session) (rs : ReceiveStream) (bufs : List Bytes)
      → Ready id r s
      → (s.receive_heap.obj r).ctx_done ≡ false
      → rs.content ≡ stream_bytes q (q.append [] id) bufs
      → rs.ending ≡ finished
      → All Fits bufs
      → Took s bufs (handle_uni_stream q pick s rs)
  carried-Took s rs [] h live content ending fits = empty-Took s rs h live content
  carried-Took s rs (b ∷ bufs) h live content ending fits =
      stream-Took s rs (b ∷ bufs) h live content ending fits

  -- One stream, and then the others.
  then-Took :
      (Carried : List Bytes → Type 0) (s : Session) (rs : ReceiveStream) (more : List ReceiveStream)
      (bufs : List Bytes)
      → Took s bufs (handle_uni_stream q pick s rs)
      → ((s' : Session)
          → Ready id r s'
          → (s'.receive_heap.obj r).ctx_done ≡ false
          → (others : List Bytes) × Carried others × Took s' others (handle_streams q pick more s'))
      → (others : List Bytes) × Carried others
        × Took s (bufs ++ others) (handle_streams q pick (rs ∷ more) s)
  unfolding handle_streams
  then-Took Carried s rs more bufs (s1, e, h, live, same_cap, (expired, woken), took) rest =
      let f = s.receive_heap.obj r in
      let (others, carried, then_took) = rest s1 h live in
      let (s2, e', h', live', same_cap', (expired', woken'), took') = then_took in
      (
        others,
        carried,
        (
          s2,
          ap (then_handle (handle_streams q pick more)) e ∙ e',
          h',
          live',
          same_cap' ∙ same_cap,
          (expired' ∙ expired, woken' ∙ woken),
          took'
              ∙ ap (λ c. offer_all c (packets (s1.receive_heap.obj r)) others) same_cap
              ∙ ap (λ l. offer_all f.buffer.cap l others) took
              ∙ sym (offer_all-append f.buffer.cap bufs others (packets f)),
        ),
      )

  module _ {K P S : Type 0} (z : Packetizer K P) (i : SendStream S) (delivered : S → Bytes)
      (log : Option Qlogger) (fit : (p : P) (b : Bytes) → z.marshal p ≡ some b → Fits b) where
    pub streams-Took :
        (rs : List (RtpSendStream S)) (pss : List (List P)) (s : Session)
        → CarryEach z q delivered (new_flow q id log) rs pss
        → Ready id r s
        → (s.receive_heap.obj r).ctx_done ≡ false
        → (bufs : List Bytes) × Marshals z (concat pss) bufs
          × Took s bufs (handle_streams q pick (map (other_end i delivered) rs) s)
    unfolding new_flow handle_streams
    streams-Took [] [] s c h live = ([], tt, (s, refl, h, live, refl, (refl, refl), refl))
    streams-Took [] (ps ∷ pss) s c h live = absurd c
    streams-Took (x ∷ rs) [] s c h live = absurd c
    streams-Took (x ∷ rs) (ps ∷ pss) s ((bufs, m, wire, _), c) h live =
        let (others, m', took) =
          then-Took (Marshals z (concat pss)) s (other_end i delivered x)
            (map (other_end i delivered) rs) bufs
            (carried-Took s (other_end i delivered x) bufs h live wire refl
              (Marshals-Fits z fit ps bufs m))
            (λ s' h' live'. streams-Took rs pss s' c h' live') in
        (bufs ++ others, Marshals-append z ps (concat pss) bufs others m m', took)

module _ {K P S : Type 0} (z : Packetizer K P) (q : Quicvarint) (qv : IsQuicvarint q)
    (i : SendStream S) (delivered : S → Bytes) (w : IsSendStream i delivered)
    (fit : (p : P) (b : Bytes) → z.marshal p ≡ some b → Fits b)
    (keeps : (s : S) → delivered (i.close s).0 ≡ delivered s) (send_datagram : Bytes → Option Error)
    (open_stream : ℕ → Opening S)
    (fresh : (n : ℕ) (s : S) → open_stream n ≡ stream_of s → delivered s ≡ []) where
  -- From `send` with a stream for each frame to the queue that `Read` takes from. Each packet is below 2^62
  -- bytes, the flow ID too, the streams keep the promises that `send` needs, and at the other end a flow
  -- under this ID is registered, open, live and within its capacity. Where `send` returns nil, handling the
  -- streams that it opened in the order of the frames, each with the bytes that it delivered and its end,
  -- returns, and the queue then holds what it held before and then all packets of the video, in order, as
  -- far as it has room.
  pub streams_reach_receiver :
      (pick : ReceiveFlow → ℕ) (k : K) (video : Video) (log : Option Qlogger) (id r : ℕ)
      (s : Session)
      → id < varint_limit
      → Ready id r s
      → (s.receive_heap.obj r).ctx_done ≡ false
      → length (packets (s.receive_heap.obj r)) ≤ (s.receive_heap.obj r).buffer.cap
      → let st =
          send z q i send_datagram open_stream (new_flow q id log) stream_per_frame_mode k video in
        let f = s.receive_heap.obj r in
        st.err ≡ none
        → (s' : Session) × (bufs : List Bytes) × Marshals z
            (concat (packetized z k video.frames))
            bufs
          × (handle_streams q pick (map (other_end i delivered) st.per_frame) s ≡ some s')
          × (packets (s'.receive_heap.obj r) ≡ take f.buffer.cap (packets f ++ bufs))
  streams_reach_receiver pick k video log id r s small ready live room ok =
      let f = s.receive_heap.obj r in
      let st =
        send z q i send_datagram open_stream (new_flow q id log) stream_per_frame_mode k video in
      let (carry, _, _) =
        send_lem z q qv i delivered w fit keeps send_datagram open_stream fresh (new_flow q id log)
          stream_per_frame_mode k video ok in
      let (bufs, marshals, (s', done, _, _, _, _, queued)) =
        streams-Took q qv pick id r small z i delivered log fit st.per_frame
          (packetized z k video.frames) s carry ready live in
      (s', bufs, marshals, done, queued ∙ offer_all-take f.buffer.cap (packets f) bufs room)
