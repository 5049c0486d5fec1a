-- ===== src/Interop/EndToEnd.antt =====
-- A video from examples/interop/sender.go to the queue of a receive flow of session.go.
pub mod Frames
mod Tests
use mathlib.Core.Path.{subst}
use roq.Common.{
  ℕ, ◌<◌, ◌≤◌, ◌≡◌, ◌≢◌, refl, sym, ap, ◌∙◌, Bool, true, false, Option, none, some, List, [], ◌∷◌,
  ◌++◌, map, length, take, All, arith, append-nil, ==_refl,
}
use roq.Common.Heap.{store}
use roq.Errors.{Error}
use roq.Quicvarint.{Bytes, Quicvarint, IsQuicvarint, varint_limit}
use roq.Qlogger.{Qlogger}
use roq.RtpSendStream.{SendStream, IsSendStream, RtpSendStream}
use roq.RtpSendStream.Wire.{frames}
use roq.RtpSendStream.Run.{Fits, stream_bytes}
use roq.SendFlow.{SendFlow, new_flow}
use roq.ReceiveFlow.{ReceiveFlow}
use roq.ReceiveFlow.Queue.{
  packets, IsOpen, Keeps, accept, accept-Keeps, accept-packets, offer, offer_all, offer_all-take,
}
use roq.ReceiveFlow.Frames.{finished}
use roq.SyncMap.{get}
use roq.Session.{Session}
use roq.Session.Shutdown.{Transport}
use roq.Session.Incoming.{handle_uni_stream, then_handle, handle_datagrams}
use roq.Session.Datagrams.{logged, taken, handle_sent, taken-packets}
use roq.Session.Flows.{receive_flow_known}
use roq.Session.Streams.{handle_uni_stream-frames}
use roq.Interop.Sender.{
  datagram_mode, single_stream_mode, Video, Packetizer, Opening, stream_of, send,
}
use roq.Interop.Sender.Packets.{packetized, concat, Marshals}
use roq.Interop.Sender.Send.{send_lem}

-- The flow at an address is registered under an ID, takes packets, and is within its capacity.
pub record Ready (id r : ℕ) (s : Session) : Type 0 where
  pub known : get s.receive_flows id ≡ some r
  pub is_open : IsOpen (s.receive_heap.obj r)

module _ (q : Quicvarint) (qv : IsQuicvarint q) (t : Transport) (choice : Session → ℕ) (id r : ℕ)
    (small : id < varint_limit) where
  taken-Ready :
      (n : ℕ) (s : Session) (p : Bytes)
      → Ready id r s
      → Ready id r (taken n r p s)
        × ((taken n r p s).receive_heap.obj r).buffer.cap ≡ (s.receive_heap.obj r).buffer.cap
  taken-Ready n s p h =
      let k = accept-Keeps n (s.receive_heap.obj r) p in
      rw (==_refl r) (
        record {
          known = h.known;
          is_open = rw (==_refl r) (record {
            not_closed = k.same_closed ∙ h.is_open.not_closed;
            chan_open = k.same_chan_state ∙ h.is_open.chan_open;
          });
        },
        k.same_cap,
      )

  -- Each datagram of a flow stands for an offer of its packet to the queue.
  handle_datagrams-packets :
      (bufs : List Bytes) (s : Session)
      → Ready id r s
      → (s' : Session) × (handle_datagrams q t choice (map (λ b. q.append [] id ++ b) bufs) s
          ≡ some s')
        × (packets (s'.receive_heap.obj r)
            ≡ offer_all (s.receive_heap.obj r).buffer.cap (packets (s.receive_heap.obj r)) bufs)
  unfolding handle_datagrams
  handle_datagrams-packets [] s h = (s, refl, refl)
  handle_datagrams-packets (b ∷ bufs) s h =
      let s1 = logged s (q.append [] id ++ b) id (q.len id) in
      let s2 = taken (choice s) r b s1 in
      let f = s.receive_heap.obj r in
      let handled =
        handle_sent q qv t (choice s) s s1 id r b small (receive_flow_known s1 id r h.known) in
      let (ready, same_cap) =
        taken-Ready (choice s) s1 b (record { known = h.known; is_open = h.is_open }) in
      let (s', done, queued) = handle_datagrams-packets bufs s2 ready in
      (
        s',
        ap (then_handle (handle_datagrams q t choice (map (λ x. q.append [] id ++ x) bufs))) handled
            ∙ done,
        queued
            ∙ ap (λ c. offer_all c (packets (s2.receive_heap.obj r)) bufs) same_cap
            ∙ ap (λ l. offer_all f.buffer.cap l bufs) (taken-packets (choice s) r b s1 h.is_open),
      )

pub Marshals-Fits :
    {K P : Type 0}
    → (z : Packetizer K P) → ((p : P) (b : Bytes) → z.marshal p ≡ some b → Fits b)
    → (ps : List P) (bufs : List Bytes) → Marshals z ps bufs
    → All Fits bufs
Marshals-Fits z fit [] [] m = tt
Marshals-Fits z fit [] (b ∷ bufs) m = absurd m
Marshals-Fits z fit (p ∷ ps) [] m = absurd m
Marshals-Fits z fit (p ∷ ps) (b ∷ bufs) m = (fit p b m.0, Marshals-Fits z fit ps bufs m.1)

stream_bytes_some :
    {K P : Type 0}
    → (z : Packetizer K P) (q : Quicvarint) (ahead : Bytes) (ps : List P) (bufs : List Bytes)
    → Marshals z ps bufs
    → ps ≢ []
    → stream_bytes q ahead bufs ≡ ahead ++ frames q bufs
stream_bytes_some z q ahead [] bufs m some_packets = absurd (some_packets refl)
stream_bytes_some z q ahead (p ∷ ps) [] m some_packets = absurd m
stream_bytes_some z q ahead (p ∷ ps) (b ∷ bufs) m some_packets = refl

module _ {K P S : Type 0} (z : Packetizer K P) (q : Quicvarint) (qv : IsQuicvarint q)
    (i : SendStream S) (delivered : S → Bytes) (w : IsSendStream i delivered)
    (fit : (p : P) (b : Bytes) → z.marshal p ≡ some b → Fits b)
    (keeps : (s : S) → delivered (i.close s).0 ≡ delivered s) (send_datagram : Bytes → Option Error)
    (open_stream : ℕ → Opening S)
    (fresh : (n : ℕ) (s : S) → open_stream n ≡ stream_of s → delivered s ≡ []) where
  -- From `send` with datagrams to the queue that `Read` takes from. Each packet is below 2^62 bytes, the
  -- flow ID too, the streams keep the promises that `send` needs, and at the other end a flow under this
  -- ID is registered, open and within its capacity. Where `send` returns nil, handling the
  -- datagrams that it sent, all of them and in order, does not panic, and the queue then holds what it
  -- held before and then all packets of the video, in order, as far as it has room.
  pub datagrams_reach_receiver :
      (t : Transport) (choice : Session → ℕ) (k : K) (video : Video) (log : Option Qlogger)
      (id r : ℕ) (s : Session)
      → id < varint_limit
      → Ready id r s
      → length (packets (s.receive_heap.obj r)) ≤ (s.receive_heap.obj r).buffer.cap
      → let st = send z q i send_datagram open_stream (new_flow q id log) datagram_mode k video in
        let f = s.receive_heap.obj r in
        st.err ≡ none
        → (s' : Session) × (bufs : List Bytes) × Marshals z
            (concat (packetized z k video.frames))
            bufs
          × (handle_datagrams q t choice st.datagrams s ≡ some s')
          × (packets (s'.receive_heap.obj r) ≡ take f.buffer.cap (packets f ++ bufs))
  unfolding new_flow
  datagrams_reach_receiver t choice k video log id r s small ready room ok =
      let f = s.receive_heap.obj r in
      let ((bufs, marshals, sent), _, _) =
        send_lem z q qv i delivered w fit keeps send_datagram open_stream fresh (new_flow q id log)
          datagram_mode k video ok in
      let (s', done, queued) = handle_datagrams-packets q qv t choice id r small bufs s ready in
      (
        s',
        bufs,
        marshals,
        ap (λ ds. handle_datagrams q t choice ds s) sent ∙ done,
        queued ∙ offer_all-take f.buffer.cap (packets f) bufs room,
      )

  -- From `send` on a single stream to the queue that `Read` takes from. Each packet is below 2^62 bytes,
  -- the flow ID too, the video has a packet, the streams keep the promises that `send` needs, and at the
  -- other end a flow under this ID is registered, open, live and within its capacity. Where `send` returns
  -- nil, `handleUniStream` returns on the bytes that the stream delivered, followed by its end, and the
  -- queue then holds what it held before and then all packets of the video, in order, as far as it has
  -- room.
  pub single_stream_reaches_receiver :
      (pick : ReceiveFlow → ℕ) (k : K) (video : Video) (log : Option Qlogger) (id r stream_id : ℕ)
      (s : Session)
      → id < varint_limit
      → Ready id r s
      → (s.receive_heap.obj r).ctx_done ≡ false
      → length (packets (s.receive_heap.obj r)) ≤ (s.receive_heap.obj r).buffer.cap
      → concat (packetized z k video.frames) ≢ []
      → let st =
          send z q i send_datagram open_stream (new_flow q id log) single_stream_mode k video in
        let f = s.receive_heap.obj r in
        st.err ≡ none
        → (x : RtpSendStream S) × (s' : Session) × (bufs : List Bytes) × (st.single ≡ some x)
          × Marshals z (concat (packetized z k video.frames)) bufs
          × (handle_uni_stream q pick s
                (record { id = stream_id; content = delivered x.stream; ending = finished })
              ≡ some s')
          × (packets (s'.receive_heap.obj r) ≡ take f.buffer.cap (packets f ++ bufs))
  unfolding new_flow
  single_stream_reaches_receiver pick k video log id r stream_id s small ready live room
        some_packets ok =
      let (x, single, (bufs, marshals, wire, _), _, _) =
        send_lem z q qv i delivered w fit keeps send_datagram open_stream fresh (new_flow q id log)
          single_stream_mode k video ok in
      let ps = concat (packetized z k video.frames) in
      let (s', done, queued) =
        handle_uni_stream-frames q qv pick s id r
          (record { id = stream_id; content = delivered x.stream; ending = finished }) bufs small
          (wire ∙ stream_bytes_some z q (q.append [] id) ps bufs marshals some_packets) refl
          (Marshals-Fits z fit ps bufs marshals) ready.known ready.is_open live room in
      (x, s', bufs, single, marshals, done, queued)
