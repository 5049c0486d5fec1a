-- ===== src/Session/Streams.antt =====
-- `HandleUniStreamWithFlowID` and `handleUniStream` of session.go: what becomes of a stream.
use mathlib.Core.Path.{subst}
use roq.Common.{
  All, ℕ, ◌≤◌, ◌<◌, ◌≡◌, inl, inr, refl, sym, ap, ◌∙◌, false, Option, some, List, [], ◌∷◌, ◌++◌,
  Option-cases, Bool-cases, ==_refl, length, drop, take, drop-append_length, append-nil,
}
use roq.Common.Heap.{store}
use roq.Qlog.{stream_opened}
use roq.Qlogger.{Qlogger, recorded}
use roq.Quicvarint.{Bytes, Quicvarint, IsQuicvarint, varint_limit}
use roq.ReceiveFlow.{ReceiveFlow}
use roq.ReceiveFlow.Queue.{IsOpen, packets}
use roq.ReceiveFlow.Frames.{ReceiveStream, StreamRead, read_stream, finished}
use roq.ReceiveFlow.Frames.RoundTrip.{read_stream-frames}
use roq.ReceiveFlow.Frames.Total.{read_stream-total}
use roq.RtpSendStream.{
  SendStream, IsSendStream, RtpSendStream, new_rtp_send_stream, write_rtp_bytes,
}
use roq.RtpSendStream.Wire.{frames, flushes}
use roq.RtpSendStream.Run.{Fits, send_all, accepted, stream_bytes, delivered-send_all}
use roq.SyncMap.{get}
use roq.Session.{Session}
use roq.Session.Incoming.{
  receive_flow, read_into, read_stream_of, handle_uni_stream_with_flow_id, handle_read,
  handle_uni_stream,
}
use roq.Session.Flows.{IsValid, same_IsValid, receive_flow_known, receive_flow-IsValid}

-- The session with the event of a stream that was opened.
abbrev pub opened : Session → ℕ → ℕ → Session
opened s id stream = record s {
  events = s.events ++ recorded s.qlog (λ _. stream_opened id stream);
}

-- The session after the flow at an address read a stream.
abbrev pub after_read : ℕ → StreamRead → Session → Session
after_read r read s = record s {
  receive_heap = store r read.flow s.receive_heap;
  events = s.events ++ read.events;
  cancelled = s.cancelled ++ read.cancelled;
}

pub handle_uni_stream_reads :
    (q : Quicvarint) (pick : ReceiveFlow → ℕ) (s s1 : Session) (id r : ℕ) (rs : ReceiveStream)
    (read : StreamRead)
    → receive_flow (opened s id rs.id) id ≡ some (s1, r)
    → read_stream q pick (s1.receive_heap.obj r) rs ≡ some read
    → handle_uni_stream_with_flow_id q pick s id rs ≡ some (after_read r read s1)
unfolding handle_uni_stream_with_flow_id
handle_uni_stream_reads q pick s s1 id r rs read served done =
    ap (read_stream_of q pick rs) served ∙ ap (read_into r s1) done

-- `HandleUniStreamWithFlowID` returns on every stream that ends, whatever its bytes are, and keeps the
-- session valid.
pub handle_uni_stream_with_flow_id-IsValid :
    (q : Quicvarint) (pick : ReceiveFlow → ℕ) (s : Session) (id : ℕ) (rs : ReceiveStream)
    → IsValid s
    → (s' : Session) × (handle_uni_stream_with_flow_id q pick s id rs ≡ some s') × IsValid s'
handle_uni_stream_with_flow_id-IsValid q pick s id rs v =
    let s0 = opened s id rs.id in
    let (s1, r, served, w, _, _) = receive_flow-IsValid s0 id (same_IsValid s s0 refl refl v) in
    let (read, done, _) = read_stream-total q pick (s1.receive_heap.obj r) rs in
    (
      after_read r read s1,
      handle_uni_stream_reads q pick s s1 id r rs read served done,
      same_IsValid s1 (after_read r read s1) refl refl w,
    )

-- On a valid session `handleUniStream` returns on every stream that ends, whatever its bytes are, and
-- keeps the session valid.
pub handle_uni_stream-IsValid :
    (q : Quicvarint) (pick : ReceiveFlow → ℕ) (s : Session) (rs : ReceiveStream)
    → IsValid s
    → (s' : Session) × (handle_uni_stream q pick s rs ≡ some s') × IsValid s'
unfolding handle_uni_stream
handle_uni_stream-IsValid q pick s rs v = elim (Option-cases (q.read rs.content)) [
  | inl bad ↦ (_, ap (handle_read q pick s rs) bad, same_IsValid s _ refl refl v)
  | inr ((id, rest), named) ↦
      let (s', done, w) =
        handle_uni_stream_with_flow_id-IsValid q pick s id (record rs { content = rest }) v in
      (s', ap (handle_read q pick s rs) named ∙ done, w)
]

accepted-Fits :
    {S : Type 0} (q : Quicvarint) (i : SendStream S) (s : RtpSendStream S) (ps : List Bytes)
    → All Fits ps
    → All Fits (accepted q i s ps)
unfolding accepted
accepted-Fits q i s [] h = h
accepted-Fits q i s (p ∷ ps) h = elim (Bool-cases (flushes i s)) [
  | inl ok ↦ rw ok (h.0, accepted-Fits q i (write_rtp_bytes q i s p).self ps h.1)
  | inr refused ↦ rw refused (accepted-Fits q i (write_rtp_bytes q i s p).self ps h.1)
]

fresh-accepted :
    {S : Type 0} (q : Quicvarint) (i : SendStream S) (stream : S) (id : ℕ) (bytes : Bytes)
    (log : Option Qlogger) (p : Bytes) (ps : List Bytes)
    → let s = new_rtp_send_stream stream id bytes log in
      accepted q i s (p ∷ ps) ≡ p ∷ accepted q i (write_rtp_bytes q i s p).self ps
unfolding accepted flushes new_rtp_send_stream
fresh-accepted q i stream id bytes log p ps = refl

-- `Read` of the flow ID, ahead of the frames of packets.
pub read-frames :
    (q : Quicvarint) (qv : IsQuicvarint q) (id : ℕ) (content : Bytes) (ps : List Bytes)
    → id < varint_limit
    → content ≡ q.append [] id ++ frames q ps
    → q.read content ≡ some (id, frames q ps)
read-frames q qv id content ps small e =
    let whole = q.append [] id ++ frames q ps in
    let tail : drop (q.len id) whole ≡ frames q ps =
      ap (λ n. drop n whole) (sym (qv.length-append id small))
      ∙ drop-append_length (q.append [] id) (frames q ps) in
    ap q.read e
    ∙ qv.read-parse whole id (q.len id) (qv.parse-append id (frames q ps) small)
    ∙ ap (λ b. some (id, b)) tail

-- A stream with a flow ID of its flow and frames of packets.
pub handle_uni_stream-frames :
    (q : Quicvarint) (qv : IsQuicvarint q) (pick : ReceiveFlow → ℕ) (s : Session) (id r : ℕ)
    (rs : ReceiveStream) (ps : List Bytes)
    → id < varint_limit
    → rs.content ≡ q.append [] id ++ frames q ps
    → rs.ending ≡ finished
    → All Fits ps
    → get s.receive_flows id ≡ some r
    → let f = s.receive_heap.obj r in
      IsOpen f
      → f.ctx_done ≡ false
      → length (packets f) ≤ f.buffer.cap
      → (s' : Session) × (handle_uni_stream q pick s rs ≡ some s')
        × (packets (s'.receive_heap.obj r) ≡ take f.buffer.cap (packets f ++ ps))
unfolding handle_uni_stream
handle_uni_stream-frames q qv pick s id r rs ps small content ending h known o live room =
    let s0 = opened s id rs.id in
    let rest : ReceiveStream = record rs { content = frames q ps } in
    let (read, done, queued, _, _, _) =
      read_stream-frames q qv pick (s.receive_heap.obj r) rest ps o live room refl ending h in
    let named = read-frames q qv id rs.content ps small content in
    (
      after_read r read s0,
      ap (handle_read q pick s rs) named
          ∙ handle_uni_stream_reads q pick s s0 id r rest read (receive_flow_known s0 id r known)
              done,
      rw (==_refl r) queued,
    )

-- From `WriteRTPBytes` to the queue that `Read` takes from. The flow ID and the packets' lengths are
-- below 2^62, and the receive flow under this ID is open, live and within its capacity. Whatever each
-- `Write` accepted, once nothing is pending and the stream has ended, `handleUniStream` returns, and
-- the flow's queue holds what it held before and then the packets that were accepted, in the order of
-- the calls, as far as it has room. The packet of the first call is among them.
pub stream_end_to_end :
    {S : Type 0} (q : Quicvarint) (qv : IsQuicvarint q) (i : SendStream S) (delivered : S → Bytes)
    (w : IsSendStream i delivered) (stream : S) (id r stream_id : ℕ) (log : Option Qlogger)
    (p : Bytes) (ps : List Bytes) (pick : ReceiveFlow → ℕ) (s : Session)
    → id < varint_limit
    → delivered stream ≡ []
    → All Fits (p ∷ ps)
    → (send_all q i (new_rtp_send_stream stream id (q.append [] id) log) (p ∷ ps)).pending ≡ []
    → get s.receive_flows id ≡ some r
    → IsOpen (s.receive_heap.obj r)
    → (s.receive_heap.obj r).ctx_done ≡ false
    → length (packets (s.receive_heap.obj r)) ≤ (s.receive_heap.obj r).buffer.cap
    → let f = s.receive_heap.obj r in
      let sender = new_rtp_send_stream stream id (q.append [] id) log in
      let sent = delivered (send_all q i sender (p ∷ ps)).stream in
      let got = p ∷ accepted q i (write_rtp_bytes q i sender p).self ps in
      (s' : Session) × (handle_uni_stream q pick s
          (record { id = stream_id; content = sent; ending = finished })
        ≡ some s')
      × (packets (s'.receive_heap.obj r) ≡ take f.buffer.cap (packets f ++ got))
stream_end_to_end q qv i delivered w stream id r stream_id log p ps pick s small empty h flushed
      known o live room =
    let sender = new_rtp_send_stream stream id (q.append [] id) log in
    let end = send_all q i sender (p ∷ ps) in
    let got = p ∷ accepted q i (write_rtp_bytes q i sender p).self ps in
    let first = fresh-accepted q i stream id (q.append [] id) log p ps in
    let content : delivered end.stream ≡ q.append [] id ++ frames q got =
      sym (append-nil (delivered end.stream))
      ∙ ap (λ b. delivered end.stream ++ b) (sym flushed)
      ∙ delivered-send_all q qv i delivered w stream id (q.append [] id) log (p ∷ ps) empty h
      ∙ ap (stream_bytes q (q.append [] id)) first in
    handle_uni_stream-frames q qv pick s id r
      (record { id = stream_id; content = delivered end.stream; ending = finished }) got small
      content refl (subst (All Fits) first (accepted-Fits q i sender (p ∷ ps) h)) known o live room
