-- ===== src/ReceiveFlow/Frames/RoundTrip.antt =====
-- `readStream` on a stream of frames, as `WriteRTPBytes` of rtp_send_stream.go writes them.
use roq.Common.{
  ℕ, suc, ◌+◌, ◌-◌, ◌≤◌, ◌<◌, ◌≡◌, refl, sym, ap, ◌∙◌, false, some, List, [], ◌∷◌, ◌++◌, All,
  length, take, arith, append-nil, append_assoc, length-append,
}
use roq.Common.GoMap.{insert, delete}
use roq.Quicvarint.{Bytes, Quicvarint, IsQuicvarint, varint_limit}
use roq.Qlog.{Event}
use roq.RtpSendStream.Wire.{frame, frames}
use roq.RtpSendStream.Run.{Fits}
use roq.ReceiveFlow.{ReceiveFlow, register, unregister}
use roq.ReceiveFlow.Queue.{
  packets, IsOpen, offer_all, offer_all-take, accept, Keeps, accept-Keeps, accept-packets,
}
use roq.ReceiveFlow.Frames.Prefix.{read_frame-frame}
use roq.ReceiveFlow.Frames.{
  Ending, finished, ReceiveStream, read_varint, pushed, read_frame, read_loop, read_registered,
  StreamRead, read_stream, silent, parsed_event,
}

-- The packets of a stream, pushed one after the other.
pub accept_all : (ReceiveFlow → ℕ) → ReceiveFlow → List Bytes → ReceiveFlow
accept_all pick f [] = f
accept_all pick f (p ∷ ps) = accept_all pick (accept (pick f) f p) ps

Keeps-IsOpen : {f g : ReceiveFlow} → Keeps f g → IsOpen f → IsOpen g
Keeps-IsOpen k o = ground arith

pub accept_all-packets :
    (pick : ReceiveFlow → ℕ) (f : ReceiveFlow) (ps : List Bytes)
    → IsOpen f
    → packets (accept_all pick f ps) ≡ offer_all f.buffer.cap (packets f) ps
unfolding accept_all
accept_all-packets pick f [] o = refl
accept_all-packets pick f (p ∷ ps) o =
    let k = accept-Keeps (pick f) f p in
    accept_all-packets pick (accept (pick f) f p) ps (Keeps-IsOpen k o)
    ∙ rw (accept-packets (pick f) f p o, k.same_cap)

accept_all-streams :
    (pick : ReceiveFlow → ℕ) (f : ReceiveFlow) (ps : List Bytes)
    → (accept_all pick f ps).streams ≡ f.streams
unfolding accept_all
accept_all-streams pick f [] = refl
accept_all-streams pick f (p ∷ ps) =
    accept_all-streams pick (accept (pick f) f p) ps ∙ (accept-Keeps (pick f) f p).same_streams

pub accept_all-Keeps :
    (pick : ReceiveFlow → ℕ) (f : ReceiveFlow) (ps : List Bytes) → Keeps f (accept_all pick f ps)
unfolding accept_all
accept_all-Keeps pick f [] = ground arith
accept_all-Keeps pick f (p ∷ ps) =
    ground (arith, accept-Keeps (pick f) f p, accept_all-Keeps pick (accept (pick f) f p) ps)

-- Fuel for a round for each packet and `n` more.
abbrev rounds : List Bytes → ℕ → ℕ
rounds [] n = n
rounds (p ∷ ps) n = suc (rounds ps n)

rounds-add : (ps : List Bytes) (n : ℕ) → rounds ps n ≡ length ps + n
rounds-add [] n = omega arith
rounds-add (p ∷ ps) n = omega (arith, rounds-add ps n)

module _ (q : Quicvarint) (pick : ReceiveFlow → ℕ) where
  pub read_stream_live :
      (f : ReceiveFlow) (rs : ReceiveStream)
      → f.ctx_done ≡ false
      → read_stream q pick f rs
        ≡ read_registered q pick (record f { streams = insert rs.id tt f.streams }) rs
  read_stream_live f rs live = unfold read_stream register in (simp live)

module _ (q : Quicvarint) (qv : IsQuicvarint q) (pick : ReceiveFlow → ℕ) where
  pub events_all : ReceiveFlow → ℕ → List Bytes → List Event
  events_all f stream_id [] = []
  events_all f stream_id (p ∷ ps) =
      parsed_event f stream_id (length p) (frame q p)
      ++ events_all (accept (pick f) f p) stream_id ps

  pub read_loop_step :
      (n : ℕ) (f f' : ReceiveFlow) (stream_id : ℕ) (content rest : Bytes) (ending : Ending)
      (events more : List Event)
      → read_frame q (pick f) f stream_id content ending ≡ pushed f' rest more
      → read_loop q pick (suc n) f stream_id content ending events
        ≡ read_loop q pick n f' stream_id rest ending (events ++ more)
  unfolding read_loop
  read_loop_step n f f' stream_id content rest ending events more e = rw (e, read_loop)

  read_loop-frames :
      (ps : List Bytes) (n : ℕ) (f : ReceiveFlow) (stream_id : ℕ) (rest : Bytes) (ending : Ending)
      (events : List Event)
      → All Fits ps
      → read_loop q pick (rounds ps n) f stream_id (frames q ps ++ rest) ending events
        ≡ read_loop q pick n
            (accept_all pick f ps)
            stream_id
            rest
            ending
            (events ++ events_all f stream_id ps)
  unfolding accept_all events_all
  read_loop-frames [] n f stream_id rest ending events h = rw append-nil
  read_loop-frames (p ∷ ps) n f stream_id rest ending events h =
      rw (append_assoc (frame q p) (frames q ps) rest) (
        read_loop_step (rounds ps n) f (accept (pick f) f p) stream_id _ (frames q ps ++ rest)
          ending events _
          (read_frame-frame q qv (pick f) f stream_id p (frames q ps ++ rest) ending h.0)
        ∙ read_loop-frames ps n (accept (pick f) f p) stream_id rest ending _ h.1
        ∙ rw append_assoc)

  pub read_loop-end :
      (n : ℕ) (f : ReceiveFlow) (stream_id : ℕ) (events : List Event)
      → read_loop q pick (suc n) f stream_id [] finished events
        ≡ some (record { flow = f; log = silent; events = events; cancelled = [] })
  unfolding read_loop read_frame read_varint
  read_loop-end n f stream_id events = refl

  pub append_pos : (v : ℕ) → v < varint_limit → 1 ≤ length (q.append [] v)
  append_pos v h = omega (
    arith,
    qv.length-append v h,
    qv.parse_bounds (q.append [] v ++ []) v (q.len v) (qv.parse-append v [] h),
  )

  length-frames : (ps : List Bytes) → All Fits ps → length ps ≤ length (frames q ps)
  length-frames [] h = omega arith
  length-frames (p ∷ ps) h = omega (
    arith,
    length-append (frame q p) (frames q ps),
    length-append (q.append [] (length p)) p,
    qv.length-append (length p) h.0,
    qv.parse_bounds (q.append [] (length p) ++ []) (length p) (q.len (length p))
        (qv.parse-append (length p) [] h.0),
    length-frames ps h.1,
  )

  read_loop_whole :
      (f : ReceiveFlow) (stream_id : ℕ) (ps : List Bytes)
      → All Fits ps
      → read_loop q pick (suc (length (frames q ps))) f stream_id (frames q ps) finished []
        ≡ some (record {
          flow = accept_all pick f ps;
          log = silent;
          events = events_all f stream_id ps;
          cancelled = [];
        })
  read_loop_whole f stream_id ps h =
      let k : ℕ = length (frames q ps) - length ps in
      let fuel : suc (length (frames q ps)) ≡ rounds ps (suc k) =
        omega (arith, rounds-add ps (suc k), length-frames ps h) in
      ap (λ (n : ℕ). read_loop q pick n f stream_id (frames q ps) finished []) fuel
      ∙ ap (λ (b : Bytes). read_loop q pick (rounds ps (suc k)) f stream_id b finished [])
          (sym (append-nil (frames q ps)))
      ∙ read_loop-frames ps (suc k) f stream_id [] finished [] h
      ∙ read_loop-end k (accept_all pick f ps) stream_id _

  pub read_registered-frames :
      (f : ReceiveFlow) (rs : ReceiveStream) (ps : List Bytes)
      → rs.content ≡ frames q ps
      → rs.ending ≡ finished
      → All Fits ps
      → read_registered q pick f rs
        ≡ some (record {
          flow = unregister (accept_all pick f ps) rs.id;
          log = silent;
          events = events_all f rs.id ps;
          cancelled = [];
        })
  unfolding read_registered
  read_registered-frames f rs ps content ending h =
      rw (content, ending, read_loop_whole f rs.id ps h)

  -- An open and live flow within its capacity reads a stream that carries the frames of packets below
  -- 2^62 bytes and then ends: the packets stand behind those that the flow held already, as far as the
  -- queue has room; the stream is unregistered, nothing is logged and nothing cancelled.
  pub read_stream-frames :
      (f : ReceiveFlow) (rs : ReceiveStream) (ps : List Bytes)
      → IsOpen f
      → f.ctx_done ≡ false
      → length (packets f) ≤ f.buffer.cap
      → rs.content ≡ frames q ps
      → rs.ending ≡ finished
      → All Fits ps
      → (r : StreamRead) × (read_stream q pick f rs ≡ some r)
        × (packets r.flow ≡ take f.buffer.cap (packets f ++ ps))
        × (r.flow.streams ≡ delete rs.id (insert rs.id tt f.streams))
        × (r.log ≡ silent)
        × (r.cancelled ≡ [])
  read_stream-frames f rs ps o live room content ending h =
      let f' : ReceiveFlow = record f { streams = insert rs.id tt f.streams } in
      (
        record {
          flow = unregister (accept_all pick f' ps) rs.id;
          log = silent;
          events = events_all f' rs.id ps;
          cancelled = [];
        },
        read_stream_live q pick f rs live ∙ read_registered-frames f' rs ps content ending h,
        unfold unregister in
            accept_all-packets pick f' ps
              (record { not_closed = o.not_closed; chan_open = o.chan_open })
            ∙ offer_all-take f.buffer.cap (packets f) ps room,
        unfold unregister in ap (delete rs.id) (accept_all-streams pick f' ps),
        refl,
        refl,
      )
