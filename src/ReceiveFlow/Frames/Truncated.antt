-- ===== src/ReceiveFlow/Frames/Truncated.antt =====
-- `readStream` on a stream that ends inside a frame.
use roq.Common.{
  lt→ltb, ℕ, suc, ◌-◌, ◌<◌, ◌≡◌, ◌∙◌, false, some, [], ◌∷◌, ◌++◌, length, arith, length-append,
}
use roq.Common.GoMap.{insert}
use roq.Quicvarint.{Bytes, Quicvarint, IsQuicvarint, varint_limit}
use roq.ReceiveFlow.{ReceiveFlow, unregister}
use roq.ReceiveFlow.Queue.{packets, IsOpen, accept, accept-packets}
use roq.ReceiveFlow.Frames.Prefix.{read_frame_truncated}
use roq.ReceiveFlow.Frames.{
  finished, ReceiveStream, read_registered, StreamRead, read_stream, silent, parsed_event,
}
use roq.ReceiveFlow.Frames.RoundTrip.{read_stream_live, read_loop_step, read_loop-end, append_pos}

module _ (q : Quicvarint) (qv : IsQuicvarint q) (pick : ReceiveFlow → ℕ) where
  read_registered_cut :
      (f : ReceiveFlow) (rs : ReceiveStream) (len : ℕ) (part : Bytes)
      → rs.content ≡ q.append [] len ++ part
      → rs.ending ≡ finished
      → len < varint_limit
      → length part < len
      → read_registered q pick f rs
        ≡ some (record {
          flow = unregister (accept (pick f) f part) rs.id;
          log = silent;
          events = parsed_event f rs.id len (q.append [] len ++ part);
          cancelled = [];
        })
  unfolding read_registered
  read_registered_cut f rs len part content ending h short =
      let k : ℕ = length (q.append [] len ++ part) - 1 in
      let fuel : length (q.append [] len ++ part) ≡ suc k =
        omega (arith, length-append (q.append [] len) part, append_pos q qv pick len h) in
      rw (
        content,
        ending,
        fuel,
        read_loop_step q qv pick (suc k) f (accept (pick f) f part) rs.id (q.append [] len ++ part)
            [] finished [] _ (read_frame_truncated q qv (pick f) f rs.id len part h short),
        read_loop-end q qv pick k,
      )

  -- An open and live flow with room reads a stream that ends before the packet that its length prefix
  -- announced is complete: the part that came is queued as a packet.
  pub read_stream_truncated :
      (f : ReceiveFlow) (rs : ReceiveStream) (len : ℕ) (part : Bytes)
      → IsOpen f
      → f.ctx_done ≡ false
      → length (packets f) < f.buffer.cap
      → rs.content ≡ q.append [] len ++ part
      → rs.ending ≡ finished
      → len < varint_limit
      → length part < len
      → (r : StreamRead) × (read_stream q pick f rs ≡ some r)
        × (packets r.flow ≡ packets f ++ (part ∷ []))
  read_stream_truncated f rs len part o live room content ending h short =
      let f' : ReceiveFlow = record f { streams = insert rs.id tt f.streams } in
      let g : ReceiveFlow = accept (pick f') f' part in
      (
        record {
          flow = unregister g rs.id;
          log = silent;
          events = parsed_event f' rs.id len (q.append [] len ++ part);
          cancelled = [];
        },
        read_stream_live q pick f rs live
            ∙ read_registered_cut f' rs len part content ending h short,
        unfold unregister in
            accept-packets (pick f') f' part
              (record { not_closed = o.not_closed; chan_open = o.chan_open })
            ∙ rw (lt→ltb (length (packets f)) f.buffer.cap room),
      )
