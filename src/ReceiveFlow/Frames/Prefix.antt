-- ===== src/ReceiveFlow/Frames/Prefix.antt =====
-- One round of `readStream`'s loop of receive_flow.go: the length prefix and the packet behind it.
use roq.Common.{
  ℕ, ◌/◌, ◌^◌, ◌≤◌, ◌<◌, ◌≡◌, refl, sym, ap, ◌∙◌, none, some, [], ◌∷◌, ◌++◌, All, length, arith,
  append_assoc, length-append, take-append_length, drop-append_length, take_all, drop_all,
}
use roq.Quicvarint.{Bytes, IsByte, Quicvarint, IsQuicvarint, varint_limit}
use roq.RtpSendStream.Wire.{frame}
use roq.RtpSendStream.Run.{Fits}
use roq.ReceiveFlow.{ReceiveFlow}
use roq.ReceiveFlow.Queue.{accept}
use roq.ReceiveFlow.Frames.{
  return, level_of, error_of, Ending, finished, got, read_varint, pushed, read_frame, read_payload,
  payload_fails, read_sized, parsed_event,
}

module _ (q : Quicvarint) (qv : IsQuicvarint q) where
  read_varint-got :
      (bs rest : Bytes) (v n : ℕ) (ending : Ending)
      → All IsByte bs
      → length bs ≡ n
      → q.parse (bs ++ rest) ≡ some (v, n)
      → read_varint q (bs ++ rest) ending ≡ got v bs rest
  unfolding read_varint
  read_varint-got [] rest v n ending h l e = absurd (omega (arith, qv.parse_bounds rest v n e))
  read_varint-got (b ∷ t) rest v n ending h l e =
      let size : length (b ∷ t) ≡ 2 ^ (b / 64) = l ∙ qv.parse_first b (t ++ rest) v n h.0 e in
      let whole : q.parse (b ∷ t) ≡ some (v, n) =
        ap q.parse (rw (← l) (sym (take-append_length (b ∷ t) rest)))
        ∙ qv.parse-take (b ∷ t ++ rest) v n e in
      rw (← size, read_sized)
        (rw (take-append_length (b ∷ t) rest, drop-append_length (b ∷ t) rest, whole)
          (ground (arith, length-append t rest)))

  pub read_varint-append :
      (v : ℕ) (rest : Bytes) (ending : Ending)
      → v < varint_limit
      → read_varint q (q.append [] v ++ rest) ending ≡ got v (q.append [] v) rest
  read_varint-append v rest ending h =
      read_varint-got (q.append [] v) rest v (q.len v) ending (qv.append_bytes v h)
        (qv.length-append v h) (qv.parse-append v rest h)

  payload_whole :
      (len : ℕ) (rest : Bytes) (ending : Ending)
      → len ≤ length rest
      → payload_fails len rest ending ≡ none
  unfolding payload_fails
  payload_whole len rest ending h = ground arith

  -- A frame ahead of anything is taken off the stream, and its packet pushed.
  pub read_frame-frame :
      (choice : ℕ) (f : ReceiveFlow) (stream_id : ℕ) (p rest : Bytes) (ending : Ending)
      → Fits p
      → read_frame q choice f stream_id (frame q p ++ rest) ending
        ≡ pushed (accept choice f p) rest (parsed_event f stream_id (length p) (frame q p))
  unfolding read_frame
  read_frame-frame choice f stream_id p rest ending h =
      rw
        (
          append_assoc,
          read_varint-append (length p) (p ++ rest) ending h,
          take-append_length p rest,
          drop-append_length p rest,
          drop-append_length (q.append [] (length p)) p,
        )
        (rw (payload_whole (length p) (p ++ rest) ending (omega (arith, length-append p rest))))

  payload_cut :
      (len : ℕ) (part : Bytes) → length part < len → payload_fails len part finished ≡ none
  unfolding payload_fails
  payload_cut len part h = ground arith

  -- A stream that ends inside a frame: what there is of the packet is pushed as if it were whole.
  pub read_frame_truncated :
      (choice : ℕ) (f : ReceiveFlow) (stream_id len : ℕ) (part : Bytes)
      → len < varint_limit
      → length part < len
      → read_frame q choice f stream_id (q.append [] len ++ part) finished
        ≡ pushed (accept choice f part) [] (parsed_event f stream_id len (q.append [] len ++ part))
  unfolding read_frame
  read_frame_truncated choice f stream_id len part h short =
      rw
        (
          read_varint-append len part finished h,
          take_all len part (omega arith),
          drop_all len part (omega arith),
          drop-append_length (q.append [] len) part,
        )
        (unfold read_payload in rw (payload_cut len part short))

  -- At the end of the stream the loop returns.
  pub read_frame-end :
      (choice : ℕ) (f : ReceiveFlow) (stream_id : ℕ) (ending : Ending)
      → read_frame q choice f stream_id [] ending ≡ return f (level_of (error_of ending))
  unfolding read_frame read_varint read_payload
  read_frame-end choice f stream_id ending = refl
