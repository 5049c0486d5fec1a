-- ===== src/RtpSendStream/Wire.antt =====
-- The byte stream that the calls of `WriteRTPBytes` produce, whatever each `Write` accepts.
use roq.Common.{
  ℕ, ◌-◌, ◌≤◌, ◌<◌, ◌≡◌, ◌≢◌, ◌⊎◌, inl, inr, refl, ap, ◌∙◌, Bool, true, false, Option, none, some,
  List, [], ◌∷◌, ◌++◌, length, take, drop, ltb, if◌then◌else◌, arith, append-nil, append_assoc,
  take-append-drop, length-append, length-drop, take_all, Bool-cases, Option-cases, ltb→lt,
}
use roq.Errors.{Error}
use roq.Quicvarint.{Bytes, Quicvarint, IsQuicvarint, varint_limit}
use roq.RtpSendStream.{
  SendStream, IsSendStream, RtpSendStream, Written, or_short_write, flush, write_frame,
  write_rtp_bytes,
}

-- A packet as it stands on the wire: its length, then its bytes.
abbrev pub frame : Quicvarint → Bytes → Bytes
frame q packet = q.append [] (length packet) ++ packet

abbrev pub frames : Quicvarint → List Bytes → Bytes
frames q [] = []
frames q (p ∷ ps) = frame q p ++ frames q ps

-- What the first frame of a stream has ahead of it.
abbrev pub lead : {S : Type 0} → RtpSendStream S → Bytes
lead s = if s.sent_flow_id then [] else s.flow_id_bytes

module _ {S : Type 0} (delivered : S → Bytes) where
  -- The bytes that the stream accepted, and those that it will get before any others.
  abbrev pub on_wire : RtpSendStream S → Bytes
  on_wire s = delivered s.stream ++ s.pending

module _ {S : Type 0} (i : SendStream S) where
  -- Whether the call gets as far as its own packet: nothing was pending, or all of it was written.
  unfoldable pub flushes : RtpSendStream S → Bool
  flushes s =
      if ltb 0 (length s.pending)
      then (elim (flush i s).1 [ none ↦ true | some x ↦ false ])
      else true

module _ {S : Type 0} (q : Quicvarint) (qv : IsQuicvarint q) (i : SendStream S)
    (delivered : S → Bytes) (w : IsSendStream i delivered) where
  flush-on_wire : (s : RtpSendStream S) → on_wire delivered (flush i s).0 ≡ on_wire delivered s
  unfolding flush
  flush-on_wire s = rw (w.delivers s.stream s.pending, append_assoc, take-append-drop)

  not_short : (n m : ℕ) → ltb n m ≡ false → m ≤ n
  not_short n m h = ground arith

  split_write :
      (d buffer pending : Bytes) (n : ℕ)
      → n ≤ length buffer
      → pending ≡ []
      → (d ++ take n buffer) ++ (if ltb n (length buffer) then drop n buffer else pending)
        ≡ d ++ buffer
  split_write d buffer pending n h e = elim (Bool-cases (ltb n (length buffer))) [
    | inl short ↦ rw (short, append_assoc, take-append-drop)
    | inr whole ↦ rw (whole, e, append-nil, take_all n buffer (ground arith))
  ]

  write_frame-on_wire :
      (s : RtpSendStream S) (packet : Bytes)
      → s.pending ≡ []
      → length packet < varint_limit
      → on_wire delivered (write_frame q i s packet).self
        ≡ on_wire delivered s ++ (lead s ++ frame q packet)
  unfolding write_frame
  write_frame-on_wire s packet e h =
      let buffer : Bytes = q.append (lead s) (length packet) ++ packet in
      rw (w.delivers s.stream buffer) (
        split_write (delivered s.stream) buffer s.pending (i.write s.stream buffer).1
          (w.accepts s.stream buffer) e
        ∙ rw (e, append-nil, qv.append-nil (lead s) (length packet) h, append_assoc))

  -- The packet's frame is on the wire or pending; the count is what is not pending of the packet; and
  -- a call without an error has left nothing pending.
  abbrev pub Queued : RtpSendStream S → Bytes → Written S → Type 0
  Queued s packet r =
      (on_wire delivered r.self ≡ on_wire delivered s ++ (lead s ++ frame q packet))
      × (r.self.sent_flow_id ≡ true)
      × (r.self.flow_id_bytes ≡ s.flow_id_bytes)
      × (r.count ≡ length packet - length r.self.pending)
      × ((r.err ≢ none) ⊎ (r.self.pending ≡ []))

  -- Nothing of the packet will be on the wire.
  abbrev pub Refused : RtpSendStream S → Written S → Type 0
  Refused s r =
      (on_wire delivered r.self ≡ on_wire delivered s)
      × (r.self.sent_flow_id ≡ s.sent_flow_id)
      × (r.self.flow_id_bytes ≡ s.flow_id_bytes)
      × (r.count ≡ 0)
      × (r.err ≢ none)

  or_short_write-ne-none : (e : Option Error) → or_short_write e ≢ none
  or_short_write-ne-none none = λ p. cc
  or_short_write-ne-none (some x) = λ p. cc

  length_zero : (b : Bytes) → ltb 0 (length b) ≡ false → b ≡ []
  length_zero [] h = refl
  length_zero (x ∷ b) h = absurd (ground arith)

  flush-pending : (s : RtpSendStream S) → (flush i s).1 ≡ none → (flush i s).0.pending ≡ []
  unfolding flush
  flush-pending s h =
      let (st, n, e) = i.write s.stream s.pending in
      elim (Bool-cases (ltb 0 (length (drop n s.pending)))) [
        | inl more ↦ absurd (or_short_write-ne-none e (rw more at h))
        | inr nothing ↦ length_zero _ nothing
      ]

  write_frame_rest :
      (s : RtpSendStream S) (packet : Bytes)
      → s.pending ≡ []
      → let r = write_frame q i s packet in
        (r.count ≡ length packet - length r.self.pending) × ((r.err ≢ none) ⊎ (r.self.pending ≡ []))
  unfolding write_frame
  write_frame_rest s packet e =
      let header : Bytes = q.append (lead s) (length packet) in
      let (st, n, x) = i.write s.stream (header ++ packet) in
      elim (Bool-cases (ltb n (length (header ++ packet)))) [
        | inl short ↦ rw short (
          rw length-drop (omega (arith, length-append header packet, ltb→lt _ _ short)),
          inl (or_short_write-ne-none x),
        )
        | inr whole ↦
            rw (whole, e)
              (omega (arith, length-append header packet, not_short _ _ whole), inr refl)
      ]

  write_frame-Queued :
      (s : RtpSendStream S) (packet : Bytes)
      → s.pending ≡ []
      → length packet < varint_limit
      → Queued s packet (write_frame q i s packet)
  write_frame-Queued s packet e h =
      let (count, left) = write_frame_rest s packet e in
      (
        write_frame-on_wire s packet e h,
        unfold write_frame in refl,
        unfold write_frame in refl,
        count,
        left,
      )

  -- A call with a packet below 2^62 bytes either puts the packet's frame behind all earlier bytes, with
  -- a count of the packet's bytes that are not pending, or, where the bytes of an earlier frame could
  -- not all be written, leaves the packet out and returns 0 and an error.
  pub write_rtp_bytes_cases :
      (s : RtpSendStream S) (packet : Bytes)
      → length packet < varint_limit
      → let r = write_rtp_bytes q i s packet in
        ((flushes i s ≡ true) × Queued s packet r) ⊎ ((flushes i s ≡ false) × Refused s r)
  unfolding write_rtp_bytes flushes
  write_rtp_bytes_cases s packet h = elim (Bool-cases (ltb 0 (length s.pending))) [
    | inr clear ↦ rw clear (inl (refl, write_frame-Queued s packet (length_zero _ clear) h))
    | inl left ↦ elim (Option-cases (flush i s).1) [
      | inr (x, failed) ↦
          rw (left, failed)
            (inr
              (refl, (flush-on_wire s, unfold flush in refl, unfold flush in refl, refl, λ p. cc)))
      | inl ok ↦
          let (wire, sent, bytes, count, rest) =
            write_frame-Queued (flush i s).0 packet (flush-pending s ok) h in
          rw (left, ok)
            (inl (
              refl,
              (
                unfold flush in wire ∙ ap (λ b. b ++ (lead s ++ frame q packet)) (flush-on_wire s),
                sent,
                unfold flush in bytes,
                count,
                rest,
              ),
            ))
    ]
  ]
