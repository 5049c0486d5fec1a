-- ===== src/Interop/Sender/Packets.antt =====
-- `sendStream` of examples/interop/sender.go, on a stream with nothing pending.
use mathlib.Core.Option.{some-ne-none}
use roq.Common.{
  ◌≡◌, inl, inr, refl, sym, ap, ◌∙◌, none, some, List, [], ◌∷◌, ◌++◌, map, arith, append-nil,
  append_assoc, Option-cases,
}
use roq.Errors.{Error}
use roq.Quicvarint.{Bytes, Quicvarint, IsQuicvarint}
use roq.RtpSendStream.{SendStream, IsSendStream, RtpSendStream, write_rtp_bytes}
use roq.RtpSendStream.Wire.{frame, frames, lead, on_wire, write_rtp_bytes_cases}
use roq.RtpSendStream.Run.{Fits, stream_bytes, stream_bytes-nil}
use roq.Interop.Sender.{Packetizer, send_stream}

-- The packets of a video, frame by frame.
abbrev pub packetized : {K P : Type 0} → Packetizer K P → K → List Bytes → List (List P)
packetized z k [] = []
packetized z k (frame ∷ frames) =
    let (k', packets) = z.packetize k frame in packets ∷ packetized z k' frames

abbrev pub concat {ℓ} : {A : Type ℓ} → List (List A) → List A
concat [] = []
concat (xs ∷ xss) = xs ++ concat xss

-- The bytes that the packets marshal to.
abbrev pub Marshals : {K P : Type 0} → Packetizer K P → List P → List Bytes → Type 0
Marshals z [] [] = Unit
Marshals z [] (b ∷ bs) = ⊥
Marshals z (p ∷ ps) [] = ⊥
Marshals z (p ∷ ps) (b ∷ bs) = (z.marshal p ≡ some b) × Marshals z ps bs

pub Marshals-append :
    {K P : Type 0}
    → (z : Packetizer K P) (ps qs : List P) (bs cs : List Bytes) → Marshals z ps bs
    → Marshals z qs cs
    → Marshals z (ps ++ qs) (bs ++ cs)
Marshals-append z [] qs [] cs h k = k
Marshals-append z (p ∷ ps) qs (b ∷ bs) cs h k = (h.0, Marshals-append z ps qs bs cs h.1 k)
Marshals-append z [] qs (b ∷ bs) cs h k = absurd h
Marshals-append z (p ∷ ps) qs [] cs h k = absurd h

pub map-append : (f : Bytes → Bytes) (xs ys : List Bytes) → map f (xs ++ ys) ≡ map f xs ++ map f ys
map-append f [] ys = refl
map-append f (x ∷ xs) ys = ap (◌∷◌ (f x)) (map-append f xs ys)

-- What is ahead of the next frame once these are written.
abbrev pub after : Bytes → List Bytes → Bytes
after ahead [] = ahead
after ahead (b ∷ bs) = []

frames-append :
    (q : Quicvarint) (bs cs : List Bytes) → frames q (bs ++ cs) ≡ frames q bs ++ frames q cs
frames-append q [] cs = refl
frames-append q (b ∷ bs) cs = rw (frames-append q bs cs) (simp append_assoc)

stream_bytes-append :
    (q : Quicvarint) (ahead : Bytes) (bs cs : List Bytes)
    → stream_bytes q ahead bs ++ stream_bytes q (after ahead bs) cs
      ≡ stream_bytes q ahead (bs ++ cs)
stream_bytes-append q ahead [] cs = refl
stream_bytes-append q ahead (b ∷ bs) cs =
    rw (stream_bytes-nil q cs, append_assoc, append_assoc, frames-append q bs cs) refl

after-append :
    (ahead : Bytes) (bs cs : List Bytes) → after (after ahead bs) cs ≡ after ahead (bs ++ cs)
after-append ahead [] cs = refl
after-append ahead (b ∷ bs) [] = refl
after-append ahead (b ∷ bs) (c ∷ cs) = refl

module _ {K P S : Type 0} (z : Packetizer K P) (q : Quicvarint) (qv : IsQuicvarint q)
    (i : SendStream S) (delivered : S → Bytes) (w : IsSendStream i delivered)
    (fit : (p : P) (b : Bytes) → z.marshal p ≡ some b → Fits b) where
  -- The stream got exactly the frames of these packets, and has nothing pending.
  abbrev pub Advanced : RtpSendStream S → List P → RtpSendStream S → Type 0
  Advanced s ps r =
      (bufs : List Bytes) × Marshals z ps bufs
      × (on_wire delivered r ≡ on_wire delivered s ++ stream_bytes q (lead s) bufs)
      × (r.pending ≡ [])
      × (lead r ≡ after (lead s) bufs)

  pub Advanced-trans :
      (s r t : RtpSendStream S) (ps qs : List P)
      → Advanced s ps r
      → Advanced r qs t
      → Advanced s (ps ++ qs) t
  Advanced-trans s r t ps qs (bs, m, wire, pend, ahead) (cs, n, wire', pend', ahead') = (
    bs ++ cs,
    Marshals-append z ps qs bs cs m n,
    wire'
        ∙ rw (wire, ahead, append_assoc)
            (ap (λ x. on_wire delivered s ++ x) (stream_bytes-append q (lead s) bs cs)),
    pend',
    ahead' ∙ ap (λ x. after x cs) ahead ∙ after-append (lead s) bs cs,
  )

  write_Advanced :
      (s : RtpSendStream S) (p : P) (buf : Bytes)
      → z.marshal p ≡ some buf
      → (write_rtp_bytes q i s buf).err ≡ none
      → Advanced s (p ∷ []) (write_rtp_bytes q i s buf).self
  write_Advanced s p buf m ok =
      elim (write_rtp_bytes_cases q qv i delivered w s buf (fit p buf m)) [
        | inr (refused, (wire, sent, bytes, count, failed)) ↦ absurd (failed ok)
        | inl (fine, (wire, sent, bytes, count, rest)) ↦ (
          buf ∷ [],
          (m, tt),
          wire ∙ simp (append-nil),
          elim rest [ inl failed ↦ absurd (failed ok) | inr empty ↦ empty ],
          rw sent refl,
        )
      ]

  send_stream_err :
      (s : RtpSendStream S) (p : P) (ps : List P)
      → z.marshal p ≡ none
      → (send_stream z q i s (p ∷ ps)) ≡ (s, some z.marshal_error)
  unfolding send_stream
  send_stream_err s p ps m = rw (m, send_stream) refl

  send_stream_failed :
      (s : RtpSendStream S) (p : P) (ps : List P) (buf : Bytes) (e : Error)
      → z.marshal p ≡ some buf
      → (write_rtp_bytes q i s buf).err ≡ some e
      → (send_stream z q i s (p ∷ ps)).1 ≡ some e
  unfolding send_stream
  send_stream_failed s p ps buf e m bad = ground (arith, m, bad)

  send_stream_step :
      (s : RtpSendStream S) (p : P) (ps : List P) (buf : Bytes)
      → z.marshal p ≡ some buf
      → (write_rtp_bytes q i s buf).err ≡ none
      → send_stream z q i s (p ∷ ps) ≡ send_stream z q i (write_rtp_bytes q i s buf).self ps
  unfolding send_stream
  send_stream_step s p ps buf m ok = ground (arith, m, ok)

  pub send_stream-Advanced :
      (s : RtpSendStream S) (ps : List P)
      → s.pending ≡ []
      → (send_stream z q i s ps).1 ≡ none
      → Advanced s ps (send_stream z q i s ps).0
  send_stream-Advanced s [] e ok = unfold send_stream in ([], tt, simp append-nil, e, refl)
  send_stream-Advanced s (p ∷ ps) e ok = elim (Option-cases (z.marshal p)) [
    | inl m ↦ absurd (some-ne-none _ (sym (ap (λ x. x.1) (send_stream_err s p ps m)) ∙ ok))
    | inr (buf, m) ↦ elim (Option-cases (write_rtp_bytes q i s buf).err) [
      | inr (x, bad) ↦ absurd (some-ne-none _ (sym (send_stream_failed s p ps buf x m bad) ∙ ok))
      | inl fine ↦
          let r = (write_rtp_bytes q i s buf).self in
          let one = write_Advanced s p buf m fine in
          let (bufs, marshals, wire, empty, ahead) = one in
          let step = send_stream_step s p ps buf m fine in
          rw step (
            Advanced-trans s r (send_stream z q i r ps).0 (p ∷ []) ps one
              (send_stream-Advanced r ps empty (rw step at ok)))
    ]
  ]
