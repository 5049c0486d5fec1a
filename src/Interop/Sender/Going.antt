-- ===== src/Interop/Sender/Going.antt =====
-- What the loop of `send` of examples/interop/sender.go keeps, packet by packet.
use mathlib.Core.Path.{subst}
use mathlib.Core.Option.{some-ne-none}
use roq.Common.{
  ℕ, suc, zero, ◌≡◌, inl, inr, refl, sym, ap, ◌∙◌, Option, none, some, List, [], ◌∷◌, ◌++◌, length,
  append-nil, append_assoc, Option-cases,
}
use roq.Common.Int.{ℤ, pos, negsuc}
use roq.Errors.{Error}
use roq.Quicvarint.{Bytes, Quicvarint, IsQuicvarint}
use roq.SendFlow.{SendFlow}
use roq.RtpSendStream.{SendStream, IsSendStream, RtpSendStream, new_rtp_send_stream, close}
use roq.RtpSendStream.Run.{Fits, stream_bytes}
use roq.Interop.Sender.{
  stream_per_frame_mode, single_stream_mode, Packetizer, send_datagrams, send_stream, Opening,
  stream_of, open_fails, Sending, end_frame, frame_on, frame_on_single, send_packets, send_frame,
  send_frames, close_each,
}
use roq.Interop.Sender.Packets.{packetized, concat, Advanced, Advanced-trans, send_stream-Advanced}
use roq.Interop.Sender.Datagrams.{Datagrams-append, send_datagrams-Datagrams}
use roq.Interop.Sender.Modes.{concat-append, Carries, CarryEach, CarryEach-append, Sent}
use roq.Interop.Sender.Loop.{send_packets-packetizer, send_frames_stop, send_frames_step}

module _ {K P S : Type 0} (z : Packetizer K P) (q : Quicvarint) (qv : IsQuicvarint q)
    (i : SendStream S) (delivered : S → Bytes) (w : IsSendStream i delivered)
    (fit : (p : P) (b : Bytes) → z.marshal p ≡ some b → Fits b)
    (keeps : (s : S) → delivered (i.close s).0 ≡ delivered s) (send_datagram : Bytes → Option Error)
    (open_stream : ℕ → Opening S)
    (fresh : (n : ℕ) (s : S) → open_stream n ≡ stream_of s → delivered s ≡ []) (f : SendFlow) where
  -- The stream has gone on since it was opened.
  abbrev pub Progress : RtpSendStream S → List P → Type 0
  Progress r ps =
      (n : ℕ) × (s : S) × (open_stream n ≡ stream_of s)
      × Advanced z q qv i delivered w fit (new_rtp_send_stream s f.id f.flow_id f.qlog) ps r

  pub Progress-Carries :
      (r : RtpSendStream S) (ps : List P) → Progress r ps → Carries z q delivered f r ps
  unfolding new_rtp_send_stream
  Progress-Carries r ps (n, s, opened, (bufs, m, wire, empty, ahead)) = (
    bufs,
    m,
    sym (append-nil _)
        ∙ ap (λ x. delivered r.stream ++ x) (sym empty)
        ∙ wire
        ∙ ap (λ x. x ++ stream_bytes q f.flow_id bufs) (append-nil _ ∙ fresh n s opened),
    empty,
  )

  pub close-Carries :
      (r : RtpSendStream S) (ps : List P)
      → Carries z q delivered f r ps
      → Carries z q delivered f (close i r).0 ps
  unfolding close
  close-Carries r ps (bufs, m, wire, empty) = (bufs, m, keeps r.stream ∙ wire, empty)

  pub close_each-CarryEach :
      (rs : List (RtpSendStream S)) (pss : List (List P))
      → CarryEach z q delivered f rs pss
      → CarryEach z q delivered f (close_each z q i send_datagram open_stream f rs) pss
  close_each-CarryEach [] [] h = tt
  close_each-CarryEach [] (ps ∷ pss) h = absurd h
  close_each-CarryEach (r ∷ rs) [] h = absurd h
  close_each-CarryEach (r ∷ rs) (ps ∷ pss) (c, h) =
      (close-Carries r ps c, close_each-CarryEach rs pss h)

  -- `Sent`, with what the next packets need to know of the single stream.
  abbrev pub Going : ℤ → Sending K S → List (List P) → Type 0
  Going (pos (suc (suc zero))) st pss =
      (r : RtpSendStream S) × (st.single ≡ some r)
      × Progress r (concat pss)
      × (st.per_frame ≡ [])
      × (st.datagrams ≡ [])
  Going (pos zero) st pss = Sent z q delivered f (pos zero) st pss
  Going (pos (suc zero)) st pss = Sent z q delivered f (pos (suc zero)) st pss
  Going (pos (suc (suc (suc n)))) st pss = Sent z q delivered f (pos (suc (suc (suc n)))) st pss
  Going (negsuc n) st pss = Sent z q delivered f (negsuc n) st pss

  end_frame-Going :
      (st : Sending K S) (pss : List (List P)) (ps : List P) (x : RtpSendStream S × Option Error)
      → Going stream_per_frame_mode st pss
      → (x.1 ≡ none → Carries z q delivered f x.0 ps)
      → (end_frame z q i send_datagram open_stream f st x).err ≡ none
      → Going stream_per_frame_mode
          (end_frame z q i send_datagram open_stream f st x)
          (pss ++ (ps ∷ []))
  end_frame-Going st pss ps (r, some e) g sent ok = absurd (some-ne-none _ ok)
  end_frame-Going st pss ps (r, none) (each, single, datagrams) sent ok = (
    CarryEach-append z q delivered f st.per_frame pss (close i r).0 ps each
        (close-Carries r ps (sent refl)),
    single,
    datagrams,
  )

  -- A stream that was just opened has nothing ahead of the packets.
  pub opened-Carries :
      (n : ℕ) (s : S) (ps : List P)
      → open_stream n ≡ stream_of s
      → let x = send_stream z q i (new_rtp_send_stream s f.id f.flow_id f.qlog) ps in
        x.1 ≡ none → Progress x.0 ps
  opened-Carries n s ps opened ok = (
    n,
    s,
    opened,
    send_stream-Advanced z q qv i delivered w fit (new_rtp_send_stream s f.id f.flow_id f.qlog) ps
        (unfold new_rtp_send_stream in refl) ok,
  )

  frame_on-Going :
      (st : Sending K S) (pss : List (List P)) (ps : List P) (n : ℕ) (o : Opening S)
      → open_stream n ≡ o
      → Going stream_per_frame_mode st pss
      → (frame_on z q i send_datagram open_stream f st ps o).err ≡ none
      → Going stream_per_frame_mode
          (frame_on z q i send_datagram open_stream f st ps o)
          (pss ++ (ps ∷ []))
  frame_on-Going st pss ps n (open_fails e) opened g ok = absurd (some-ne-none _ ok)
  frame_on-Going st pss ps n (stream_of s) opened g ok =
      let x = send_stream z q i (new_rtp_send_stream s f.id f.flow_id f.qlog) ps in
      end_frame-Going st pss ps x g
        (λ (fine : x.1 ≡ none). Progress-Carries x.0 ps (opened-Carries n s ps opened fine)) ok

  frame_on_single-Going :
      (st : Sending K S) (pss : List (List P)) (ps : List P) (r : RtpSendStream S)
      → Progress r (concat pss)
      → st.per_frame ≡ []
      → st.datagrams ≡ []
      → (frame_on_single z q i send_datagram open_stream f st ps (some r)).err ≡ none
      → Going single_stream_mode
          (frame_on_single z q i send_datagram open_stream f st ps (some r))
          (pss ++ (ps ∷ []))
  frame_on_single-Going st pss ps r (n, s, opened, (bufs, m, wire, empty, ahead)) per_frame
        datagrams ok =
      let r0 = new_rtp_send_stream s f.id f.flow_id f.qlog in
      let r' = (send_stream z q i r ps).0 in
      let more = send_stream-Advanced z q qv i delivered w fit r ps empty ok in
      (
        r',
        refl,
        (
          n,
          s,
          opened,
          rw (concat-append pss ps) (
              Advanced-trans z q qv i delivered w fit r0 r r' (concat pss) ps
                (bufs, m, wire, empty, ahead) more),
        ),
        per_frame,
        datagrams,
      )

  send_packets-Going :
      (mode : ℤ) (st : Sending K S) (pss : List (List P)) (ps : List P)
      → Going mode st pss
      → (send_packets z q i send_datagram open_stream f mode st ps).err ≡ none
      → Going mode (send_packets z q i send_datagram open_stream f mode st ps) (pss ++ (ps ∷ []))
  send_packets-Going (pos zero) st pss ps (sent, single, per_frame) ok = (
    rw (concat-append pss ps) (
        Datagrams-append z f (concat pss) ps st.datagrams (send_datagrams z send_datagram f ps).0
          sent (send_datagrams-Datagrams z send_datagram f ps ok)),
    single,
    per_frame,
  )
  send_packets-Going (pos (suc zero)) st pss ps g ok =
      frame_on-Going st pss ps (length st.per_frame) (open_stream (length st.per_frame)) refl g ok
  send_packets-Going (pos (suc (suc zero))) st pss ps (r, e, progress, per_frame, datagrams) ok =
      subst
        (λ o.
          (frame_on_single z q i send_datagram open_stream f st ps o).err ≡ none
          → Going single_stream_mode (frame_on_single z q i send_datagram open_stream f st ps o)
              (pss ++ (ps ∷ [])))
        (sym e) (frame_on_single-Going st pss ps r progress per_frame datagrams) ok
  send_packets-Going (pos (suc (suc (suc n)))) st pss ps g ok = g
  send_packets-Going (negsuc n) st pss ps g ok = g

  -- What was sent does not hang on the packetizer or the error.
  same_Going :
      (mode : ℤ) (st : Sending K S) (pss : List (List P)) (k : K) (e : Option Error)
      → Going mode st pss
      → Going mode (record st { packetizer = k; err = e }) pss
  same_Going (pos zero) st pss k e g = g
  same_Going (pos (suc zero)) st pss k e g = g
  same_Going (pos (suc (suc zero))) st pss k e g = g
  same_Going (pos (suc (suc (suc n)))) st pss k e g = g
  same_Going (negsuc n) st pss k e g = g

  pub send_frames-Going :
      (mode : ℤ) (st : Sending K S) (pss : List (List P)) (xs : List Bytes) (ending : Option Error)
      → Going mode st pss
      → (send_frames z q i send_datagram open_stream f mode st xs ending).err ≡ none
      → Going mode
          (send_frames z q i send_datagram open_stream f mode st xs ending)
          (pss ++ packetized z st.packetizer xs)
  send_frames-Going mode st pss [] ending g ok =
      unfold send_frames in rw append-nil (same_Going mode st pss st.packetizer ending g)
  send_frames-Going mode st pss (x ∷ xs) ending g ok =
      let st' = send_frame z q i send_datagram open_stream f mode st x in
      elim (Option-cases st'.err) [
        | inr (e, bad) ↦ absurd (
            some-ne-none _ (
              sym (send_frames_stop z q i send_datagram open_stream f mode st x xs ending e bad)
              ∙ ok))
        | inl fine ↦
            let (k, ps) = z.packetize st.packetizer x in
            let step =
              send_frames_step z q i send_datagram open_stream f mode st x xs ending fine in
            let now =
              send_packets-Going mode (record st { packetizer = k }) pss ps
                (same_Going mode st pss k st.err g) fine in
            let later =
              send_frames-Going mode st' (pss ++ (ps ∷ [])) xs ending now (rw step at ok) in
            rw step (
              subst
                (λ l.
                  Going mode (send_frames z q i send_datagram open_stream f mode st' xs ending) l)
                (append_assoc pss (ps ∷ []) (packetized z st'.packetizer xs)
                  ∙ ap (λ j. pss ++ (ps ∷ packetized z j xs))
                      (send_packets-packetizer z q i send_datagram open_stream f mode
                        (record st { packetizer = k }) ps))
                later)
      ]
