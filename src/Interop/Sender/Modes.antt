-- ===== src/Interop/Sender/Modes.antt =====
-- What `send` of examples/interop/sender.go has sent, in each of its modes.
use roq.Common.{
  suc, zero, ◌≡◌, sym, ap, ◌∙◌, none, some, List, [], ◌∷◌, ◌++◌, append-nil, append_assoc,
}
use roq.Common.Int.{ℤ, pos, negsuc}
use roq.Quicvarint.{Bytes, Quicvarint}
use roq.SendFlow.{SendFlow}
use roq.RtpSendStream.{RtpSendStream}
use roq.RtpSendStream.Run.{stream_bytes}
use roq.Interop.Sender.{Packetizer, Sending}
use roq.Interop.Sender.Packets.{concat, Marshals}
use roq.Interop.Sender.Datagrams.{Datagrams}

pub concat-append :
    {A : Type 0}
    → (xss : List (List A)) (xs : List A) → concat (xss ++ (xs ∷ [])) ≡ concat xss ++ xs
concat-append [] xs = append-nil xs
concat-append (ys ∷ xss) xs =
    ap (λ x. ys ++ x) (concat-append xss xs) ∙ sym (append_assoc ys (concat xss) xs)

module _ {K P S : Type 0} (z : Packetizer K P) (q : Quicvarint) (delivered : S → Bytes)
    (f : SendFlow) where
  -- The stream delivered the flow ID and the frames of the packets, and has nothing pending.
  abbrev pub Carries : RtpSendStream S → List P → Type 0
  Carries r ps =
      (bufs : List Bytes) × Marshals z ps bufs
      × (delivered r.stream ≡ stream_bytes q f.flow_id bufs)
      × (r.pending ≡ [])

  -- One stream for each frame.
  abbrev pub CarryEach : List (RtpSendStream S) → List (List P) → Type 0
  CarryEach [] [] = Unit
  CarryEach [] (ps ∷ pss) = ⊥
  CarryEach (r ∷ rs) [] = ⊥
  CarryEach (r ∷ rs) (ps ∷ pss) = Carries r ps × CarryEach rs pss

  pub CarryEach-append :
      (rs : List (RtpSendStream S)) (pss : List (List P)) (r : RtpSendStream S) (ps : List P)
      → CarryEach rs pss
      → Carries r ps
      → CarryEach (rs ++ (r ∷ [])) (pss ++ (ps ∷ []))
  CarryEach-append [] [] r ps h c = (c, tt)
  CarryEach-append [] (x ∷ pss) r ps h c = absurd h
  CarryEach-append (s ∷ rs) [] r ps h c = absurd h
  CarryEach-append (s ∷ rs) (x ∷ pss) r ps (a, h) c = (a, CarryEach-append rs pss r ps h c)

  -- What `send` has sent for the packets of some frames, by its mode.
  abbrev pub Sent : ℤ → Sending K S → List (List P) → Type 0
  Sent (pos zero) st pss =
      Datagrams z f (concat pss) st.datagrams × (st.single ≡ none) × (st.per_frame ≡ [])
  Sent (pos (suc zero)) st pss =
      CarryEach st.per_frame pss × (st.single ≡ none) × (st.datagrams ≡ [])
  Sent (pos (suc (suc zero))) st pss =
      (r : RtpSendStream S) × (st.single ≡ some r)
      × Carries r (concat pss)
      × (st.per_frame ≡ [])
      × (st.datagrams ≡ [])
  Sent (pos (suc (suc (suc n)))) st pss =
      (st.single ≡ none) × (st.per_frame ≡ []) × (st.datagrams ≡ [])
  Sent (negsuc n) st pss = (st.single ≡ none) × (st.per_frame ≡ []) × (st.datagrams ≡ [])
