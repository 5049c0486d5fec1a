-- ===== src/Interop/Sender/Datagrams.antt =====
-- `sendDatagrams` of examples/interop/sender.go.
use mathlib.Core.Option.{some-ne-none}
use roq.Common.{
  ◌≡◌, inl, inr, refl, sym, ap, ◌∙◌, Option, none, some, List, [], ◌∷◌, ◌++◌, map, arith,
  Option-cases,
}
use roq.Errors.{Error}
use roq.Quicvarint.{Bytes}
use roq.SendFlow.{SendFlow}
use roq.SendFlow
use roq.Interop.Sender.{Packetizer, send_datagrams}
use roq.Interop.Sender.Packets.{Marshals, Marshals-append, map-append}

module _ {K P : Type 0} (z : Packetizer K P) (f : SendFlow) where
  -- Each packet in a datagram of its own, behind the flow ID.
  abbrev pub Datagrams : List P → List Bytes → Type 0
  Datagrams ps sent =
      (bufs : List Bytes) × Marshals z ps bufs × (sent ≡ map (λ b. f.flow_id ++ b) bufs)

  pub Datagrams-append :
      (ps qs : List P) (sent more : List Bytes)
      → Datagrams ps sent
      → Datagrams qs more
      → Datagrams (ps ++ qs) (sent ++ more)
  Datagrams-append ps qs sent more (bs, m, e) (cs, n, d) = (
    bs ++ cs,
    Marshals-append z ps qs bs cs m n,
    rw (e, d) (sym (map-append (λ b. f.flow_id ++ b) bs cs)),
  )

module _ {K P : Type 0} (z : Packetizer K P) (send_datagram : Bytes → Option Error)
    (f : SendFlow) where
  -- A datagram that was sent without an error.
  write_sent :
      (buf : Bytes)
      → (SendFlow.write_rtp_bytes send_datagram f buf).err ≡ none
      → (SendFlow.write_rtp_bytes send_datagram f buf).sent ≡ some (f.flow_id ++ buf)
  unfolding SendFlow.write_rtp_bytes
  write_sent buf ok = ground arith

  send_datagrams_no_bytes :
      (p : P) (ps : List P)
      → z.marshal p ≡ none
      → (send_datagrams z send_datagram f (p ∷ ps)).1 ≡ some z.marshal_error
  unfolding send_datagrams
  send_datagrams_no_bytes p ps m = ground (arith, m)

  send_datagrams_failed :
      (p : P) (ps : List P) (buf : Bytes) (e : Error)
      → z.marshal p ≡ some buf
      → (SendFlow.write_rtp_bytes send_datagram f buf).err ≡ some e
      → (send_datagrams z send_datagram f (p ∷ ps)).1 ≡ some e
  unfolding send_datagrams
  send_datagrams_failed p ps buf e m bad = ground (arith, m, bad)

  send_datagrams_step :
      (p : P) (ps : List P) (buf : Bytes)
      → z.marshal p ≡ some buf
      → (SendFlow.write_rtp_bytes send_datagram f buf).err ≡ none
      → send_datagrams z send_datagram f (p ∷ ps) ≡ (
        (f.flow_id ++ buf) ∷ (send_datagrams z send_datagram f ps).0,
        (send_datagrams z send_datagram f ps).1,
      )
  unfolding send_datagrams
  send_datagrams_step p ps buf m ok = ground (arith, m, ok, write_sent buf ok)

  pub send_datagrams-Datagrams :
      (ps : List P)
      → (send_datagrams z send_datagram f ps).1 ≡ none
      → Datagrams z f ps (send_datagrams z send_datagram f ps).0
  send_datagrams-Datagrams [] ok = unfold send_datagrams in ([], tt, refl)
  send_datagrams-Datagrams (p ∷ ps) ok = elim (Option-cases (z.marshal p)) [
    | inl m ↦ absurd (some-ne-none _ (sym (send_datagrams_no_bytes p ps m) ∙ ok))
    | inr (buf, m) ↦ elim (Option-cases (SendFlow.write_rtp_bytes send_datagram f buf).err) [
      | inr (e, bad) ↦ absurd (some-ne-none _ (sym (send_datagrams_failed p ps buf e m bad) ∙ ok))
      | inl fine ↦
          let step = send_datagrams_step p ps buf m fine in
          let (bufs, ms, sent) = send_datagrams-Datagrams ps (rw step at ok) in
          rw step (buf ∷ bufs, (m, ms), ap (◌∷◌ (f.flow_id ++ buf)) sent)
    ]
  ]
