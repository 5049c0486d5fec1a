-- ===== src/ReceiveFlow/Frames/Total.antt =====
-- The end of `readStream` of receive_flow.go, on streams of any bytes.
use roq.Common.{
  ==_refl, ◌∙◌, ℕ, zero, suc, ◌/◌, ◌^◌, ◌≤◌, ◌<◌, ◌≡◌, ◌≢◌, ◌⊎◌, inl, inr, refl, sym, ap, List, [],
  ◌∷◌, ◌++◌, Option, none, some, true, false, length, length-drop, arith, Bool-cases, leb,
  Option-cases, drop, take,
}
use roq.Quicvarint.{Bytes, Quicvarint}
use roq.Qlog.{Event}
use roq.Common.GoMap.{lookup, insert, lookup-delete}
use roq.Errors.{err_roq_no_error}
use roq.ReceiveFlow.{ReceiveFlow, register, unregister}
use roq.ReceiveFlow.Frames.RoundTrip.{read_stream_live}
use roq.ReceiveFlow.Frames.{
  Ending, StreamRead, silent, ReadError, LogLevel, ReceiveStream, VarintRead, got, failed,
  read_varint, read_sized, parsed, Round, return, pushed, read_frame, read_payload, payload_fails,
  or_return, read_loop, read_registered, read_stream, deferred,
}

two_pow_pos : (k : ℕ) → 1 ≤ 2 ^ k
two_pow_pos zero = omega arith
two_pow_pos (suc k) = omega (arith, two_pow_pos k)

parsed-got :
    (o : Option (ℕ × ℕ)) (buf rest : Bytes) (v : ℕ) (enc more : Bytes)
    → parsed o buf rest ≡ got v enc more
    → (buf ≡ enc) × (rest ≡ more)
unfolding parsed
parsed-got none buf rest v enc more e = absurd (cc)
parsed-got (some (w, n)) buf rest v enc more e = (ground arith, ground arith)

got-ne-failed : {v : ℕ} {enc rest : Bytes} {e : ReadError} → got v enc rest ≢ failed e
got-ne-failed p = cc

pushed-ne-return :
    {f g : ReceiveFlow} {rest : Bytes} {events : List Event} {level : LogLevel}
    → pushed f rest events ≢ return g level
pushed-ne-return p = cc

pushed_rest :
    {f g : ReceiveFlow} {rest more : Bytes} {events others : List Event}
    → pushed f rest events ≡ pushed g more others
    → rest ≡ more
pushed_rest e = ground arith

VarintRead-cases :
    (r : VarintRead)
    → ((v : ℕ) × (enc : Bytes) × (rest : Bytes) × (r ≡ got v enc rest))
      ⊎ ((e : ReadError) × (r ≡ failed e))
VarintRead-cases (got v enc rest) = inl (v, enc, rest, refl)
VarintRead-cases (failed e) = inr (e, refl)

Round-cases :
    (r : Round)
    → ((f : ReceiveFlow) × (level : LogLevel) × (r ≡ return f level))
      ⊎ ((f : ReceiveFlow) × (rest : Bytes) × (events : List Event) × (r ≡ pushed f rest events))
Round-cases (return f level) = inl (f, level, refl)
Round-cases (pushed f rest events) = inr (f, rest, events, refl)

module _ (q : Quicvarint) where
  read_sized_shrinks :
      (size b : ℕ) (t : Bytes) (ending : Ending) (v : ℕ) (enc rest : Bytes)
      → 1 ≤ size
      → read_sized q size b t ending ≡ got v enc rest
      → length rest < length (b ∷ t)
  unfolding read_sized
  read_sized_shrinks size b t ending v enc rest h e =
      elim (Bool-cases (leb size (length (b ∷ t)))) [
        | inl whole ↦
            let (_, r) =
              parsed-got (q.parse (take size (b ∷ t))) (take size (b ∷ t)) (drop size (b ∷ t)) v enc
                rest (rw whole at e) in
            omega (arith, length-drop size (b ∷ t), ap length r)
        | inr short ↦ absurd (got-ne-failed (sym (rw short at e)))
      ]

  -- The rest of the stream behind a varint is shorter.
  read_varint_shrinks :
      (content : Bytes) (ending : Ending) (v : ℕ) (enc rest : Bytes)
      → read_varint q content ending ≡ got v enc rest
      → length rest < length content
  unfolding read_varint
  read_varint_shrinks [] ending v enc rest e = absurd (got-ne-failed (sym e))
  read_varint_shrinks (b ∷ t) ending v enc rest e =
      read_sized_shrinks (2 ^ (b / 64)) b t ending v enc rest (two_pow_pos (b / 64)) e

  read_payload_shrinks :
      (choice : ℕ) (f : ReceiveFlow) (stream_id : ℕ) (ending : Ending) (len : ℕ) (enc rest : Bytes)
      (f' : ReceiveFlow) (more : Bytes) (events : List Event)
      → read_payload choice f stream_id ending (got len enc rest) ≡ pushed f' more events
      → length more ≤ length rest
  unfolding read_payload or_return
  read_payload_shrinks choice f stream_id ending len enc rest f' more events e =
      elim (Option-cases (payload_fails len rest ending)) [
        | inl whole ↦ omega (arith, length-drop len rest, ap length (pushed_rest (rw whole at e)))
        | inr (level, cut) ↦ absurd (pushed-ne-return (sym (rw cut at e)))
      ]

  pub read_frame_shrinks :
      (choice : ℕ) (f : ReceiveFlow) (stream_id : ℕ) (content : Bytes) (ending : Ending)
      (f' : ReceiveFlow) (rest : Bytes) (events : List Event)
      → read_frame q choice f stream_id content ending ≡ pushed f' rest events
      → length rest < length content
  unfolding read_frame
  read_frame_shrinks choice f stream_id content ending f' rest events e =
      elim (VarintRead-cases (read_varint q content ending)) [
        | inl (len, enc, more, g) ↦ omega (
          arith,
          read_varint_shrinks content ending len enc more g,
          read_payload_shrinks choice f stream_id ending len enc more f' rest events (rw g at e),
        )
        | inr (x, bad) ↦ absurd (pushed-ne-return (sym (unfold read_payload in (rw bad at e))))
      ]

  module _ (pick : ReceiveFlow → ℕ) where
    -- A round for each byte of the stream and one more are enough.
    read_loop-total :
        (fuel : ℕ) (f : ReceiveFlow) (stream_id : ℕ) (content : Bytes) (ending : Ending)
        (events : List Event)
        → length content < fuel
        → (r : StreamRead) × (read_loop q pick fuel f stream_id content ending events ≡ some r)
          × (r.cancelled ≡ [])
    unfolding read_loop
    read_loop-total zero f stream_id content ending events h = absurd (omega arith)
    read_loop-total (suc fuel) f stream_id content ending events h =
        elim (Round-cases (read_frame q (pick f) f stream_id content ending)) [
          | inl (g, level, e) ↦ (
            record { flow = g; log = level; events = events; cancelled = [] },
            rw (e, read_loop),
            refl,
          )
          | inr (g, rest, more, e) ↦
              rw (e, read_loop)
                (read_loop-total fuel g stream_id rest ending (events ++ more) (
                  omega
                    (arith, read_frame_shrinks (pick f) f stream_id content ending g rest more e)))
        ]

    -- `readStream` returns on every stream that ends. On a closed flow it cancels the stream without an
    -- error code and leaves the flow alone; otherwise the stream is unregistered when it returns.
    pub read_stream-total :
        (f : ReceiveFlow) (rs : ReceiveStream)
        → (r : StreamRead) × (read_stream q pick f rs ≡ some r)
          × (((f.ctx_done ≡ true) × (r.flow ≡ f) × (r.cancelled ≡ (rs.id, err_roq_no_error) ∷ []))
              ⊎ ((f.ctx_done ≡ false) × (lookup rs.id r.flow.streams ≡ none) × (r.cancelled ≡ [])))
    read_stream-total f rs = elim (Bool-cases f.ctx_done) [
      | inl dead ↦ (
        record { flow = f; log = silent; events = []; cancelled = (rs.id, err_roq_no_error) ∷ [] },
        unfold read_stream register in (simp dead),
        inl (dead, refl, refl),
      )
      | inr live ↦
          let f' : ReceiveFlow = record f { streams = insert rs.id tt f.streams } in
          let (r, e, c) =
            read_loop-total (suc (length rs.content)) f' rs.id rs.content rs.ending []
              (omega arith) in
          (
            record r { flow = unregister r.flow rs.id },
            read_stream_live q pick f rs live ∙ unfold read_registered deferred in rw e,
            inr (
              live,
              unfold unregister in lookup-delete rs.id rs.id r.flow.streams ∙ rw (==_refl rs.id),
              c,
            ),
          )
    ]
