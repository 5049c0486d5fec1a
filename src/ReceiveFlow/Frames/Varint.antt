-- ===== src/ReceiveFlow/Frames/Varint.antt =====
-- `readVarint` of receive_flow.go against `Parse` of quicvarint.
use roq.Common.{
  leb→le, ℕ, ◌/◌, ◌^◌, ◌≤◌, ◌≡◌, inl, inr, refl, sym, ap, ◌∙◌, true, false, Option, none, some, [],
  ◌∷◌, All, length, take, drop, arith, leb, Option-cases, Bool-cases,
}
use roq.Quicvarint.{Bytes, IsByte, Quicvarint, IsQuicvarint}
use roq.ReceiveFlow.Frames.{
  Ending, error_of, short_read, VarintRead, got, failed, parsed, read_sized, read_varint,
}

-- What is to come of a reader that has these bytes and then the ending, by what `Parse` makes of the bytes.
abbrev pub by_parse : Option (ℕ × ℕ) → Bytes → Ending → VarintRead
by_parse (some (v, n)) content ending = got v (take n content) (drop n content)
by_parse none [] ending = failed (error_of ending)
by_parse none (b ∷ t) ending = failed (short_read t ending)

le→leb : (n m : ℕ) → n ≤ m → leb n m ≡ true
le→leb n m h = ground arith

module _ (q : Quicvarint) (qv : IsQuicvarint q) where
  read_sized_whole :
      (b : ℕ) (t : Bytes) (v n : ℕ) (ending : Ending)
      → IsByte b
      → q.parse (b ∷ t) ≡ some (v, n)
      → read_sized q n b t ending ≡ got v (take n (b ∷ t)) (drop n (b ∷ t))
  unfolding read_sized parsed
  read_sized_whole b t v n ending h e =
      let (_, _, within) = qv.parse_bounds (b ∷ t) v n e in
      rw (le→leb n (length (b ∷ t)) within, qv.parse-take (b ∷ t) v n e) refl

  read_sized_short :
      (size b : ℕ) (t : Bytes) (ending : Ending)
      → leb size (length (b ∷ t)) ≡ false
      → read_sized q size b t ending ≡ failed (short_read t ending)
  unfolding read_sized
  read_sized_short size b t ending short = rw short refl

  -- For a reader of bytes: `readVarint` yields what `Parse` makes of all the bytes that are there, with the
  -- bytes that the value was encoded in, and leaves the bytes behind them; where `Parse` fails, it
  -- fails, with the error of the read that came short.
  pub read_varint-parse :
      (content : Bytes) (ending : Ending)
      → All IsByte content
      → read_varint q content ending ≡ by_parse (q.parse content) content ending
  unfolding read_varint
  read_varint-parse [] ending h = sym (ap (λ o. by_parse o [] ending) qv.parse-nil)
  read_varint-parse (b ∷ t) ending h = elim (Option-cases (q.parse (b ∷ t))) [
    | inl bad ↦ elim (Bool-cases (leb (2 ^ (b / 64)) (length (b ∷ t)))) [
      | inl whole ↦ absurd (qv.parse_fits b t h.0 (leb→le _ _ whole) bad)
      | inr short ↦
          read_sized_short (2 ^ (b / 64)) b t ending short
          ∙ sym (ap (λ o. by_parse o (b ∷ t) ending) bad)
    ]
    | inr ((v, n), e) ↦
        ap (λ k. read_sized q k b t ending) (sym (qv.parse_first b t v n h.0 e))
        ∙ read_sized_whole b t v n ending h.0 e
        ∙ sym (ap (λ o. by_parse o (b ∷ t) ending) e)
  ]
