-- ===== src/Quicvarint.antt =====
-- The interface of github.com/quic-go/quic-go/quicvarint, the variable-length integers of RFC 9000,
-- Section 16, which session.go, send_flow.go, rtp_send_stream.go and receive_flow.go call.
-- The package is not part of the repository: its functions are the fields of `Quicvarint`, and what
-- its documentation and the RFC promise of them are the fields of `IsQuicvarint`.
-- `Append` and `Len` panic above 2^62 - 1; a caller's theorem has that bound as a hypothesis.
pub mod Rfc
use roq.Common.{
  All, ℕ, ◌-◌, ◌/◌, ◌^◌, ◌≤◌, ◌<◌, ◌≡◌, ◌≢◌, List, [], ◌∷◌, ◌++◌, Option, none, some, length, take,
  drop,
}

-- A byte slice is a list of numbers.
abbrev pub Bytes : Type 0
Bytes = List ℕ

-- The first number that no varint encodes.
abbrev pub varint_limit : ℕ
varint_limit = 2 ^ 62

abbrev pub IsByte : ℕ → Type 0
IsByte b = b < 256

-- `parse` is `quicvarint.Parse` (the value and the bytes taken, or an error), `append` is
-- `quicvarint.Append`, `len` is `quicvarint.Len`, and `read` is `quicvarint.Read`: the value and what it
-- leaves of the reader's bytes, or an error.
pub record Quicvarint : Type 0 where
  pub parse : Bytes → Option (ℕ × ℕ)
  pub append : Bytes → ℕ → Bytes
  pub len : ℕ → ℕ
  pub read : Bytes → Option (ℕ × Bytes)

-- `Append` writes behind the slice, `len` bytes, and `Parse` reads those back. The two upper
-- bits of the first byte give the number of bytes, and `Parse` fails on a shorter slice only, looks at
-- no byte further on, and yields 62 bits.
pub record IsQuicvarint (q : Quicvarint) : Type 0 where
  pub append-nil : (b : Bytes) (v : ℕ) → v < varint_limit → q.append b v ≡ b ++ q.append [] v
  pub length-append : (v : ℕ) → v < varint_limit → length (q.append [] v) ≡ q.len v
  pub append_bytes : (v : ℕ) → v < varint_limit → All IsByte (q.append [] v)
  pub parse-append :
      (v : ℕ) (rest : Bytes)
      → v < varint_limit
      → q.parse (q.append [] v ++ rest) ≡ some (v, q.len v)
  pub parse-nil : q.parse [] ≡ none
  pub parse_first :
      (b : ℕ) (t : Bytes) (v n : ℕ) → IsByte b → q.parse (b ∷ t) ≡ some (v, n) → n ≡ 2 ^ (b / 64)
  pub parse_fits :
      (b : ℕ) (t : Bytes) → IsByte b → 2 ^ (b / 64) ≤ length (b ∷ t) → q.parse (b ∷ t) ≢ none
  pub parse_bounds :
      (bs : Bytes) (v n : ℕ)
      → q.parse bs ≡ some (v, n)
      → (v < varint_limit) × (1 ≤ n) × (n ≤ length bs)
  pub parse-take :
      (bs : Bytes) (v n : ℕ) → q.parse bs ≡ some (v, n) → q.parse (take n bs) ≡ some (v, n)
  pub read-parse :
      (bs : Bytes) (v n : ℕ) → q.parse bs ≡ some (v, n) → q.read bs ≡ some (v, drop n bs)
  pub read_fails : (bs : Bytes) → q.parse bs ≡ none → q.read bs ≡ none
