-- ===== src/Qlog/Encode.antt =====
-- The encoders of qlog/event.go. The JSON encoder (quic-go's jsontext) is a parameter: `write` is its
-- `WriteToken`, which takes a token and may fail.
pub mod Json
use Prim.Native.Char.{Char}
use Prim.Native.String.{String}
use roq.Common.{
  ℕ, zero, suc, ◌/◌, ◌%◌, Option, none, some, Bool, true, false, not, List, [], ◌∷◌, ◌==◌, length,
  if◌then◌else◌,
}
use roq.Quicvarint.{Bytes}
use roq.Qlog.{
  RawInfo, Packet, Event, has_values, stream_opened, stream_packet_created, stream_packet_parsed,
  datagram_packet_created, datagram_packet_parsed,
}

-- The tokens of jsontext that the code writes.
pub data Token : Type 0 where
  begin_object end_object : Token
  text : String → Token
  uint : ℕ → Token

-- Go's `encoding/hex`, digit by digit.
abbrev char_or : String → ℕ → Char → Char
char_or String.[] i d = d
char_or (String.◌∷◌ c s) zero d = c
char_or (String.◌∷◌ c s) (suc i) d = char_or s i d

hex_digit : ℕ → Char
hex_digit n = char_or "0123456789abcdef" n "?"

pub encode_to_string : Bytes → String
unfolding hex_digit
encode_to_string [] = ""
encode_to_string (b ∷ bs) =
    String.◌∷◌ (hex_digit (b / 16)) (String.◌∷◌ (hex_digit (b % 16)) (encode_to_string bs))

-- `encoderHelper`. The encoder is a pointer, so a nested helper writes to the same one.
pub record EncoderHelper (E X : Type 0) : Type 0 where
  pub enc : E
  pub err : Option X

abbrev pub new_helper : {E X : Type 0} → E → EncoderHelper E X
new_helper e = record { enc = e; err = none }

abbrev pub outcome : {E X : Type 0} → EncoderHelper E X → E × Option X
outcome h = (h.enc, h.err)

module _ {E X : Type 0} (write : E → Token → E × Option X) where
  pub write_token : EncoderHelper E X → Token → EncoderHelper E X
  write_token h t = elim h.err [
    | some x ↦ h
    | none ↦ let (e, r) = write h.enc t in record { enc = e; err = r }
  ]

  -- `if h.err == nil { h.err = inner.encode(enc) }`
  nested : EncoderHelper E X → (E → E × Option X) → EncoderHelper E X
  nested h inner = elim h.err [
    | some x ↦ h
    | none ↦ let (e, r) = inner h.enc in record { enc = e; err = r }
  ]

  uint_field : EncoderHelper E X → String → ℕ → EncoderHelper E X
  uint_field h key v = write_token (write_token h (text key)) (uint v)

  encode_raw_info : RawInfo → E → E × Option X
  unfolding uint_field
  encode_raw_info i e =
      let h0 = write_token (new_helper e) begin_object in
      let h1 =
        if not (i.length_on_wire == 0) then uint_field h0 "length" i.length_on_wire else h0 in
      let h2 =
        if not (i.payload_length == 0)
        then uint_field h1 "payload_length" i.payload_length
        else h1 in
      let h3 =
        if not (length i.raw_data == 0)
        then write_token (write_token h2 (text "data")) (text (encode_to_string i.raw_data))
        else h2 in
      outcome (write_token h3 end_object)

  encode_packet : Packet → E → E × Option X
  unfolding uint_field nested
  encode_packet p e =
      let h0 = write_token (new_helper e) begin_object in
      let h1 = uint_field h0 "flow_id" p.flow_id in
      let h2 = uint_field h1 "length" p.packet_length in
      let h3 =
        if has_values p.raw
        then nested (write_token h2 (text "raw")) (encode_raw_info p.raw)
        else h2 in
      outcome (write_token h3 end_object)

  encode_stream_packet : ℕ → Packet → E → E × Option X
  unfolding uint_field nested
  encode_stream_packet stream_id p e =
      let h0 = write_token (new_helper e) begin_object in
      let h1 = uint_field h0 "stream_id" stream_id in
      let h2 = nested (write_token h1 (text "packet")) (encode_packet p) in
      outcome (write_token h2 end_object)

  encode_datagram_packet : Packet → E → E × Option X
  unfolding nested
  encode_datagram_packet p e =
      let h0 = write_token (new_helper e) begin_object in
      let h1 = nested (write_token h0 (text "packet")) (encode_packet p) in
      outcome (write_token h1 end_object)

  encode_stream_opened : ℕ → ℕ → E → E × Option X
  unfolding uint_field
  encode_stream_opened flow_id stream_id e =
      let h0 = write_token (new_helper e) begin_object in
      let h1 = uint_field h0 "flow_id" flow_id in
      let h2 = uint_field h1 "stream_id" stream_id in outcome (write_token h2 end_object)

  -- The `Encode` methods of the five events.
  pub encode_event : Event → E → E × Option X
  encode_event (stream_opened f s) e = encode_stream_opened f s e
  encode_event (stream_packet_created s p) e = encode_stream_packet s p e
  encode_event (stream_packet_parsed s p) e = encode_stream_packet s p e
  encode_event (datagram_packet_created p) e = encode_datagram_packet p e
  encode_event (datagram_packet_parsed p) e = encode_datagram_packet p e
