-- ===== src/Qlog/Encode/Json.antt =====
-- What the encoders of qlog/event.go write, against a description of each event as a JSON object.
use Prim.Native.String.{String}
use roq.Common.{
  ℕ, ◌≡◌, refl, sym, ap, ◌∙◌, Option, none, some, Bool, not, List, [], ◌∷◌, ◌++◌, ◌==◌, length,
  if◌then◌else◌, arith, append-nil, Option-cases, Bool-cases, inl, inr,
}
use roq.Qlog.{
  RawInfo, Packet, Event, has_values, stream_opened, stream_packet_created, stream_packet_parsed,
  datagram_packet_created, datagram_packet_parsed,
}
use roq.Qlog.Encode.{
  Token, begin_object, end_object, text, uint, encode_to_string, EncoderHelper, new_helper, outcome,
  write_token, nested, encode_raw_info, encode_packet, encode_stream_packet, encode_datagram_packet,
  encode_stream_opened, encode_event,
}

mutual
  pub data Json : Type 0 where
    number : ℕ → Json
    quoted : String → Json
    object : Members → Json

  pub data Members : Type 0 where
    done : Members
    member : String → Json → Members → Members

abbrev mutual
  pub tokens : Json → List Token
  tokens (number n) = uint n ∷ []
  tokens (quoted s) = text s ∷ []
  tokens (object m) = begin_object ∷ (member_tokens m ++ (end_object ∷ []))

  pub member_tokens : Members → List Token
  member_tokens done = []
  member_tokens (member key v m) = text key ∷ (tokens v ++ member_tokens m)

-- A member that is there only if `b` holds.
abbrev pub member_if : Bool → String → Json → Members → Members
member_if b key v m = if b then member key v m else m

pub raw_info_json : RawInfo → Json
raw_info_json i = object (
    member_if (not (i.length_on_wire == 0)) "length" (number i.length_on_wire) (
      member_if (not (i.payload_length == 0)) "payload_length" (number i.payload_length) (
        member_if (not (length i.raw_data == 0)) "data" (quoted (encode_to_string i.raw_data))
          done)))

pub packet_json : Packet → Json
packet_json p = object (
    member "flow_id" (number p.flow_id) (
      member "length" (number p.packet_length)
        (member_if (has_values p.raw) "raw" (raw_info_json p.raw) done)))

pub event_json : Event → Json
event_json (stream_opened f s) =
    object (member "flow_id" (number f) (member "stream_id" (number s) done))
event_json (stream_packet_created s p) =
    object (member "stream_id" (number s) (member "packet" (packet_json p) done))
event_json (stream_packet_parsed s p) =
    object (member "stream_id" (number s) (member "packet" (packet_json p) done))
event_json (datagram_packet_created p) = object (member "packet" (packet_json p) done)
event_json (datagram_packet_parsed p) = object (member "packet" (packet_json p) done)

module _ {E X : Type 0} (write : E → Token → E × Option X) where
  -- The tokens one by one, up to the first that the encoder refuses.
  pub write_all : List Token → E → E × Option X
  write_all [] e = (e, none)
  write_all (t ∷ ts) e =
      let (e', r) = write e t in elim r [ none ↦ write_all ts e' | some x ↦ (e', some x) ]

  -- The same through the helper.
  feed : EncoderHelper E X → List Token → EncoderHelper E X
  feed h [] = h
  feed h (t ∷ ts) = feed (write_token write h t) ts

  feed-append :
      (h : EncoderHelper E X) (ts us : List Token) → feed h (ts ++ us) ≡ feed (feed h ts) us
  unfolding feed
  feed-append h [] us = refl
  feed-append h (t ∷ ts) us = feed-append (write_token write h t) ts us

  feed_failed :
      (e : E) (x : X) (ts : List Token)
      → feed (record { enc = e; err = some x }) ts ≡ record { enc = e; err = some x }
  unfolding feed write_token
  feed_failed e x [] = refl
  feed_failed e x (t ∷ ts) = feed_failed e x ts

  feed-write_all : (ts : List Token) (e : E) → outcome (feed (new_helper e) ts) ≡ write_all ts e
  unfolding feed write_all write_token
  feed-write_all [] e = refl
  feed-write_all (t ∷ ts) e = elim (Option-cases (write e t).1) [
    | inl ok ↦ rw (ok, feed, write_all) (feed-write_all ts (write e t).0)
    | inr (x, failed) ↦ rw (failed, feed, write_all) (ap outcome (feed_failed (write e t).0 x ts))
  ]

  nested-feed :
      (h : EncoderHelper E X) (inner : E → E × Option X) (ts : List Token)
      → ((e : E) → inner e ≡ outcome (feed (new_helper e) ts))
      → nested write h inner ≡ feed h ts
  unfolding nested
  nested-feed h inner ts same = elim (Option-cases h.err) [
    | inl ok ↦ rw (ok, same h.enc) refl
    | inr (x, failed) ↦ rw failed (sym (feed_failed h.enc x ts))
  ]

  encode_raw_info-feed :
      (i : RawInfo) (e : E)
      → encode_raw_info write i e ≡ outcome (feed (new_helper e) (tokens (raw_info_json i)))
  unfolding encode_raw_info raw_info_json feed
  encode_raw_info-feed i e = ground arith

  encode_packet-feed :
      (p : Packet) (e : E)
      → encode_packet write p e ≡ outcome (feed (new_helper e) (tokens (packet_json p)))
  unfolding encode_packet packet_json feed
  encode_packet-feed p e =
      rw
        (nested-feed _ (encode_raw_info write p.raw) (tokens (raw_info_json p.raw))
          (encode_raw_info-feed p.raw))
        (elim (Bool-cases (has_values p.raw)) [
          | inl logged ↦ rw logged (simp (append-nil, feed-append))
          | inr absent ↦ rw absent
        ])

  encode_stream_packet-feed :
      (s : ℕ) (p : Packet) (e : E)
      → encode_stream_packet write s p e
        ≡ outcome (feed (new_helper e) (tokens (event_json (stream_packet_created s p))))
  unfolding encode_stream_packet event_json feed
  encode_stream_packet-feed s p e =
      rw (nested-feed _ (encode_packet write p) (tokens (packet_json p)) (encode_packet-feed p))
        (simp (append-nil, feed-append))

  encode_datagram_packet-feed :
      (p : Packet) (e : E)
      → encode_datagram_packet write p e
        ≡ outcome (feed (new_helper e) (tokens (event_json (datagram_packet_created p))))
  unfolding encode_datagram_packet event_json feed
  encode_datagram_packet-feed p e =
      rw (nested-feed _ (encode_packet write p) (tokens (packet_json p)) (encode_packet-feed p))
        (simp (append-nil, feed-append))

  encode_event-feed :
      (v : Event) (e : E)
      → encode_event write v e ≡ outcome (feed (new_helper e) (tokens (event_json v)))
  unfolding encode_event
  encode_event-feed (stream_opened f s) e = unfold encode_stream_opened event_json feed in refl
  encode_event-feed (stream_packet_created s p) e = encode_stream_packet-feed s p e
  encode_event-feed (stream_packet_parsed s p) e =
      unfold event_json in encode_stream_packet-feed s p e
  encode_event-feed (datagram_packet_created p) e = encode_datagram_packet-feed p e
  encode_event-feed (datagram_packet_parsed p) e =
      unfold event_json in encode_datagram_packet-feed p e

  -- Encoding an event writes the tokens of the JSON object that describes it, in order, up to the first
  -- token that the encoder refuses, and returns that token's error.
  pub encode_event-write_all :
      (v : Event) (e : E) → encode_event write v e ≡ write_all (tokens (event_json v)) e
  encode_event-write_all v e = encode_event-feed v e ∙ feed-write_all (tokens (event_json v)) e
