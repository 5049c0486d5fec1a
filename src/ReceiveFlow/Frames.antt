-- ===== src/ReceiveFlow/Frames.antt =====
-- `readStream` and `readVarint` of receive_flow.go.
pub mod Prefix
pub mod RoundTrip
pub mod Truncated
pub mod Varint
pub mod Total
use roq.Common.{
  ℕ, zero, suc, ◌+◌, ◌/◌, ◌^◌, ◌≡◌, Bool, true, false, Option, none, some, List, [], ◌∷◌, ◌++◌,
  length, take, drop, leb, if◌then◌else◌,
}
use roq.Quicvarint.{Bytes, Quicvarint}
use roq.Qlog.{Event, stream_packet_parsed}
use roq.Qlogger.{raw_data, recorded}
use roq.ReceiveFlow.{ReceiveFlow, PacketBuffer, Cancel, get, push, register, unregister}

-- What a stream yields behind its bytes: the end, a `quic.StreamError`, or another error.
pub data Ending : Type 0 where
  finished reset broken : Ending

-- A stream and all that the peer sends on it.
pub record ReceiveStream : Type 0 where
  pub id : ℕ
  pub content : Bytes
  pub ending : Ending

pub data ReadError : Type 0 where
  eof unexpected_eof stream_error other_error : ReadError

abbrev pub error_of : Ending → ReadError
error_of finished = eof
error_of reset = stream_error
error_of broken = other_error

-- The error of `io.ReadFull` that got `part` only, as the stream had no more.
abbrev pub short_read : Bytes → Ending → ReadError
short_read [] ending = error_of ending
short_read (b ∷ bs) finished = unexpected_eof
short_read (b ∷ bs) reset = stream_error
short_read (b ∷ bs) broken = other_error

-- The value, the bytes that it was encoded in, and what is left of the stream.
pub data VarintRead : Type 0 where
  got : ℕ → Bytes → Bytes → VarintRead
  failed : ReadError → VarintRead

parsed : Option (ℕ × ℕ) → Bytes → Bytes → VarintRead
parsed (some (v, n)) buf rest = got v buf rest
parsed none buf rest = failed other_error

-- With `size` bytes in the encoding, of which the first was read.
read_sized : Quicvarint → ℕ → ℕ → Bytes → Ending → VarintRead
unfolding parsed
read_sized q size b t ending =
    if leb size (length (b ∷ t))
    then parsed (q.parse (take size (b ∷ t))) (take size (b ∷ t)) (drop size (b ∷ t))
    else failed (short_read t ending)

pub read_varint : Quicvarint → Bytes → Ending → VarintRead
unfolding read_sized
read_varint q [] ending = failed (error_of ending)
read_varint q (b ∷ t) ending = read_sized q (2 ^ (b / 64)) b t ending

-- The level of the log record that a return writes: none at a clean end.
pub data LogLevel : Type 0 where
  silent debug warn : LogLevel

abbrev pub level_of : ReadError → LogLevel
level_of eof = silent
level_of stream_error = debug
level_of unexpected_eof = warn
level_of other_error = warn

-- One round of the loop: it returns, or has pushed a packet and left the rest of the stream.
pub data Round : Type 0 where
  return : ReceiveFlow → LogLevel → Round
  pushed : ReceiveFlow → Bytes → List Event → Round

-- `b.ReadFrom` on the limited reader takes at most `len` bytes, and no error where the stream ends early.
payload_fails : ℕ → Bytes → Ending → Option LogLevel
payload_fails len rest ending =
    if leb len (length rest)
    then none
    else (elim ending [ finished ↦ none | reset ↦ some debug | broken ↦ some warn ])

-- The event of a packet of `len` bytes by its prefix, whose frame was `image`.
pub parsed_event : ReceiveFlow → ℕ → ℕ → Bytes → List Event
parsed_event f stream_id len image = recorded f.qlog (λ l. stream_packet_parsed stream_id (record {
  flow_id = f.id;
  packet_length = length image;
  raw = record { length_on_wire = length image; payload_length = len; raw_data = raw_data l image };
}))

or_return : Option LogLevel → ReceiveFlow → Round → Round
or_return (some level) f round = return f level
or_return none f round = round

-- A round once its length prefix was read. `choice` is the pool's, see `get`.
read_payload : ℕ → ReceiveFlow → ℕ → Ending → VarintRead → Round
unfolding payload_fails or_return
read_payload choice f stream_id ending (failed e) = return f (level_of e)
read_payload choice f stream_id ending (got len encoded_length rest) =
    let (b, f') = get choice f in
    let image = encoded_length ++ take len rest in
    or_return (payload_fails len rest ending) f' (
      pushed (push f' (record b { bytes = drop (length encoded_length) image })) (drop len rest)
        (parsed_event f stream_id len image))

pub read_frame : Quicvarint → ℕ → ReceiveFlow → ℕ → Bytes → Ending → Round
unfolding read_payload
read_frame q choice f stream_id content ending =
    read_payload choice f stream_id ending (read_varint q content ending)

-- What `readStream` leaves: the flow, the level it logged at, the events and the cancelled streams.
pub record StreamRead : Type 0 where
  pub flow : ReceiveFlow
  pub log : LogLevel
  pub events : List Event
  pub cancelled : List Cancel

-- The loop, with nothing else running; `none` if the fuel ran out. `pick` makes the pool's choices.
pub read_loop :
    Quicvarint
    → (ReceiveFlow → ℕ)
    → ℕ
    → ReceiveFlow
    → ℕ
    → Bytes
    → Ending
    → List Event
    → Option StreamRead
read_loop q pick zero f stream_id content ending events = none
read_loop q pick (suc fuel) f stream_id content ending events =
    elim (read_frame q (pick f) f stream_id content ending) [
      | return f' level ↦ some (record { flow = f'; log = level; events = events; cancelled = [] })
      | pushed f' rest more ↦ read_loop q pick fuel f' stream_id rest ending (events ++ more)
    ]

-- The deferred call that unregisters the stream.
deferred : ℕ → Option StreamRead → Option StreamRead
deferred stream_id none = none
deferred stream_id (some r) = some (record r { flow = unregister r.flow stream_id })

-- `readStream` from where the stream is registered. A frame takes a byte at least, so a round for each
-- byte and one to see the end are enough.
pub read_registered :
    Quicvarint → (ReceiveFlow → ℕ) → ReceiveFlow → ReceiveStream → Option StreamRead
unfolding deferred
read_registered q pick f rs =
    deferred rs.id (read_loop q pick (suc (length rs.content)) f rs.id rs.content rs.ending [])

pub read_stream : Quicvarint → (ReceiveFlow → ℕ) → ReceiveFlow → ReceiveStream → Option StreamRead
unfolding read_registered
read_stream q pick f rs =
    let (f', cancelled) = register f rs.id in
    if f.ctx_done
    then some (record { flow = f'; log = silent; events = []; cancelled = cancelled })
    else read_registered q pick f' rs
