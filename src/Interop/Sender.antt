-- ===== src/Interop/Sender.antt =====
-- examples/interop/sender.go: the frames of a video, packetized, by datagrams or by streams.
pub mod Packets
pub mod Datagrams
pub mod Modes
pub mod Loop
pub mod Going
pub mod Send
pub mod Sample
mod Tests
use mathlib.Core.Option
use roq.Common.{
  ℕ, suc, zero, Bool, true, false, Option, none, some, List, [], ◌∷◌, ◌++◌, length, if◌then◌else◌,
}
use roq.Common.Int.{ℤ, pos, negsuc}
use roq.Errors.{Error}
use roq.Quicvarint.{Bytes, Quicvarint}
use roq.SendFlow.{SendFlow}
use roq.SendFlow
use roq.RtpSendStream.{
  SendStream, RtpSendStream, Written, new_rtp_send_stream, write_rtp_bytes, close,
}

-- The constants of type `mode`, which is Go's `int`.
abbrev pub datagram_mode : ℤ
datagram_mode = pos 0

abbrev pub stream_per_frame_mode : ℤ
stream_per_frame_mode = pos 1

abbrev pub single_stream_mode : ℤ
single_stream_mode = pos 2

-- What `FrameReader` yields: frames, and then an error, or `io.EOF` as `none`.
pub record Video : Type 0 where
  pub frames : List Bytes
  pub ending : Option Error

-- `rtp.Packetizer` and `Packet.Marshal` of pion/rtp: the packetizer has a state, and marshalling may fail.
pub record Packetizer (K P : Type 0) : Type 0 where
  pub packetize : K → Bytes → K × List P
  pub marshal : P → Option Bytes
  pub marshal_error : Error

abbrev pub sent_bytes : Option Bytes → List Bytes
sent_bytes none = []
sent_bytes (some b) = b ∷ []

-- The loop of `sendDatagrams` goes on after a datagram unless there was an error.
abbrev pub then_datagrams :
    SendFlow.Datagram → List Bytes × Option Error → List Bytes × Option Error
then_datagrams d more = elim d.err [
  | some e ↦ (sent_bytes d.sent, some e)
  | none ↦ (sent_bytes d.sent ++ more.0, more.1)
]

module _ {K P : Type 0} (z : Packetizer K P) (send : Bytes → Option Error) (f : SendFlow) where
  -- `send` is `SendDatagram` of the connection.
  unfoldable pub send_datagrams : List P → List Bytes × Option Error
  send_datagrams [] = ([], none)
  send_datagrams (pkt ∷ packets) = elim (z.marshal pkt) [
    | none ↦ ([], some z.marshal_error)
    | some buf ↦ then_datagrams (SendFlow.write_rtp_bytes send f buf) (send_datagrams packets)
  ]

module _ {K P S : Type 0} (z : Packetizer K P) (q : Quicvarint) (i : SendStream S) where
  unfoldable pub send_stream : RtpSendStream S → List P → RtpSendStream S × Option Error
  send_stream s [] = (s, none)
  send_stream s (pkt ∷ packets) = elim (z.marshal pkt) [
    | none ↦ (s, some z.marshal_error)
    | some buf ↦
        let w = write_rtp_bytes q i s buf in
        elim w.err [ some e ↦ (w.self, some e) | none ↦ send_stream w.self packets ]
  ]

-- What `OpenUniStreamSync` returns.
pub data Opening (S : Type 0) : Type 0 where
  stream_of : S → Opening S
  open_fails : Error → Opening S

-- `send` between two frames: the packetizer, the stream of the single-stream mode, the streams of the
-- other mode, which are closed, the datagrams sent, and the error that `send` is to return.
pub record Sending (K S : Type 0) : Type 0 where
  pub packetizer : K
  pub single : Option (RtpSendStream S)
  pub per_frame : List (RtpSendStream S)
  pub datagrams : List Bytes
  pub err : Option Error

-- `open_stream n` is what the connection answers to the call with number `n`.
module _ {K P S : Type 0} (z : Packetizer K P) (q : Quicvarint) (i : SendStream S)
    (send_datagram : Bytes → Option Error) (open_stream : ℕ → Opening S) (f : SendFlow) where
  -- `NewSendStream` on the open flow `f`.
  abbrev pub stream_on : S → RtpSendStream S
  stream_on s = new_rtp_send_stream s f.id f.flow_id f.qlog

  -- The end of a frame on its own stream, which is closed unless a packet failed.
  abbrev pub end_frame : Sending K S → RtpSendStream S × Option Error → Sending K S
  end_frame st (r, some e) = record st { per_frame = st.per_frame ++ (r ∷ []); err = some e }
  end_frame st (r, none) =
      let (closed, e) = close i r in
      record st { per_frame = st.per_frame ++ (closed ∷ []); err = e }

  abbrev pub frame_on : Sending K S → List P → Opening S → Sending K S
  frame_on st packets (open_fails e) = record st { err = some e }
  frame_on st packets (stream_of s) = end_frame st (send_stream z q i (stream_on s) packets)

  -- There is a stream in this mode, from the start on.
  abbrev pub frame_on_single : Sending K S → List P → Option (RtpSendStream S) → Sending K S
  frame_on_single st packets none = st
  frame_on_single st packets (some r) =
      let (r', e) = send_stream z q i r packets in record st { single = some r'; err = e }

  -- `switch sendMode`, which does nothing in a mode that is none of the three.
  abbrev pub send_packets : ℤ → Sending K S → List P → Sending K S
  send_packets (pos zero) st packets =
      let (sent, e) = send_datagrams z send_datagram f packets in
      record st { datagrams = st.datagrams ++ sent; err = e }
  send_packets (pos (suc zero)) st packets = frame_on st packets (open_stream (length st.per_frame))
  send_packets (pos (suc (suc zero))) st packets = frame_on_single st packets st.single
  send_packets (pos (suc (suc (suc n)))) st packets = st
  send_packets (negsuc n) st packets = st

  abbrev pub send_frame : ℤ → Sending K S → Bytes → Sending K S
  send_frame mode st frame =
      let (k, packets) = z.packetize st.packetizer frame in
      send_packets mode (record st { packetizer = k }) packets

  -- What the loop comes to after a frame: the error, or the rest of the loop.
  abbrev pub or_stop : Sending K S → Sending K S → Option Error → Sending K S
  or_stop st rest (some e) = st
  or_stop st rest none = rest

  -- The loop, to the end of the video or the first error.
  unfoldable pub send_frames : ℤ → Sending K S → List Bytes → Option Error → Sending K S
  send_frames mode st [] ending = record st { err = ending }
  send_frames mode st (frame ∷ frames) ending =
      let st' = send_frame mode st frame in or_stop st' (send_frames mode st' frames ending) st'.err

  abbrev pub with_single : K → Opening S → Sending K S
  with_single k (open_fails e) = record {
    packetizer = k;
    single = none;
    per_frame = [];
    datagrams = [];
    err = some e;
  }
  with_single k (stream_of s) = record {
    packetizer = k;
    single = some (stream_on s);
    per_frame = [];
    datagrams = [];
    err = none;
  }

  -- `send` up to the loop.
  abbrev pub start_sending : ℤ → K → Sending K S
  start_sending (pos (suc (suc zero))) k = with_single k (open_stream 0)
  start_sending mode k = record {
    packetizer = k;
    single = none;
    per_frame = [];
    datagrams = [];
    err = none;
  }

  abbrev pub send_video : ℤ → Video → Sending K S → Sending K S
  send_video mode video st = or_stop st (send_frames mode st video.frames video.ending) st.err

  abbrev pub close_each : List (RtpSendStream S) → List (RtpSendStream S)
  close_each [] = []
  close_each (r ∷ rs) = (close i r).0 ∷ close_each rs

  -- The deferred calls: `Close` of the flow, which closes its streams, then that of the single stream.
  abbrev pub finish : Sending K S → Sending K S
  finish st = record st {
    per_frame = close_each st.per_frame;
    single = Option.map (λ r. (close i (close i r).0).0) st.single;
  }

  -- `send` on the flow that `NewSendFlow` returned.
  unfoldable pub send : ℤ → K → Video → Sending K S
  send mode k video = finish (send_video mode video (start_sending mode k))
