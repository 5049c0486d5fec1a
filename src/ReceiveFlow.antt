-- ===== src/ReceiveFlow.antt =====
-- receive_flow.go: the queue of the packets of one flow, the streams that fill it, and its deadline.
-- Each function is one critical section of the Go code, or a loop of them; the reader of `Read` is in
-- `Reader`, the loop of `readStream` in `Frames`.
pub mod Queue
pub mod Reader
pub mod Frames
pub mod Invariant
pub mod Interleaving
mod Tests
use roq.Common.{
  ℕ, zero, suc, ◌+◌, ◌≡◌, Bool, true, false, not, ◌||◌, Option, none, some, List, [], ◌∷◌, ◌++◌,
  length, get_elem?, ltb, ◌==◌, if◌then◌else◌,
}
use roq.Common.Chan.{Chan, make_chan, try_send, close_chan, Signals, close_signal, make_signal}
use roq.Common.GoMap.{GoMap, insert, delete, keys}
use roq.Errors.{Error, short_buffer, canceled, err_roq_no_error}
use roq.Quicvarint.{Bytes}
use roq.Qlogger.{Qlogger}

-- A `*bytes.Buffer`: its identity and its unread bytes.
pub record PacketBuffer : Type 0 where
  pub buf : ℕ
  pub bytes : Bytes

-- A `CancelRead`: the stream's ID and the error code.
abbrev pub Cancel : Type 0
Cancel = ℕ × ℕ

-- `pool` is the content of `bufferPool`, and `next_buf` the identity of the next buffer that its `New`
-- makes. `streams` holds the ID of each registered stream, which is its key. `ctx_done` says that `ctx`
-- is cancelled. `deadline_timer` is the channel that the running timer will report as expired.
pub record ReceiveFlow : Type 0 where
  pub id : ℕ
  pub buffer : Chan PacketBuffer
  pub pool : List PacketBuffer
  pub next_buf : ℕ
  pub ctx_done : Bool
  pub streams : GoMap (Unit {0})
  pub closed : Bool
  pub deadline_ch : ℕ
  pub deadline_expired : Bool
  pub deadline_timer : Option ℕ
  pub signals : Signals
  pub qlog : Option Qlogger

unfoldable pub new_receive_flow : ℕ → ℕ → Option Qlogger → ReceiveFlow
unfolding make_chan
new_receive_flow id receive_buffer_size qlog = record {
  id = id;
  buffer = make_chan receive_buffer_size;
  pool = [];
  next_buf = 0;
  ctx_done = false;
  streams = [];
  closed = false;
  deadline_ch = 0;
  deadline_expired = false;
  deadline_timer = none;
  signals = record { next = 1; closed = []; faulted = false };
  qlog = qlog;
}

-- `bufferPool.Put`, and `bufferPool.Get` with the reset that always follows it. The pool may hand out
-- any of its buffers, or a new one: `choice` is the place of the one it hands out, if there is one.
unfoldable pub put : ReceiveFlow → PacketBuffer → ReceiveFlow
put f packet = record f { pool = packet ∷ f.pool }

abbrev pub remove_at {ℓ} : {A : Type ℓ} → ℕ → List A → List A
remove_at i [] = []
remove_at zero (x ∷ xs) = xs
remove_at (suc i) (x ∷ xs) = x ∷ remove_at i xs

pub get : ℕ → ReceiveFlow → PacketBuffer × ReceiveFlow
get choice f = elim (get_elem? f.pool choice) [
  | some b ↦ (record { buf = b.buf; bytes = [] }, record f { pool = remove_at choice f.pool })
  | none ↦ (record { buf = f.next_buf; bytes = [] }, record f { next_buf = suc f.next_buf })
]

pub push : ReceiveFlow → PacketBuffer → ReceiveFlow
unfolding put try_send
push f packet =
    if f.closed
    then put f packet
    else (let (c, sent) = try_send f.buffer packet in
        if sent then record f { buffer = c } else put (record f { buffer = c }) packet)

-- The first part of `readStream`: the stream is registered, or cancelled if the flow is closed.
pub register : ReceiveFlow → ℕ → ReceiveFlow × List Cancel
register f stream_id =
    if f.ctx_done
    then (f, (stream_id, err_roq_no_error) ∷ [])
    else (record f { streams = insert stream_id tt f.streams }, [])

unfoldable pub unregister : ReceiveFlow → ℕ → ReceiveFlow
unregister f stream_id = record f { streams = delete stream_id f.streams }

-- What `Read` and `copyPacket` return: the bytes copied into the caller's buffer, whose number is the
-- count, and the error.
pub record ReadResult : Type 0 where
  pub copied : Bytes
  pub err : Option Error

-- `size` is the length of the caller's buffer.
unfoldable pub copy_packet : ReceiveFlow → ℕ → PacketBuffer → ReceiveFlow × ReadResult
unfolding put
copy_packet f size packet =
    if ltb size (length packet.bytes)
    then (put f packet, record { copied = []; err = some short_buffer })
    else (put f packet, record { copied = packet.bytes; err = none })

pub expire_deadline : ReceiveFlow → ℕ → ReceiveFlow
expire_deadline f ch =
    if not (f.deadline_ch == ch) || f.deadline_expired
    then f
    else record f { deadline_expired = true; signals = close_signal ch f.signals }

-- A deadline: the zero time, a time that has passed, or one to come.
pub data Deadline : Type 0 where
  cleared passed later : Deadline

-- The deadline channel replaced by a new one.
renew_deadline : ReceiveFlow → ReceiveFlow
renew_deadline f =
    let woken = if f.deadline_expired then f.signals else close_signal f.deadline_ch f.signals in
    record f {
      deadline_ch = woken.next;
      deadline_expired = false;
      deadline_timer = none;
      signals = make_signal woken;
    }

pub set_read_deadline : ReceiveFlow → Deadline → ReceiveFlow
unfolding renew_deadline
set_read_deadline f cleared = renew_deadline f
set_read_deadline f passed = let f' = renew_deadline f in expire_deadline f' f'.deadline_ch
set_read_deadline f later =
    let f' = renew_deadline f in record f' { deadline_timer = some f'.deadline_ch }

abbrev pub cancels : ℕ → List ℕ → List Cancel
cancels code [] = []
cancels code (s ∷ ss) = (s, code) ∷ cancels code ss

-- Every registered stream is cancelled.
pub close_with_error : ReceiveFlow → ℕ → List Cancel
close_with_error f code = cancels code (keys f.streams)

unfoldable pub close_buffer : ReceiveFlow → ReceiveFlow
close_buffer f =
    if f.closed
    then f
    else record f { closed = true; deadline_timer = none; buffer = close_chan f.buffer }

unfoldable pub cancel_ctx : ReceiveFlow → ReceiveFlow
cancel_ctx f = record f { ctx_done = true }

unfoldable pub close : ReceiveFlow → ReceiveFlow × List Cancel
close f = let f' = close_buffer (cancel_ctx f) in (f', close_with_error f' err_roq_no_error)
