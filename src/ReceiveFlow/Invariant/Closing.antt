-- ===== src/ReceiveFlow/Invariant/Closing.antt =====
-- A flow of receive_flow.go from its creation on, and what `Read` returns once it is closed.
use roq.Common.{
  ℕ, ◌≡◌, inl, refl, true, Option, none, some, List, [], ◌∷◌, length, ltb, if◌then◌else◌, arith,
}
use roq.Common.Chan.{close_chan}
use roq.Errors.{canceled, short_buffer}
use roq.Qlogger.{Qlogger}
use roq.Quicvarint.{Bytes}
use roq.Common.GoMap.{keys}
use roq.Errors.{err_roq_no_error}
use roq.ReceiveFlow.{
  cancels, close_with_error, ReceiveFlow, PacketBuffer, ReadResult, new_receive_flow, copy_packet,
  put, close, close_buffer, cancel_ctx,
}
use roq.ReceiveFlow.Queue.{packets, contents}
use roq.ReceiveFlow.Reader.{waiting, returned, read_step, receive}
use roq.ReceiveFlow.Invariant.{Reach, here, next, DeadlineValid, BufferValid}
use roq.ReceiveFlow.Invariant.Wakeups.{new-DeadlineValid, Reach-DeadlineValid}
use roq.ReceiveFlow.Invariant.Buffers.{Step-BufferValid}

new-BufferValid : (id size : ℕ) (log : Option Qlogger) → BufferValid (new_receive_flow id size log)
unfolding new_receive_flow
new-BufferValid id size log = record {
  sound = refl;
  agree = refl;
  cancelled = inl refl;
  within = omega arith;
  owned = λ b. ground arith;
}

Reach-BufferValid : {f g : ReceiveFlow} → Reach f g → BufferValid f → BufferValid g
Reach-BufferValid here v = v
Reach-BufferValid (next r s) v = Step-BufferValid s (Reach-BufferValid r v)

-- In every state that a new flow reaches, whatever ran in whatever order: no channel was closed twice
-- or sent to after its close, the queue is within its capacity and closed only behind a cancelled
-- context, no buffer is in two places, and of the deadline channels exactly the earlier ones, and the
-- current one if it has expired, are closed.
pub new-valid :
    (id size : ℕ) (log : Option Qlogger) (f : ReceiveFlow)
    → Reach (new_receive_flow id size log) f
    → DeadlineValid f × BufferValid f
new-valid id size log f r = (
  Reach-DeadlineValid r (new-DeadlineValid id size log),
  Reach-BufferValid r (new-BufferValid id size log),
)

abbrev pub tail : List Bytes → List Bytes
tail [] = []
tail (p ∷ ps) = ps

-- What the caller gets for a packet: the whole of it, or nothing and an error if it does not fit.
abbrev pub handed : ℕ → Bytes → ReadResult
handed size packet =
    if ltb size (length packet)
    then record { copied = []; err = some short_buffer }
    else record { copied = packet; err = none }

-- What `Read` returns for the queued packets once no more come.
abbrev pub drained : ℕ → List Bytes → ReadResult
drained size [] = record { copied = []; err = some canceled }
drained size (p ∷ ps) = handed size p

read_closed_items :
    (f : ReceiveFlow) (size ch : ℕ) (xs : List PacketBuffer)
    → f.buffer.items ≡ xs
    → BufferValid f
    → f.closed ≡ true
    → ((read_step f size true (waiting ch)).1 ≡ returned (drained size (contents f.buffer.items)))
      × (packets (read_step f size true (waiting ch)).0 ≡ tail (contents f.buffer.items))
unfolding read_step receive copy_packet put
read_closed_items f size ch [] e v closed = (ground arith, ground arith)
read_closed_items f size ch (x ∷ xs) e v closed = (ground arith, ground arith)

-- On a closed flow in a valid state, a call of `Read` at its `select` that takes the packet case
-- returns the next packet that is still queued, whole or as `io.ErrShortBuffer`, and `context.Canceled`
-- once the queue is drained; it does not block.
pub read_closed :
    (f : ReceiveFlow) (size ch : ℕ)
    → BufferValid f
    → f.closed ≡ true
    → ((read_step f size true (waiting ch)).1 ≡ returned (drained size (packets f)))
      × (packets (read_step f size true (waiting ch)).0 ≡ tail (packets f))
read_closed f size ch v closed = read_closed_items f size ch f.buffer.items refl v closed

-- `Close` ends the flow's context and closes its queue, keeps the queued packets, cancels every registered
-- stream without an error code, and changes nothing where it is called again.
pub close_lem :
    (f : ReceiveFlow)
    → ((close f).0.closed ≡ true)
      × ((close f).0.ctx_done ≡ true)
      × (packets (close f).0 ≡ packets f)
      × ((close f).1 ≡ cancels err_roq_no_error (keys f.streams))
      × ((close (close f).0).0 ≡ (close f).0)
unfolding close close_buffer cancel_ctx close_chan close_with_error
close_lem f = (ground arith, ground arith, ground arith, ground arith, ground arith)
