-- ===== src/ReceiveFlow/Invariant.antt =====
-- The critical sections of receive_flow.go as steps that may run in any order, and the validity of a
-- flow's state.
pub mod Wakeups
pub mod Readers
pub mod Buffers
pub mod Closing
use roq.Common.{
  ℕ, ◌+◌, ◌≤◌, ◌<◌, ◌≡◌, ◌⊎◌, Bool, true, false, not, ◌&&◌, ◌||◌, Option, none, some, List, [], ◌∷◌,
  length, ltb, ◌==◌, if◌then◌else◌,
}
use roq.Common.Chan.{is_signalled}
use roq.Quicvarint.{Bytes}
use roq.Qlogger.{Qlogger}
use roq.ReceiveFlow.{
  ReceiveFlow, PacketBuffer, new_receive_flow, get, register, unregister, expire_deadline, Deadline,
  set_read_deadline, close_buffer, cancel_ctx,
}
use roq.ReceiveFlow.Queue.{accept}
use roq.ReceiveFlow.Reader.{Reader, read_step}

-- `expire` is the callback of a timer: of any that was ever started, as `Stop` does not wait for one
-- that already runs. `lose` is a buffer taken for a packet whose stream failed. `shut` is `closeBuffer`,
-- which `Close` calls after it has cancelled the context.
pub data Step (f : ReceiveFlow) : ReceiveFlow → Type 0 where
  arrive : (choice : ℕ) (p : Bytes) → Step f (accept choice f p)
  lose : (choice : ℕ) → Step f (get choice f).1
  open_stream : (stream_id : ℕ) → Step f (register f stream_id).0
  end_stream : (stream_id : ℕ) → Step f (unregister f stream_id)
  set_deadline : (d : Deadline) → Step f (set_read_deadline f d)
  expire : (ch : ℕ) → Step f (expire_deadline f ch)
  cancel : Step f (cancel_ctx f)
  shut : f.ctx_done ≡ true → Step f (close_buffer f)
  read : (size : ℕ) (prefer : Bool) (r : Reader) → Step f (read_step f size prefer r).0

pub data Reach (f : ReceiveFlow) : ReceiveFlow → Type 0 where
  here : Reach f f
  next : {g h : ReceiveFlow} → Reach f g → Step g h → Reach f h

-- The channel of the current deadline is closed if the deadline has expired, that of every earlier one
-- is closed, and no channel was closed twice.
pub record DeadlineValid (f : ReceiveFlow) : Type 0 where
  pub sound : f.signals.faulted ≡ false
  pub current : f.deadline_ch < f.signals.next
  pub signalled :
      (ch : ℕ)
      → is_signalled f.signals ch
        ≡ (ltb ch f.signals.next && (not (f.deadline_ch == ch) || f.deadline_expired))
  pub timer : (f.deadline_timer ≡ none) ⊎ (f.deadline_timer ≡ some f.deadline_ch)

abbrev pub count : ℕ → List PacketBuffer → ℕ
count b [] = 0
count b (x ∷ xs) = (if x.buf == b then 1 else 0) + count b xs

-- The queue holds no more than its capacity, is closed exactly when the flow is, which needs a cancelled
-- context, and was never sent to or closed afterwards. A buffer that was handed out is in the queue or in
-- the pool, and in one place only.
pub record BufferValid (f : ReceiveFlow) : Type 0 where
  pub sound : f.buffer.faulted ≡ false
  pub agree : f.buffer.is_closed ≡ f.closed
  pub cancelled : (f.closed ≡ false) ⊎ (f.ctx_done ≡ true)
  pub within : length f.buffer.items ≤ f.buffer.cap
  pub owned :
      (b : ℕ) → count b f.buffer.items + count b f.pool ≤ (if ltb b f.next_buf then 1 else 0)
