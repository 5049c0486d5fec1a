-- ===== src/ReceiveFlow/Reader.antt =====
-- `Read` of receive_flow.go as a state machine: other calls may run between its critical section and
-- its `select`, and while it is blocked there.
use roq.Common.{ℕ, Bool, true, not, ◌&&◌, ◌||◌, Option, none, some, List, [], ◌∷◌, if◌then◌else◌}
use roq.Common.Chan.{Chan, is_signalled}
use roq.Errors.{Error, deadline_exceeded, canceled}
use roq.ReceiveFlow.{ReceiveFlow, PacketBuffer, ReadResult, copy_packet}

-- At the head of the loop; at the `select`, with the deadline channel that it waits on; returned.
pub data Reader : Type 0 where
  starting : Reader
  waiting : ℕ → Reader
  returned : ReadResult → Reader

-- `ctx.Err()`
ctx_err : ReceiveFlow → Option Error
ctx_err f = if f.ctx_done then some canceled else none

abbrev pub can_receive : Chan PacketBuffer → Bool
can_receive c = elim c.items [ [] ↦ c.is_closed | x ∷ xs ↦ true ]

-- The case `packet, ok := <-f.buffer` of the `select`, where it can be taken.
unfoldable pub receive : ReceiveFlow → ℕ → List PacketBuffer → ReceiveFlow × ReadResult
unfolding ctx_err
receive f size [] = (f, record { copied = []; err = ctx_err f })
receive f size (packet ∷ rest) =
    copy_packet (record f { buffer = record (f.buffer) { items = rest } }) size packet

-- One step of a call of `Read` with a buffer of `size` bytes. Where both cases of the `select` are ready
-- Go takes either: `prefer_packet` says which. Where none is, the reader stays blocked.
unfoldable pub read_step : ReceiveFlow → ℕ → Bool → Reader → ReceiveFlow × Reader
unfolding receive
read_step f size prefer_packet starting =
    if f.deadline_expired
    then (f, returned (record { copied = []; err = some deadline_exceeded }))
    else (f, waiting f.deadline_ch)
read_step f size prefer_packet (waiting ch) =
    let woken = is_signalled f.signals ch in
    let (f', result) = receive f size f.buffer.items in
    if can_receive f.buffer && (not woken || prefer_packet)
    then (f', returned result)
    else if woken
    then (f, starting)
    else (f, waiting ch)
read_step f size prefer_packet (returned result) = (f, returned result)
