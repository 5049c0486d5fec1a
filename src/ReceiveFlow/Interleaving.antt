-- ===== src/ReceiveFlow/Interleaving.antt =====
-- The readers of receive_flow.go at work together: one goroutine in `readStream` for each stream, the
-- datagrams that `HandleDatagram` pushes, and the application in `Read` and `Close`.
pub mod Arrivals
pub mod Order
mod Tests
use roq.Common.{
  ℕ, ◌≡◌, Bool, true, not, ◌&&◌, ◌||◌, Option, none, some, List, [], ◌∷◌, ◌++◌, ◌==◌, if◌then◌else◌,
}
use roq.Common.Chan.{Chan, is_signalled}
use roq.Quicvarint.{Bytes, Quicvarint}
use roq.Qlog.{Event}
use roq.ReceiveFlow.{
  ReceiveFlow, PacketBuffer, get, register, unregister, expire_deadline, Deadline,
  set_read_deadline, close_buffer, cancel_ctx,
}
use roq.ReceiveFlow.Queue.{accept, offer}
use roq.ReceiveFlow.Reader.{can_receive, waiting, read_step}
use roq.ReceiveFlow.Frames.{Ending, pushed, read_frame}

-- A flow, what each stream has still to yield, by the stream's ID, and the packets that `Read` has taken
-- off the queue so far.
pub record Traffic : Type 0 where
  pub flow : ReceiveFlow
  pub left : ℕ → Bytes
  pub taken : List Bytes

abbrev pub update : {A : Type 0} → (ℕ → A) → ℕ → A → ℕ → A
update f i b j = if i == j then b else f j

abbrev pub first : List PacketBuffer → List Bytes
first [] = []
first (x ∷ xs) = x.bytes ∷ []

-- The packet that a step of `Read` takes at its `select`, if it takes one.
abbrev pub takes : ReceiveFlow → Bool → ℕ → List Bytes
takes f prefer_packet ch =
    if can_receive f.buffer && (not (is_signalled f.signals ch) || prefer_packet)
    then first f.buffer.items
    else []

-- `round` is a round of the loop of `readStream` that pushes a packet; a round that returns changes
-- nothing but the pool, and is `lose`. The rest are the other critical sections.
pub data Move (q : Quicvarint) (ends : ℕ → Ending) (s : Traffic) : Traffic → Type 0 where
  round :
      (stream_id choice : ℕ) (f : ReceiveFlow) (rest : Bytes) (events : List Event)
      → read_frame q choice s.flow stream_id (s.left stream_id) (ends stream_id)
        ≡ pushed f rest events
      → Move q ends s (record s { flow = f; left = update s.left stream_id rest })
  datagram : (choice : ℕ) (p : Bytes) → Move q ends s (record s { flow = accept choice s.flow p })
  lose : (choice : ℕ) → Move q ends s (record s { flow = (get choice s.flow).1 })
  open_stream : (stream_id : ℕ) → Move q ends s (record s { flow = (register s.flow stream_id).0 })
  end_stream : (stream_id : ℕ) → Move q ends s (record s { flow = unregister s.flow stream_id })
  set_deadline : (d : Deadline) → Move q ends s (record s { flow = set_read_deadline s.flow d })
  expire : (ch : ℕ) → Move q ends s (record s { flow = expire_deadline s.flow ch })
  read :
      (size : ℕ) (prefer : Bool) (ch : ℕ)
      → Move q ends s (record s {
        flow = (read_step s.flow size prefer (waiting ch)).0;
        taken = s.taken ++ takes s.flow prefer ch;
      })
  cancel : Move q ends s (record s { flow = cancel_ctx s.flow })
  shut : s.flow.ctx_done ≡ true → Move q ends s (record s { flow = close_buffer s.flow })

pub data Moves (q : Quicvarint) (ends : ℕ → Ending) (s : Traffic) : Traffic → Type 0 where
  still : Moves q ends s s
  then_move : {t u : Traffic} → Moves q ends s t → Move q ends t u → Moves q ends s u

-- What the moves are for a bounded queue that the streams and the datagrams feed.
pub data Act : Type 0 where
  frame : ℕ → Act
  packet : Bytes → Act
  take_one : Act
  close_queue : Act

abbrev pub take_if : List Bytes → List Act
take_if [] = []
take_if (p ∷ ps) = take_one ∷ []

abbrev pub move_acts :
    {q : Quicvarint} {ends : ℕ → Ending} {s s' : Traffic} → Move q ends s s' → List Act
move_acts (round stream_id choice f rest events pushes) = frame stream_id ∷ []
move_acts (datagram choice p) = packet p ∷ []
move_acts (lose choice) = []
move_acts (open_stream stream_id) = []
move_acts (end_stream stream_id) = []
move_acts (set_deadline d) = []
move_acts (expire ch) = []
move_acts {s = s} (read size prefer ch) = take_if (takes s.flow prefer ch)
move_acts cancel = []
move_acts (shut done) = close_queue ∷ []

unfoldable pub acts :
    {q : Quicvarint} {ends : ℕ → Ending} {s s' : Traffic} → Moves q ends s s' → List Act
acts still = []
acts (then_move moves m) = acts moves ++ move_acts m

-- The bounded queue: what it holds, what was taken off it, the packets that each stream still carries, and
-- whether it is closed, after which it lets every packet go.
pub record Bounded : Type 0 where
  pub queue : List Bytes
  pub taken : List Bytes
  pub streams : ℕ → List Bytes
  pub is_closed : Bool

abbrev pub arrives : ℕ → Bounded → Bytes → Bounded
arrives cap b p = record b { queue = if b.is_closed then b.queue else offer cap b.queue p }

abbrev pub next_frame : ℕ → Bounded → ℕ → List Bytes → Bounded
next_frame cap b i [] = b
next_frame cap b i (p ∷ ps) = arrives cap (record b { streams = update b.streams i ps }) p

abbrev pub takes_off : Bounded → List Bytes → Bounded
takes_off b [] = b
takes_off b (p ∷ ps) = record b { queue = ps; taken = b.taken ++ (p ∷ []) }

abbrev pub act : ℕ → Bounded → Act → Bounded
act cap b (frame i) = next_frame cap b i (b.streams i)
act cap b (packet p) = arrives cap b p
act cap b take_one = takes_off b b.queue
act cap b close_queue = record b { is_closed = true }

unfoldable pub run : ℕ → Bounded → List Act → Bounded
run cap b [] = b
run cap b (a ∷ more) = run cap (act cap b a) more
