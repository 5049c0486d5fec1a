-- ===== src/Locks.antt =====
-- The mutexes of session.go, receive_flow.go, receive_flow_buffer.go, send_flow.go, rtp_send_stream.go and
-- sync_map.go: which of them each function takes and gives back, in which order, on each of its paths.
-- What a function does in between is left out here; a flow or a stream is its address.
pub mod Threads
pub mod Ranks
pub mod Calls
pub mod Waiting
pub mod Progress
mod Tests
use roq.Common.{
  ℕ, zero, suc, Bool, true, false, Option, none, some, List, [], ◌∷◌, ◌++◌, if◌then◌else◌,
}

-- `Session.mutex`, `Session.receiveFlowsMutex`, `receiveFlowBuffer.mutex`, `ReceiveFlow.lock`,
-- `SendFlow.lock`, `RTPSendStream.lock`, and the mutexes of the session's two maps.
pub data Lock : Type 0 where
  session_mutex receive_flows_mutex buffer_mutex : Lock
  receive_flow_lock send_flow_lock stream_lock : ℕ → Lock
  send_flows_map receive_flows_map : Lock

pub data Action : Type 0 where
  acquire release : Lock → Action

-- `Lock` and a deferred `Unlock` around a body.
unfoldable pub locked : Lock → List Action → List Action
locked l body = acquire l ∷ (body ++ (release l ∷ []))

-- A body once for each of some flows.
unfoldable pub for_each : (ℕ → List Action) → List ℕ → List Action
for_each body [] = []
for_each body (r ∷ rs) = body r ++ for_each body rs

unfoldable pub rounds : ℕ → List Action → List Action
rounds zero body = []
rounds (suc n) body = body ++ rounds n body

-- `getOrInsert`, `set`, `get` and `delete` of a `syncMap`.
unfoldable pub map_method : Lock → List Action
map_method m = locked m []

-- `rangeFn`: the map is copied under its lock, and the calls come behind that.
unfoldable pub range_fn : Lock → (ℕ → List Action) → List ℕ → List Action
range_fn m body rs = locked m [] ++ for_each body rs

-- `isClosed` of a send flow, which is all that its `WriteRTPBytes` takes.
unfoldable pub flow_is_closed : ℕ → List Action
flow_is_closed r = locked (send_flow_lock r) []

-- `NewSendStream`, with or without a stream from the connection.
unfoldable pub new_send_stream : ℕ → Bool → List Action
new_send_stream r opened = flow_is_closed r ++ (if opened then locked (send_flow_lock r) [] else [])

-- `Close` of a send flow calls `onClose` under its lock, which deletes it from the session's map.
unfoldable pub close_send_flow : ℕ → List Action
close_send_flow r = locked (send_flow_lock r) (map_method send_flows_map)

-- `WriteRTPBytes` of a stream.
unfoldable pub write_rtp_bytes : ℕ → List Action
write_rtp_bytes x = locked (stream_lock x) []

unfoldable pub push : ℕ → List Action
push r = locked (receive_flow_lock r) []

-- `readStream`: on a flow that has ended, or with the frames of the stream.
unfoldable pub read_stream : ℕ → Option ℕ → List Action
read_stream r none = locked (receive_flow_lock r) []
read_stream r (some frames) =
    locked (receive_flow_lock r) [] ++ (rounds frames (push r) ++ locked (receive_flow_lock r) [])

-- `Read` takes the lock once in each round of its loop, and waits without it.
unfoldable pub read : ℕ → ℕ → List Action
read r n = rounds n (locked (receive_flow_lock r) [])

unfoldable pub set_read_deadline : ℕ → List Action
set_read_deadline r = locked (receive_flow_lock r) []

-- The function that `time.AfterFunc` runs.
unfoldable pub deadline_timer : ℕ → List Action
deadline_timer r = locked (receive_flow_lock r) []

unfoldable pub close_with_error : ℕ → List Action
close_with_error r = locked (receive_flow_lock r) []

unfoldable pub close_buffer : ℕ → List Action
close_buffer r = locked (receive_flow_lock r) []

unfoldable pub close_receive_flow : ℕ → List Action
close_receive_flow r = close_buffer r ++ close_with_error r

-- `getOrCreate`, which cancels the streams of the flows that it evicts.
unfoldable pub get_or_create : List ℕ → List Action
get_or_create evicted = locked buffer_mutex (for_each close_with_error evicted)

unfoldable pub pop : List Action
pop = locked buffer_mutex []

-- `receiveFlow` for an ID that is registered, or for one that is not, with the flows that are evicted.
unfoldable pub or_create : Option (List ℕ) → List Action
or_create none = []
or_create (some evicted) = get_or_create evicted

unfoldable pub receive_flow : Option (List ℕ) → List Action
receive_flow unknown =
    locked receive_flows_mutex (map_method receive_flows_map ++ or_create unknown)

unfoldable pub is_closed : List Action
is_closed = locked session_mutex []

unfoldable pub new_send_flow : Bool → List Action
new_send_flow alive = is_closed ++ (if alive then map_method send_flows_map else [])

unfoldable pub new_receive_flow : Bool → Bool → List Action
new_receive_flow alive known =
    is_closed
    ++ (if alive
        then locked receive_flows_mutex (
            map_method receive_flows_map
            ++ (if known then [] else pop ++ map_method receive_flows_map))
        else [])

-- `close`, of a closed session or with the flows that are registered.
unfoldable pub shut_down : Option (List ℕ × List ℕ) → List Action
shut_down none = []
shut_down (some (sends, receives)) =
    range_fn send_flows_map close_send_flow sends
    ++ range_fn receive_flows_map close_receive_flow receives

unfoldable pub close : Option (List ℕ × List ℕ) → List Action
close flows = locked session_mutex (shut_down flows)

-- `Close`, whose wait for the goroutines holds no lock.
unfoldable pub close_session : Option (List ℕ × List ℕ) → List Action
close_session flows = close flows ++ locked session_mutex []

-- A call that runs on some goroutine, with the path that it takes. `bad_datagram` is `HandleDatagram` with
-- no flow ID, `datagram` with one; `stream` is `HandleUniStreamWithFlowID`.
pub data Call : Type 0 where
  write_datagram : ℕ → Call
  open_stream : ℕ → Bool → Call
  end_send_flow : ℕ → Call
  write_stream : ℕ → Call
  read_packet : ℕ → ℕ → Call
  set_deadline : ℕ → Call
  deadline_passes : ℕ → Call
  end_receive_flow : ℕ → Call
  ask_send_flow : Bool → Call
  ask_receive_flow : Bool → Bool → Call
  end_session : Option (List ℕ × List ℕ) → Call
  bad_datagram : Option (List ℕ × List ℕ) → Call
  datagram : Option (List ℕ) → ℕ → Call
  stream : Option (List ℕ) → ℕ → Option ℕ → Call

unfoldable pub actions : Call → List Action
actions (write_datagram r) = flow_is_closed r
actions (open_stream r opened) = new_send_stream r opened
actions (end_send_flow r) = close_send_flow r
actions (write_stream x) = write_rtp_bytes x
actions (read_packet r n) = read r n
actions (set_deadline r) = set_read_deadline r
actions (deadline_passes r) = deadline_timer r
actions (end_receive_flow r) = close_receive_flow r
actions (ask_send_flow alive) = new_send_flow alive
actions (ask_receive_flow alive known) = new_receive_flow alive known
actions (end_session flows) = close_session flows
actions (bad_datagram flows) = close flows
actions (datagram unknown r) = receive_flow unknown ++ push r
actions (stream unknown r frames) = receive_flow unknown ++ read_stream r frames

unfoldable pub run_calls : List Call → List Action
run_calls [] = []
run_calls (c ∷ cs) = actions c ++ run_calls cs
