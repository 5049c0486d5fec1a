-- ===== src/Session/Loops.antt =====
-- The goroutines of session.go: the receive loops that `start` makes, one goroutine for each stream, the
-- wait group that counts them, and the callers of `Close`.
pub mod Quiet
pub mod Handling
pub mod Count
pub mod Producer
pub mod Valid
pub mod Finite
pub mod Shutting
pub mod Return
mod Tests
use roq.Common.{
  ℕ, ◌+◌, ◌-◌, ◌<◌, ◌≡◌, ◌⊎◌, Bool, true, false, Option, none, some, List, [], ◌∷◌, ◌++◌, length,
  drop, if◌then◌else◌,
}
use roq.Common.Heap.{store}
use roq.Errors.{err_roq_packet_error, err_roq_no_error}
use roq.Quicvarint.{Bytes, Quicvarint}
use roq.SendFlow.{OpenResult}
use roq.Qlog.{Event, datagram_packet_parsed, stream_opened}
use roq.Qlogger.{raw_data, recorded}
use roq.ReceiveFlow.{ReceiveFlow, Cancel, register, unregister}
use roq.ReceiveFlow.Frames.{ReceiveStream, Round, return, pushed, read_frame}
use roq.ReceiveFlow.Invariant
use roq.Session.{Session, new_receive_flow_of, new_send_flow}
use roq.Session.Shutdown.{Transport, close, close_producer, close_send_flow, close_receive_flow}
use roq.Session.Incoming.{receive_flow, push_packet, handle_datagram, opened_stream}

-- Where the goroutine in `receiveDatagrams` is: in `ReceiveDatagram`, in `HandleDatagram` with a
-- datagram, there with the flow and the packet to push, or nowhere, as it returned or was not started.
pub data DatagramLoop : Type 0 where
  waiting : DatagramLoop
  handling : Bytes → DatagramLoop
  pushing : ℕ → Bytes → DatagramLoop
  stopped : DatagramLoop

-- Where the goroutine of a stream is: before `handleUniStream`, in `HandleUniStreamWithFlowID`, before
-- `readStream` of the flow at an address, in its loop with what is left of the stream, before the deferred
-- call that unregisters the stream, and before `Done`.
pub data StreamTask : Type 0 where
  fresh : ReceiveStream → StreamTask
  named : ℕ → ReceiveStream → StreamTask
  found : ℕ → ReceiveStream → StreamTask
  reading : ℕ → ReceiveStream → StreamTask
  returning : ℕ → ℕ → StreamTask
  ended : StreamTask

abbrev pub then_push : Bytes → Option (Session × ℕ) → Option (Session × DatagramLoop)
then_push packet none = none
then_push packet (some (s, r)) = some (s, pushing r packet)

abbrev pub parse_step :
    Quicvarint → Transport → Session → Bytes → Option (ℕ × ℕ) → Option (Session × DatagramLoop)
parse_step q t s datagram none = some (close t s err_roq_packet_error "invalid flow ID", waiting)
parse_step q t s datagram (some (flow_id, n)) =
    let logged = record s {
      events =
          s.events
          ++ recorded s.qlog (λ l. datagram_packet_parsed (record {
            flow_id = flow_id;
            packet_length = length datagram;
            raw = record {
              length_on_wire = length datagram;
              payload_length = length datagram - n;
              raw_data = raw_data l datagram;
            };
          }));
    } in
    then_push (drop (q.len flow_id) datagram) (receive_flow logged flow_id)

abbrev pub then_wait : Option Session → Option (Session × DatagramLoop)
then_wait none = none
then_wait (some s) = some (s, waiting)

-- A step inside `HandleDatagram`; `none` is a panic, or that the goroutine is not there.
unfoldable pub datagram_step :
    Quicvarint → Transport → ℕ → Session → DatagramLoop → Option (Session × DatagramLoop)
datagram_step q t choice s waiting = none
datagram_step q t choice s stopped = none
datagram_step q t choice s (handling datagram) = parse_step q t s datagram (q.parse datagram)
datagram_step q t choice s (pushing r packet) = then_wait (push_packet choice packet (some (s, r)))

abbrev pub name_step : Session → ReceiveStream → Option (ℕ × Bytes) → Session × StreamTask
name_step s rs none =
    (record s { cancelled = s.cancelled ++ ((rs.id, err_roq_packet_error) ∷ []) }, ended)
name_step s rs (some (flow_id, rest)) = (s, named flow_id (record rs { content = rest }))

abbrev pub then_read : ReceiveStream → Option (Session × ℕ) → Option (Session × StreamTask)
then_read rs none = none
then_read rs (some (s, r)) = some (s, found r rs)

-- The first part of `readStream`, which returns at once on a closed flow.
abbrev pub register_step :
    Session → ℕ → ReceiveStream → Bool → ReceiveFlow × List Cancel → Session × StreamTask
register_step s r rs done (f, cs) = (
  record s { receive_heap = store r f s.receive_heap; cancelled = s.cancelled ++ cs },
  if done then ended else reading r rs,
)

abbrev pub round_step : Session → ℕ → ReceiveStream → Round → Session × StreamTask
round_step s r rs (return f level) =
    (record s { receive_heap = store r f s.receive_heap }, returning r rs.id)
round_step s r rs (pushed f rest events) = (
  record s { receive_heap = store r f s.receive_heap; events = s.events ++ events },
  reading r (record rs { content = rest }),
)

-- A step of the goroutine of a stream; `none` is a panic, or that it is at its end.
unfoldable pub stream_step : Quicvarint → ℕ → Session → StreamTask → Option (Session × StreamTask)
stream_step q choice s (fresh rs) = some (name_step s rs (q.read rs.content))
stream_step q choice s (named flow_id rs) =
    let logged = record s {
      events = s.events ++ recorded s.qlog (λ _. stream_opened flow_id rs.id);
    } in
    then_read rs (receive_flow logged flow_id)
stream_step q choice s (found r rs) =
    let f = s.receive_heap.obj r in some (register_step s r rs f.ctx_done (register f rs.id))
stream_step q choice s (reading r rs) =
    some (round_step s r rs (read_frame q choice (s.receive_heap.obj r) rs.id rs.content rs.ending))
stream_step q choice s (returning r stream_id) = some (
  record s { receive_heap = store r (unregister (s.receive_heap.obj r) stream_id) s.receive_heap },
  ended,
)
stream_step q choice s ended = none

-- The session, its wait group, its goroutines, how many callers of `Close` are in `Wait` or past it,
-- and whether the connection has failed.
pub record Running : Type 0 where
  pub session : Session
  pub wg : ℕ
  pub datagrams : DatagramLoop
  pub accepting : Bool
  pub tasks : List StreamTask
  pub waiters : ℕ
  pub released : ℕ
  pub conn_failed : Bool

unfoldable pub start : Session → Running
start s = record {
  session = s;
  wg = if s.accept_datagrams then 2 else 1;
  datagrams = if s.accept_datagrams then waiting else stopped;
  accepting = true;
  tasks = [];
  waiters = 0;
  released = 0;
  conn_failed = false;
}

-- What makes `ReceiveDatagram` and `AcceptUniStream` fail: the end of the session's context, which they are
-- called with, or a failure of the connection itself.
abbrev pub Fails : Running → Type 0
Fails p = (p.session.ctx_done ≡ true) ⊎ (p.conn_failed ≡ true)

-- A step of one of the goroutines. What the connection hands over is its choice.
pub data Work (q : Quicvarint) (t : Transport) (p : Running) : Running → Type 0 where
  receive : (d : Bytes) → p.datagrams ≡ waiting → Work q t p (record p { datagrams = handling d })
  receive_fails :
      Fails p → p.datagrams ≡ waiting → Work q t p (record p { datagrams = stopped; wg = p.wg - 1 })
  handle :
      (choice : ℕ) (s : Session) (l : DatagramLoop)
      → datagram_step q t choice p.session p.datagrams ≡ some (s, l)
      → Work q t p (record p { session = s; datagrams = l })
  accept :
      (rs : ReceiveStream)
      → p.accepting ≡ true
      → Work q t p (record p { wg = p.wg + 1; tasks = p.tasks ++ (fresh rs ∷ []) })
  accept_fails :
      Fails p → p.accepting ≡ true → Work q t p (record p { accepting = false; wg = p.wg - 1 })
  stream :
      (before after : List StreamTask) (task next : StreamTask) (choice : ℕ) (s : Session)
      → p.tasks ≡ before ++ (task ∷ after)
      → stream_step q choice p.session task ≡ some (s, next)
      → Work q t p (record p { session = s; tasks = before ++ (next ∷ after) })
  done :
      (before after : List StreamTask)
      → p.tasks ≡ before ++ (ended ∷ after)
      → Work q t p (record p { tasks = before ++ after; wg = p.wg - 1 })

pub data Works (q : Quicvarint) (t : Transport) (p : Running) : Running → Type 0 where
  over : Works q t p p
  then_work : {p' p'' : Running} → Works q t p p' → Work q t p' p'' → Works q t p p''

-- A step of a goroutine, of the application, which may close the session and use its flows at any time, or
-- a failure of the connection. `write` is a `WriteRTPBytes` of a send flow or of a stream, of which the
-- session has the events. `HandleUniStream` and its like are for the application only where the session
-- has no loops; `HandleDatagram` is a step also for a session that accepts no datagrams itself.
pub data Move (q : Quicvarint) (t : Transport) (p : Running) : Running → Type 0 where
  work : {p' : Running} → Work q t p p' → Move q t p p'
  call_close :
      Move q t p
        (record p { session = close t p.session err_roq_no_error ""; waiters = p.waiters + 1 })
  wait_returns :
      0 < p.waiters
      → p.wg ≡ 0
      → Move q t p (record p { waiters = p.waiters - 1; released = p.released + 1 })
  finish :
      0 < p.released
      → Move q t p (record p {
        session = close_producer p.session.qlog p.session;
        released = p.released - 1;
      })
  ask_receive_flow :
      (id : ℕ) → Move q t p (record p { session = (new_receive_flow_of p.session id).0 })
  ask_send_flow : (id : ℕ) → Move q t p (record p { session = (new_send_flow q p.session id).0 })
  end_send_flow : (r : ℕ) → Move q t p (record p { session = (close_send_flow t p.session r).0 })
  end_receive_flow : (r : ℕ) → Move q t p (record p { session = close_receive_flow p.session r })
  conn_fails : Move q t p (record p { conn_failed = true })
  open_stream :
      (r : ℕ) (answer : OpenResult) (priority : ℕ) (incremental : Bool)
      → Move q t p (record p { session = opened_stream p.session r answer priority incremental })
  call_handle_datagram :
      (choice : ℕ) (d : Bytes) (s : Session)
      → handle_datagram q t choice p.session d ≡ some s
      → Move q t p (record p { session = s })
  write :
      (events : List Event)
      → Move q t p (record p { session = record p.session { events = p.session.events ++ events } })
  use_flow :
      (r : ℕ) (f : ReceiveFlow)
      → Invariant.Step (p.session.receive_heap.obj r) f
      → Move q t p (record p {
        session = record p.session { receive_heap = store r f p.session.receive_heap };
      })

pub data Moves (q : Quicvarint) (t : Transport) (p : Running) : Running → Type 0 where
  here : Moves q t p p
  then_move : {p' p'' : Running} → Moves q t p p' → Move q t p' p'' → Moves q t p p''
