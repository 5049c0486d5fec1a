-- ===== src/Session/Loops/Tests.antt =====
-- session.go: a datagram that cannot be parsed ends a session, which `Close` then leaves without goroutines.
use roq.Common.{◌<◌, ◌≤◌, ◌≡◌, ◌⊎◌, inl, refl, true, false, some, [], ◌∷◌, ◌++◌, arith}
use roq.Common.Int.{pos}
use roq.Errors.{err_roq_packet_error, err_roq_no_error}
use roq.Quicvarint.Rfc.{rfc, parse, rfc-IsQuicvarint}
use roq.ReceiveFlow.Frames.{ReceiveStream, finished}
use roq.Session.{Session}
use roq.Session.Flows.{IsValid, same_IsValid}
use roq.Session.Sample.{busy, busy-IsValid, calm}
use roq.Session.Shutdown.{close, close_producer, close_receive_flow, shut_down}
use roq.Qlog.{Event, stream_opened}
use roq.Session.Shutdown.{close_session}
use roq.Session.Incoming.{handle_datagram}
use roq.Session.AfterClose.{late_datagram_records}
use roq.Session.Loops.{
  DatagramLoop, waiting, handling, fresh, datagram_step, Running, start, work, receive,
  receive_fails, handle, accept, accept_fails, Work, Works, write, call_close, wait_returns, finish,
  Moves, here, then_move,
}
use roq.Session.Loops.Producer.{application_events, wait_group_counts, producer_is_last}
use roq.Session.Loops.Count.{goroutines}
use roq.Session.Loops.Finite.{size, HandedOver}
use roq.Session.Loops.Return.{close_returns}
use roq.SyncMap.{range_fn}

abbrev session : Session
session = record busy { qlog = some (record { log_data = false; data_limit = pos 0 }) }

session-IsValid : IsValid session
session-IsValid = same_IsValid busy session refl refl busy-IsValid

abbrev rs : ReceiveStream
rs = record { id = 3; content = 5 ∷ 1 ∷ 9 ∷ []; ending = finished }

-- A stream was accepted, and a datagram came.
abbrev working : Running
working = record (start session) {
  wg = 3;
  tasks = fresh rs ∷ [];
  datagrams = handling (5 ∷ 7 ∷ []);
}

working-Moves : Moves rfc calm (start session) working
unfolding start
working-Moves =
    then_move (then_move here (work (accept rs refl))) (work (receive (5 ∷ 7 ∷ []) refl))

abbrev ended_session : Session
ended_session =
    close calm (close calm session err_roq_packet_error "invalid flow ID") err_roq_no_error ""

abbrev closed : Running
closed = record {
  session = close_producer ended_session.qlog ended_session;
  wg = 0;
  datagrams = DatagramLoop.stopped;
  accepting = false;
  tasks = [];
  waiters = 0;
  released = 0;
  conn_failed = false;
}

bad_ctx_done : (close calm session err_roq_packet_error "invalid flow ID").ctx_done ≡ true
unfolding close shut_down
bad_ctx_done = refl

closed-Moves : Moves rfc calm (start session) closed
unfolding start datagram_step parse
closed-Moves =
    then_move
      (then_move
        (then_move
          (then_move
            (then_move
              (then_move (then_move here (work (receive (192 ∷ []) refl))) (
                work (
                  handle 0 (close calm session err_roq_packet_error "invalid flow ID") waiting
                    refl)))
              (work (receive_fails (inl bad_ctx_done) refl)))
            (work (accept_fails (inl bad_ctx_done) refl)))
          call_close)
        (wait_returns (omega arith) refl))
      (finish (omega arith))

-- And `Close` was called.
abbrev closing : Running
closing = record working { session = close calm working.session err_roq_no_error ""; waiters = 1 }

closing-Moves : Moves rfc calm (start session) closing
unfolding start
closing-Moves = then_move working-Moves call_close

close_returns_example :
    ((p' : Running) × Works rfc calm closing p'
      × (goroutines p' ≡ 0)
      × (p'.wg ≡ 0)
      × (p'.waiters ≡ closing.waiters))
    × ((p' : Running)
        → Works rfc calm closing p'
        → ((goroutines p' ≡ 0) × (p'.wg ≡ 0))
          ⊎ ((p'' : Running) × Work rfc calm p' p'' × (size p'' < size p')))
    × ((p' p'' : Running) → Work rfc calm p' p'' → (size p'' < size p') ⊎ HandedOver p' p'')
close_returns_example =
    close_returns rfc rfc-IsQuicvarint calm session closing session-IsValid refl refl refl
      closing-Moves (omega arith)

wait_group_counts_example :
    (working.wg ≡ goroutines working) × (working.session.producer_closes ≤ 1)
wait_group_counts_example = wait_group_counts rfc calm session working refl refl working-Moves

one_close : closed.session.producer_closes ≡ 1
unfolding close_producer close shut_down range_fn close_receive_flow
one_close = refl

closed_once : 0 < closed.session.producer_closes
closed_once = omega (arith, one_close)

-- The application opens a stream, whose event is recorded.
abbrev late_event : Event
late_event = stream_opened 5 8

producer_is_last_example :
    let p' = record closed {
      session = record closed.session { events = closed.session.events ++ (late_event ∷ []) };
    } in
    (goroutines p' ≡ 0)
    × (p'.session.events
        ≡ closed.session.events
          ++ application_events {q = rfc} {t = calm} {p = closed} {p' = p'}
              (then_move here (write (late_event ∷ []))))
producer_is_last_example =
    producer_is_last rfc calm session closed
      (record closed {
        session = record closed.session { events = closed.session.events ++ (late_event ∷ []) };
      })
      refl refl closed-Moves closed_once (then_move here (write (late_event ∷ [])))

late_datagram_records_example :
    let s1 = (close_session calm session).0 in
    (s' : Session) × (e : Event) × (s1.producer_closes ≡ 1)
    × (handle_datagram rfc calm 0 s1 (5 ∷ 7 ∷ []) ≡ some s')
    × (s'.events ≡ s1.events ++ (e ∷ []))
late_datagram_records_example =
    late_datagram_records rfc calm 0 session (record { log_data = false; data_limit = pos 0 })
      (5 ∷ 7 ∷ []) 5 1 session-IsValid refl refl (unfold parse in refl)
