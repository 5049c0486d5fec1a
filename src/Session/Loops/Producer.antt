-- ===== src/Session/Loops/Producer.antt =====
-- The qlog producer of session.go, which `Close` closes behind everything else.
use roq.Common.{
  ◌<◌, ◌≤◌, ◌≡◌, ◌≢◌, refl, sym, ap, ◌∙◌, false, Option, none, some, List, ◌∷◌, ◌++◌, [], length,
  arith, append-nil, append_assoc,
}
use roq.Errors.{err_roq_no_error}
use roq.Quicvarint.{Quicvarint}
use roq.Qlog.{Event}
use roq.Qlogger.{Qlogger}
use roq.SendFlow.{new_send_stream}
use roq.Session.{Session}
use roq.Session.Shutdown.{Transport, close_producer, close_send_flow, close_receive_flow}
use roq.Session.Loops.{
  StreamTask, ended, Running, start, Work, Move, work, receive, receive_fails, handle, accept,
  accept_fails, stream, done, call_close, wait_returns, finish, ask_receive_flow, ask_send_flow,
  end_send_flow, end_receive_flow, use_flow, conn_fails, open_stream, write, call_handle_datagram,
  Moves, here, then_move,
}
use roq.Session.Loops.Handling.{datagram_events, handle_datagram-Records}
use roq.Session.Loops.Quiet.{close-Quiet, new_receive_flow_of-Quiet, new_send_flow-Quiet}
use roq.Session.Loops.Count.{
  loop_goroutines, goroutines, step_before, length-middle, if_one, Moves-Counted, start-Counted,
}

close_producer-events : (l : Option Qlogger) (s : Session) → (close_producer l s).events ≡ s.events
unfolding close_producer
close_producer-events none s = refl
close_producer-events (some l) s = ground arith

none_running :
    (before after : List StreamTask) (x : StreamTask) (p : Running)
    → goroutines p ≡ 0
    → p.tasks ≢ before ++ (x ∷ after)
none_running before after x p h e =
    absurd (omega (arith, h, ap length e, length-middle before after x))

Work-needs_goroutine :
    (q : Quicvarint) (t : Transport) (p p' : Running) → Work q t p p' → goroutines p ≢ 0
Work-needs_goroutine q t p p' (receive d e) h = absurd (omega (arith, h, ap loop_goroutines e))
Work-needs_goroutine q t p p' (receive_fails c e) h =
    absurd (omega (arith, h, ap loop_goroutines e))
Work-needs_goroutine q t p p' (handle choice s l e) h =
    absurd (omega (arith, h, step_before q t choice p.session s p.datagrams l e))
Work-needs_goroutine q t p p' (accept rs e) h = absurd (omega (arith, h, if_one e))
Work-needs_goroutine q t p p' (accept_fails c e) h = absurd (omega (arith, h, if_one e))
Work-needs_goroutine q t p p' (stream before after task next choice s e step) h =
    absurd (none_running before after task p h e)
Work-needs_goroutine q t p p' (done before after e) h =
    absurd (none_running before after ended p h e)

-- The events that the application's own calls record: `NewSendStream`, `WriteRTPBytes` and `HandleDatagram`.
abbrev pub move_events :
    {q : Quicvarint} {t : Transport} {p p' : Running} → Move q t p p' → List Event
move_events (work w) = []
move_events call_close = []
move_events (wait_returns some_wait none_run) = []
move_events (finish some_released) = []
move_events (ask_receive_flow id) = []
move_events (ask_send_flow id) = []
move_events (end_send_flow r) = []
move_events (end_receive_flow r) = []
move_events conn_fails = []
move_events {p = p} (open_stream r answer priority incremental) =
    (new_send_stream (p.session.send_heap.obj r) answer priority incremental).1.events
move_events {q = q} {p = p} (call_handle_datagram choice d s e) = datagram_events q p.session d
move_events (write events) = events
move_events (use_flow r f step) = []

unfoldable pub application_events :
    {q : Quicvarint} {t : Transport} {p p' : Running} → Moves q t p p' → List Event
application_events here = []
application_events (then_move moves m) = application_events moves ++ move_events m

-- Where no goroutine is left, none is started, and no event is recorded but by the application.
Move-silent :
    (q : Quicvarint) (t : Transport) (p p' : Running) (m : Move q t p p')
    → goroutines p ≡ 0
    → (goroutines p' ≡ 0) × (p'.session.events ≡ p.session.events ++ move_events m)
Move-silent q t p p' (work w) h = absurd (Work-needs_goroutine q t p p' w h)
Move-silent q t p p' call_close h =
    (h, (close-Quiet t p.session err_roq_no_error "").events ∙ sym (append-nil p.session.events))
Move-silent q t p p' (wait_returns some_wait none_run) h = (h, sym (append-nil p.session.events))
Move-silent q t p p' (finish some_released) h =
    (h, close_producer-events p.session.qlog p.session ∙ sym (append-nil p.session.events))
Move-silent q t p p' (ask_receive_flow id) h =
    (h, (new_receive_flow_of-Quiet p.session id).events ∙ sym (append-nil p.session.events))
Move-silent q t p p' (ask_send_flow id) h =
    (h, (new_send_flow-Quiet q p.session id).events ∙ sym (append-nil p.session.events))
Move-silent q t p p' (end_send_flow r) h =
    (h, unfold close_send_flow in sym (append-nil p.session.events))
Move-silent q t p p' (end_receive_flow r) h =
    (h, unfold close_receive_flow in sym (append-nil p.session.events))
Move-silent q t p p' conn_fails h = (h, sym (append-nil p.session.events))
Move-silent q t p p' (open_stream r answer priority incremental) h = (h, refl)
Move-silent q t p p' (call_handle_datagram choice d s e) h =
    (h, (handle_datagram-Records q t choice p.session s d e).events)
Move-silent q t p p' (write events) h = (h, refl)
Move-silent q t p p' (use_flow r f step) h = (h, sym (append-nil p.session.events))

Moves-silent :
    (q : Quicvarint) (t : Transport) (p p' : Running) (moves : Moves q t p p')
    → goroutines p ≡ 0
    → (goroutines p' ≡ 0) × (p'.session.events ≡ p.session.events ++ application_events moves)
unfolding application_events
Moves-silent q t p p' here h = (h, sym (append-nil p.session.events))
Moves-silent q t p p' (then_move {p' = p1} moves m) h =
    let (still, same) = Moves-silent q t p p1 moves h in
    let (still', same') = Move-silent q t p1 p' m still in
    (
      still',
      same'
          ∙ ap (λ l. l ++ move_events m) same
          ∙ append_assoc p.session.events (application_events moves) (move_events m),
    )

-- From the start of a new session on, in any order of the steps of its goroutines and of the application:
-- the wait group counts exactly the goroutines that run, so it is never below zero, and the qlog producer
-- is closed once at most.
pub wait_group_counts :
    (q : Quicvarint) (t : Transport) (s : Session) (p : Running)
    → s.producer_closes ≡ 0
    → s.close_qlog_once ≡ false
    → Moves q t (start s) p
    → (p.wg ≡ goroutines p) × (p.session.producer_closes ≤ 1)
wait_group_counts q t s p none_closed not_once moves =
    let c = Moves-Counted q t (start s) p moves (start-Counted s none_closed not_once) in
    (c.counted, ground (arith, c.once))

-- Once the qlog producer of a new session is closed, no goroutine of the session runs, and from then on
-- none is started, whatever the application does, which opens, uses and closes flows, opens streams,
-- writes packets, hands over datagrams and calls `Close` in any order. No event is recorded any more but
-- those of its own `NewSendStream`, `WriteRTPBytes` and `HandleDatagram`, which do record on the closed
-- producer.
pub producer_is_last :
    (q : Quicvarint) (t : Transport) (s : Session) (p p' : Running)
    → s.producer_closes ≡ 0
    → s.close_qlog_once ≡ false
    → Moves q t (start s) p
    → 0 < p.session.producer_closes
    → (more : Moves q t p p')
    → (goroutines p' ≡ 0) × (p'.session.events ≡ p.session.events ++ application_events more)
producer_is_last q t s p p' none_closed not_once moves closed more =
    let c = Moves-Counted q t (start s) p moves (start-Counted s none_closed not_once) in
    Moves-silent q t p p' more (sym c.counted ∙ c.last (omega arith))
