-- ===== src/Session/Loops/Count.antt =====
-- The wait group of session.go against the goroutines that run.
use mathlib.Core.Option.{none-ne-some}
use roq.Common.{
  ℕ, suc, ◌+◌, ◌<◌, ◌≡◌, refl, ap, Bool, true, false, Option, none, some, List, [], ◌∷◌, ◌++◌,
  length, drop, length-append, if◌then◌else◌, arith,
}
use roq.Errors.{err_roq_no_error}
use roq.Quicvarint.{Bytes, Quicvarint}
use roq.Qlogger.{Qlogger}
use roq.Session.{Session}
use roq.Session.Shutdown.{Transport, close, close_producer, close_send_flow, close_receive_flow}
use roq.Session.Datagrams.{logged}
use roq.Session.Incoming.{receive_flow, push_packet}
use mathlib.Core.Path.{subst}
use roq.Session.Loops.{
  then_push, parse_step, DatagramLoop, waiting, handling, pushing, stopped, StreamTask, fresh,
  ended, datagram_step, Running, start, Work, Move, work, receive, receive_fails, handle, accept,
  accept_fails, stream, done, call_close, wait_returns, finish, ask_receive_flow, ask_send_flow,
  end_send_flow, end_receive_flow, use_flow, conn_fails, open_stream, write, call_handle_datagram,
  Moves, here, then_move,
}
use roq.Session.Loops.Handling.{handle_datagram-Records}
use roq.Session.Loops.Quiet.{
  SameProducer, close-Quiet, new_receive_flow_of-Quiet, new_send_flow-Quiet, datagram_step-Same,
  stream_step-Same,
}

abbrev pub loop_goroutines : DatagramLoop → ℕ
loop_goroutines waiting = 1
loop_goroutines (handling d) = 1
loop_goroutines (pushing r packet) = 1
loop_goroutines stopped = 0

-- How many goroutines of the session run.
abbrev pub goroutines : Running → ℕ
goroutines p = loop_goroutines p.datagrams + ((if p.accepting then 1 else 0) + length p.tasks)

pub record Counted (p : Running) : Type 0 where
  pub counted : p.wg ≡ goroutines p
  pub last : 0 < p.released + p.session.producer_closes → p.wg ≡ 0
  pub once : p.session.producer_closes ≡ (if p.session.close_qlog_once then 1 else 0)

-- A step of the session that does not touch its producer.
same_Counted :
    (p : Running) (s : Session)
    → SameProducer p.session s
    → Counted p
    → Counted (record p { session = s })
same_Counted p s k c = record {
  counted = c.counted;
  last = rw k.closes c.last;
  once = rw (k.closes, k.once) c.once;
}

close_producer-once :
    (l : Option Qlogger) (s : Session)
    → s.producer_closes ≡ (if s.close_qlog_once then 1 else 0)
    → (close_producer l s).producer_closes ≡ (if (close_producer l s).close_qlog_once then 1 else 0)
unfolding close_producer
close_producer-once none s h = h
close_producer-once (some l) s h = ground arith

abbrev StillRuns : Option (Session × DatagramLoop) → Type 0
StillRuns none = Unit
StillRuns (some (s, l)) = loop_goroutines l ≡ 1

then_push-StillRuns : (packet : Bytes) (o : Option (Session × ℕ)) → StillRuns (then_push packet o)
then_push-StillRuns packet none = tt
then_push-StillRuns packet (some (s, r)) = refl

parse_step-StillRuns :
    (q : Quicvarint) (t : Transport) (s : Session) (d : Bytes) (o : Option (ℕ × ℕ))
    → StillRuns (parse_step q t s d o)
parse_step-StillRuns q t s d none = refl
parse_step-StillRuns q t s d (some (id, n)) =
    then_push-StillRuns (drop (q.len id) d) (receive_flow (logged s d id n) id)

datagram_step-StillRuns :
    (q : Quicvarint) (t : Transport) (choice : ℕ) (s : Session) (l : DatagramLoop)
    → StillRuns (datagram_step q t choice s l)
unfolding datagram_step push_packet
datagram_step-StillRuns q t choice s waiting = tt
datagram_step-StillRuns q t choice s stopped = tt
datagram_step-StillRuns q t choice s (handling d) = parse_step-StillRuns q t s d (q.parse d)
datagram_step-StillRuns q t choice s (pushing r packet) = refl

-- Only a goroutine that runs makes a step, and it goes on running.
pub step_before :
    (q : Quicvarint) (t : Transport) (choice : ℕ) (s s' : Session) (l l' : DatagramLoop)
    → datagram_step q t choice s l ≡ some (s', l')
    → loop_goroutines l ≡ 1
unfolding datagram_step
step_before q t choice s s' waiting l' e = refl
step_before q t choice s s' (handling d) l' e = refl
step_before q t choice s s' (pushing r packet) l' e = refl
step_before q t choice s s' stopped l' e = absurd (none-ne-some _ e)

step_after :
    (q : Quicvarint) (t : Transport) (choice : ℕ) (s s' : Session) (l l' : DatagramLoop)
    → datagram_step q t choice s l ≡ some (s', l')
    → loop_goroutines l' ≡ 1
step_after q t choice s s' l l' e = subst StillRuns e (datagram_step-StillRuns q t choice s l)

pub length-middle :
    (before after : List StreamTask) (x : StreamTask)
    → length (before ++ (x ∷ after)) ≡ suc (length (before ++ after))
length-middle before after x =
    omega (arith, length-append before (x ∷ after), length-append before after)

pub if_one : {b : Bool} → b ≡ true → ◌≡◌ {A = ℕ} (if b then 1 else 0) 1
if_one e = rw e refl

pub Work-Counted :
    (q : Quicvarint) (t : Transport) (p p' : Running) → Work q t p p' → Counted p → Counted p'
Work-Counted q t p p' (receive d e) c = record {
  counted = omega (arith, c.counted, ap loop_goroutines e);
  last = c.last;
  once = c.once;
}
Work-Counted q t p p' (receive_fails x e) c = record {
  counted = omega (arith, c.counted, ap loop_goroutines e);
  last = λ h. omega (arith, c.last h);
  once = c.once;
}
Work-Counted q t p p' (handle choice s l e) c =
    let n = same_Counted p s (datagram_step-Same q t choice p.session s p.datagrams l e) c in
    record {
      counted = omega (
        arith,
        c.counted,
        step_before q t choice p.session s p.datagrams l e,
        step_after q t choice p.session s p.datagrams l e,
      );
      last = n.last;
      once = n.once;
    }
Work-Counted q t p p' (accept rs e) c = record {
  counted = omega (arith, c.counted, length-append p.tasks (fresh rs ∷ []));
  last = λ h. absurd (omega (arith, c.counted, c.last h, if_one e));
  once = c.once;
}
Work-Counted q t p p' (accept_fails x e) c = record {
  counted = omega (arith, c.counted, if_one e);
  last = λ h. omega (arith, c.last h);
  once = c.once;
}
Work-Counted q t p p' (stream before after task next choice s e step) c =
    let n = same_Counted p s (stream_step-Same q choice p.session s task next step) c in
    record {
      counted = omega (
        arith,
        c.counted,
        ap length e,
        length-middle before after task,
        length-middle before after next,
      );
      last = n.last;
      once = n.once;
    }
Work-Counted q t p p' (done before after e) c = record {
  counted = omega (arith, c.counted, ap length e, length-middle before after ended);
  last = λ h. omega (arith, c.last h);
  once = c.once;
}

Move-Counted :
    (q : Quicvarint) (t : Transport) (p p' : Running) → Move q t p p' → Counted p → Counted p'
Move-Counted q t p p' (work w) c = Work-Counted q t p p' w c
Move-Counted q t p p' call_close c =
    let n =
      same_Counted p (close t p.session err_roq_no_error "")
        (close-Quiet t p.session err_roq_no_error "").same c in
    record { counted = n.counted; last = n.last; once = n.once }
Move-Counted q t p p' (wait_returns some_wait none_run) c = record {
  counted = c.counted;
  last = λ h. none_run;
  once = c.once;
}
Move-Counted q t p p' (finish some_released) c = record {
  counted = c.counted;
  last = λ h. c.last (omega arith);
  once = close_producer-once p.session.qlog p.session c.once;
}
Move-Counted q t p p' (ask_receive_flow id) c =
    same_Counted p _ (new_receive_flow_of-Quiet p.session id).same c
Move-Counted q t p p' (ask_send_flow id) c =
    same_Counted p _ (new_send_flow-Quiet q p.session id).same c
Move-Counted q t p p' (end_send_flow r) c =
    same_Counted p _
      (unfold close_send_flow in
        record { shut = λ h. h; ended = λ h. h; closes = refl; once = refl })
      c
Move-Counted q t p p' (end_receive_flow r) c =
    same_Counted p _
      (unfold close_receive_flow in
        record { shut = λ h. h; ended = λ h. h; closes = refl; once = refl })
      c
Move-Counted q t p p' conn_fails c = record { counted = c.counted; last = c.last; once = c.once }
Move-Counted q t p p' (open_stream r answer priority incremental) c =
    same_Counted p _ (record { shut = λ h. h; ended = λ h. h; closes = refl; once = refl }) c
Move-Counted q t p p' (call_handle_datagram choice d s e) c =
    same_Counted p s (handle_datagram-Records q t choice p.session s d e).same c
Move-Counted q t p p' (write events) c =
    same_Counted p _ (record { shut = λ h. h; ended = λ h. h; closes = refl; once = refl }) c
Move-Counted q t p p' (use_flow r f step) c =
    same_Counted p _ (record { shut = λ h. h; ended = λ h. h; closes = refl; once = refl }) c

pub Moves-Counted :
    (q : Quicvarint) (t : Transport) (p p' : Running) → Moves q t p p' → Counted p → Counted p'
Moves-Counted q t p p' here c = c
Moves-Counted q t p p' (then_move {p' = p1} moves m) c =
    Move-Counted q t p1 p' m (Moves-Counted q t p p1 moves c)

pub start-Counted :
    (s : Session) → s.producer_closes ≡ 0 → s.close_qlog_once ≡ false → Counted (start s)
unfolding start
start-Counted s none_closed not_once = record {
  counted = ground arith;
  last = λ h. absurd (omega (arith, none_closed));
  once = rw not_once none_closed;
}
