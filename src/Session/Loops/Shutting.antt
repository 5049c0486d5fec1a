-- ===== src/Session/Loops/Shutting.antt =====
-- The end of the session's context in session.go, for which the receive loops wait.
use mathlib.Core.Option.{none-ne-some}
use roq.Common.{
  ◌<◌, ◌≡◌, inl, inr, refl, sym, ap, ◌∙◌, true, Option, none, some, arith, Option-cases,
}
use roq.Errors.{err_roq_no_error}
use roq.Quicvarint.{Quicvarint}
use roq.Qlogger.{Qlogger}
use roq.Session.{Session}
use roq.Session.Shutdown.{Transport, close, close_producer, close_send_flow, close_receive_flow}
use roq.Session.Closing.{close_first, close_closed}
use roq.Session.Loops.{
  Running, start, Work, Move, work, receive, receive_fails, handle, accept, accept_fails, stream,
  done, call_close, wait_returns, finish, ask_receive_flow, ask_send_flow, end_send_flow,
  end_receive_flow, use_flow, conn_fails, open_stream, write, call_handle_datagram, Moves, here,
  then_move,
}
use roq.Session.Loops.Handling.{handle_datagram-Records}
use roq.Session.Loops.Quiet.{
  Shut, SameProducer, new_receive_flow_of-Quiet, new_send_flow-Quiet, datagram_step-Same,
  stream_step-Same,
}

-- Where a caller of `Close` waits, the context has ended.
pub record Closing (p : Running) : Type 0 where
  pub shut : Shut p.session
  pub closed : 0 < p.waiters → p.session.ctx_done ≡ true

close-ctx_done :
    (t : Transport) (s : Session) → Shut s → (close t s err_roq_no_error "").ctx_done ≡ true
close-ctx_done t s h = elim (Option-cases s.closed_err) [
  | inl alive ↦ (close_first t s err_roq_no_error "" alive).1
  | inr (e, is_closed) ↦ elim h [
    | inl alive ↦ absurd (none-ne-some e (sym alive ∙ is_closed))
    | inr ctx_done ↦
        ap (λ st. st.ctx_done) (close_closed t s err_roq_no_error "" e is_closed) ∙ ctx_done
  ]
]

close_producer-ctx_done :
    (l : Option Qlogger) (s : Session)
    → ((close_producer l s).ctx_done ≡ s.ctx_done)
      × ((close_producer l s).closed_err ≡ s.closed_err)
unfolding close_producer
close_producer-ctx_done none s = (refl, refl)
close_producer-ctx_done (some l) s = (ground arith, ground arith)

same_Closing :
    (p : Running) (s : Session)
    → SameProducer p.session s
    → Closing p
    → Closing (record p { session = s })
same_Closing p s k c = record { shut = k.shut c.shut; closed = λ w. k.ended (c.closed w) }

Work-Same :
    (q : Quicvarint) (t : Transport) (p p' : Running)
    → Work q t p p'
    → SameProducer p.session p'.session
Work-Same q t p p' (receive d e) = record {
  shut = λ h. h;
  ended = λ h. h;
  closes = refl;
  once = refl;
}
Work-Same q t p p' (receive_fails c e) = record {
  shut = λ h. h;
  ended = λ h. h;
  closes = refl;
  once = refl;
}
Work-Same q t p p' (handle choice s l e) = datagram_step-Same q t choice p.session s p.datagrams l e
Work-Same q t p p' (accept rs e) = record {
  shut = λ h. h;
  ended = λ h. h;
  closes = refl;
  once = refl;
}
Work-Same q t p p' (accept_fails c e) = record {
  shut = λ h. h;
  ended = λ h. h;
  closes = refl;
  once = refl;
}
Work-Same q t p p' (stream before after task next choice s e step) =
    stream_step-Same q choice p.session s task next step
Work-Same q t p p' (done before after e) = record {
  shut = λ h. h;
  ended = λ h. h;
  closes = refl;
  once = refl;
}

pub Work-waiters :
    (q : Quicvarint) (t : Transport) (p p' : Running) → Work q t p p' → p'.waiters ≡ p.waiters
Work-waiters q t p p' (receive d e) = refl
Work-waiters q t p p' (receive_fails c e) = refl
Work-waiters q t p p' (handle choice s l e) = refl
Work-waiters q t p p' (accept rs e) = refl
Work-waiters q t p p' (accept_fails c e) = refl
Work-waiters q t p p' (stream before after task next choice s e step) = refl
Work-waiters q t p p' (done before after e) = refl

-- The context stays ended.
pub Work-ctx_done :
    (q : Quicvarint) (t : Transport) (p p' : Running)
    → Work q t p p'
    → p.session.ctx_done ≡ true
    → p'.session.ctx_done ≡ true
Work-ctx_done q t p p' w = (Work-Same q t p p' w).ended

Move-Closing :
    (q : Quicvarint) (t : Transport) (p p' : Running) → Move q t p p' → Closing p → Closing p'
Move-Closing q t p p' (work w) c =
    let k = Work-Same q t p p' w in
    record {
      shut = k.shut c.shut;
      closed = λ h. k.ended (c.closed (omega (arith, h, Work-waiters q t p p' w)));
    }
Move-Closing q t p p' call_close c =
    let is_over = close-ctx_done t p.session c.shut in
    record { shut = inr is_over; closed = λ h. is_over }
Move-Closing q t p p' (wait_returns some_wait none_run) c = record {
  shut = c.shut;
  closed = λ h. c.closed some_wait;
}
Move-Closing q t p p' (finish some_released) c =
    let (ctx, err) = close_producer-ctx_done p.session.qlog p.session in
    record {
      shut = elim c.shut [ inl alive ↦ inl (err ∙ alive) | inr is_over ↦ inr (ctx ∙ is_over) ];
      closed = λ h. ctx ∙ c.closed h;
    }
Move-Closing q t p p' (ask_receive_flow id) c =
    same_Closing p _ (new_receive_flow_of-Quiet p.session id).same c
Move-Closing q t p p' (ask_send_flow id) c =
    same_Closing p _ (new_send_flow-Quiet q p.session id).same c
Move-Closing q t p p' (end_send_flow r) c = record {
  shut = unfold close_send_flow in c.shut;
  closed = unfold close_send_flow in c.closed;
}
Move-Closing q t p p' (end_receive_flow r) c = record {
  shut = unfold close_receive_flow in c.shut;
  closed = unfold close_receive_flow in c.closed;
}
Move-Closing q t p p' conn_fails c = record { shut = c.shut; closed = c.closed }
Move-Closing q t p p' (open_stream r answer priority incremental) c = record {
  shut = c.shut;
  closed = c.closed;
}
Move-Closing q t p p' (call_handle_datagram choice d s e) c =
    same_Closing p s (handle_datagram-Records q t choice p.session s d e).same c
Move-Closing q t p p' (write events) c = record { shut = c.shut; closed = c.closed }
Move-Closing q t p p' (use_flow r f step) c = record { shut = c.shut; closed = c.closed }

pub Moves-Closing :
    (q : Quicvarint) (t : Transport) (p p' : Running) → Moves q t p p' → Closing p → Closing p'
Moves-Closing q t p p' here c = c
Moves-Closing q t p p' (then_move {p' = p1} moves m) c =
    Move-Closing q t p1 p' m (Moves-Closing q t p p1 moves c)

pub start-Closing : (s : Session) → s.closed_err ≡ none → Closing (start s)
unfolding start
start-Closing s alive = record { shut = inl alive; closed = λ h. absurd (omega arith) }
