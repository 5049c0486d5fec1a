-- ===== src/Session/Shutdown.antt =====
-- `close` and `Close` of session.go, with the `Close` methods of the flows that they call.
use Prim.Native.String.{String}
use roq.Common.{ℕ, ◌+◌, true, Option, none, some, List, [], ◌∷◌, ◌++◌, if◌then◌else◌}
use roq.Common.Heap.{store}
use roq.Errors.{Error, SessionError, err_roq_no_error}
use roq.Qlogger.{Qlogger}
use roq.SyncMap.{delete_key, range_fn}
use roq.ReceiveFlow
use roq.SendFlow
use roq.Session.{Session}

-- The answers of the QUIC connection: closing a send stream, closing the connection.
pub record Transport : Type 0 where
  pub close_stream : ℕ → Option Error
  pub close_conn : ℕ → String → Option Error

-- `Close` of the send flow at this address, whose `onClose` deletes the flow's ID from the session.
unfoldable pub close_send_flow : Transport → Session → ℕ → Session × List Error
close_send_flow t s r =
    let c = SendFlow.close t.close_stream (s.send_heap.obj r) in
    (
      record s {
        send_heap = store r c.self s.send_heap;
        closed_streams = s.closed_streams ++ c.closed_streams;
        send_flows = delete_key s.send_flows (s.send_heap.obj r).id;
      },
      c.errs,
    )

unfoldable pub close_receive_flow : Session → ℕ → Session
close_receive_flow s r =
    let (f, cs) = ReceiveFlow.close (s.receive_heap.obj r) in
    record s { receive_heap = store r f s.receive_heap; cancelled = s.cancelled ++ cs }

-- `close` of a session that is still open.
unfoldable pub shut_down : Transport → Session → ℕ → String → Session
unfolding close_send_flow close_receive_flow
shut_down t s code reason =
    let e : SessionError = record { code = code; reason = reason } in
    let s1 = record s { closed_err = some e } in
    let s2 = range_fn s1.send_flows (λ _ r st. (close_send_flow t st r).0) s1 in
    let s3 = range_fn s2.receive_flows (λ _ r st. close_receive_flow st r) s2 in
    record s3 {
      conn_close_err = t.close_conn code reason;
      conn_closes = s3.conn_closes ++ (e ∷ []);
      ctx_done = true;
    }

unfoldable pub close : Transport → Session → ℕ → String → Session
unfolding shut_down
close t s code reason = elim s.closed_err [ some e ↦ s | none ↦ shut_down t s code reason ]

unfoldable pub close_producer : Option Qlogger → Session → Session
close_producer none s = s
close_producer (some l) s =
    if s.close_qlog_once
    then s
    else record s { close_qlog_once = true; producer_closes = s.producer_closes + 1 }

-- `Close`, in which the wait for the receive loops is not modelled: they have returned.
unfoldable pub close_session : Transport → Session → Session × Option Error
unfolding close_producer
close_session t s =
    let s' = close t s err_roq_no_error "" in (close_producer s'.qlog s', s'.conn_close_err)
