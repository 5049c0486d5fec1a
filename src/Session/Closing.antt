-- ===== src/Session/Closing.antt =====
-- `close` and `Close` of session.go: what becomes of the flows, and later calls.
use Prim.Native.String.{String}
use roq.Common.{
  ℕ, ◌≡◌, inl, inr, refl, ap, ◌∙◌, true, Option, none, some, [], ◌∷◌, ◌++◌, arith, Option-cases,
}
use roq.Common.GoMap.{lookup}
use roq.Errors.{SessionError, closed, err_roq_no_error}
use roq.Qlogger.{Qlogger}
use roq.SyncMap.{range_fn, get}
use roq.SyncMap.Laws.{each_keeps, each_reaches}
use roq.ReceiveFlow
use roq.SendFlow
use roq.Session.{Session}
use roq.Session.Flows.{IsValid, same_IsValid}
use roq.Session.Shutdown.{
  Transport, close_send_flow, close_receive_flow, shut_down, close, close_producer, close_session,
}

ReceiveFlowDone : ℕ → Session → Type 0
ReceiveFlowDone r s =
    ((s.receive_heap.obj r).ctx_done ≡ true) × ((s.receive_heap.obj r).closed ≡ true)

SendFlowDone : ℕ → Session → Type 0
SendFlowDone r s = (s.send_heap.obj r).closed_err ≡ some closed

close_receive_flow-ReceiveFlowDone :
    (s : Session) (r x : ℕ) → ReceiveFlowDone r s → ReceiveFlowDone r (close_receive_flow s x)
unfolding ReceiveFlowDone close_receive_flow ReceiveFlow.close ReceiveFlow.cancel_ctx
    ReceiveFlow.close_buffer
close_receive_flow-ReceiveFlowDone s r x h = ground arith

close_receive_flow_ends : (s : Session) (r : ℕ) → ReceiveFlowDone r (close_receive_flow s r)
unfolding ReceiveFlowDone close_receive_flow ReceiveFlow.close ReceiveFlow.cancel_ctx
    ReceiveFlow.close_buffer
close_receive_flow_ends s r = ground arith

close_send_flow-SendFlowDone :
    (t : Transport) (s : Session) (r x : ℕ)
    → SendFlowDone r s
    → SendFlowDone r (close_send_flow t s x).0
unfolding SendFlowDone close_send_flow SendFlow.close
close_send_flow-SendFlowDone t s r x h = ground arith

close_send_flow_ends :
    (t : Transport) (s : Session) (r : ℕ) → SendFlowDone r (close_send_flow t s r).0
unfolding SendFlowDone close_send_flow SendFlow.close
close_send_flow_ends t s r = ground arith

pub close_alive :
    (t : Transport) (s : Session) (code : ℕ) (reason : String)
    → s.closed_err ≡ none
    → close t s code reason ≡ shut_down t s code reason
unfolding close
close_alive t s code reason alive =
    ap (λ o. elim o as (λ _. Session) [ some e ↦ s | none ↦ shut_down t s code reason ]) alive

pub close_closed :
    (t : Transport) (s : Session) (code : ℕ) (reason : String) (e : SessionError)
    → s.closed_err ≡ some e
    → close t s code reason ≡ s
unfolding close
close_closed t s code reason e done =
    ap (λ o. elim o as (λ _. Session) [ some e ↦ s | none ↦ shut_down t s code reason ]) done

-- The session with the send flows closed.
unfoldable pub after_send_flows : Transport → Session → SessionError → Session
after_send_flows t s e =
    let s1 = record s { closed_err = some e } in
    range_fn s1.send_flows (λ _ r st. (close_send_flow t st r).0) s1

send_flows_keep-receive_flows :
    (t : Transport) (s : Session) (e : SessionError)
    → (after_send_flows t s e).receive_flows ≡ s.receive_flows
unfolding after_send_flows range_fn close_send_flow
send_flows_keep-receive_flows t s e =
    each_keeps (λ st. st.receive_flows ≡ s.receive_flows) (λ _ r st. (close_send_flow t st r).0)
      (λ k v st p. p) s.send_flows.elements (record s { closed_err = some e }) refl

-- `close` of an open session ends every receive flow that is registered: its context and its queue.
pub close_ends_receive_flow :
    (t : Transport) (s : Session) (code : ℕ) (reason : String) (id r : ℕ)
    → s.closed_err ≡ none
    → get s.receive_flows id ≡ some r
    → (((close t s code reason).receive_heap.obj r).ctx_done ≡ true)
      × (((close t s code reason).receive_heap.obj r).closed ≡ true)
unfolding shut_down range_fn get ReceiveFlowDone after_send_flows
close_ends_receive_flow t s code reason id r alive known =
    let s2 = after_send_flows t s (record { code = code; reason = reason }) in
    let same = send_flows_keep-receive_flows t s (record { code = code; reason = reason }) in
    rw (close_alive t s code reason alive) (
      each_reaches (ReceiveFlowDone r) (λ _ x st. close_receive_flow st x)
        (λ k v st p. close_receive_flow-ReceiveFlowDone st r v p) s2.receive_flows.elements id r s2
        (ap (λ m. lookup id m.elements) same ∙ known) (λ j st. close_receive_flow_ends st r))

pub receive_flows_keep-send_heap :
    (s : Session)
    → (range_fn s.receive_flows (λ _ r st. close_receive_flow st r) s).send_heap ≡ s.send_heap
unfolding range_fn close_receive_flow
receive_flows_keep-send_heap s =
    each_keeps (λ st. st.send_heap ≡ s.send_heap) (λ _ r st. close_receive_flow st r)
      (λ k v st p. p) s.receive_flows.elements s refl

-- `close` of an open session closes every send flow that is registered, whatever closing the streams
-- returns.
pub close_ends_send_flow :
    (t : Transport) (s : Session) (code : ℕ) (reason : String) (id r : ℕ)
    → s.closed_err ≡ none
    → get s.send_flows id ≡ some r
    → ((close t s code reason).send_heap.obj r).closed_err ≡ some closed
unfolding shut_down range_fn get SendFlowDone after_send_flows
close_ends_send_flow t s code reason id r alive known =
    let e : SessionError = record { code = code; reason = reason } in
    let s2 = after_send_flows t s e in
    rw (close_alive t s code reason alive) (
      ap (λ h. (h.obj r).closed_err) (receive_flows_keep-send_heap s2)
      ∙ each_reaches (SendFlowDone r) (λ _ x st. (close_send_flow t st x).0)
          (λ k v st p. close_send_flow-SendFlowDone t st r v p) s.send_flows.elements id r
          (record s { closed_err = some e }) known (λ j st. close_send_flow_ends t st r))

-- What the loops of `close` leave as it was.
pub loops_keep :
    {A : Type 0} (field : Session → A) (t : Transport) (s : Session) (e : SessionError)
    → ((st : Session) (r : ℕ) → field (close_send_flow t st r).0 ≡ field st)
    → ((st : Session) (r : ℕ) → field (close_receive_flow st r) ≡ field st)
    → let s2 = after_send_flows t s e in
      field (range_fn s2.receive_flows (λ _ r st. close_receive_flow st r) s2)
      ≡ field (record s { closed_err = some e })
unfolding range_fn after_send_flows
loops_keep field t s e sends receives =
    let s1 = record s { closed_err = some e } in
    let s2 = after_send_flows t s e in
    each_keeps (λ st. field st ≡ field s1) (λ _ r st. close_receive_flow st r)
      (λ k v st p. receives st v ∙ p) s2.receive_flows.elements s2
      (each_keeps (λ st. field st ≡ field s1) (λ _ r st. (close_send_flow t st r).0)
        (λ k v st p. sends st v ∙ p) s.send_flows.elements s1 refl)

-- `close` of an open session sets the session's error to the code and the reason, ends its context, and
-- calls the connection's `CloseWithError` once, with them.
pub close_first :
    (t : Transport) (s : Session) (code : ℕ) (reason : String)
    → s.closed_err ≡ none
    → let s' = close t s code reason in
      let e : SessionError = record { code = code; reason = reason } in
      (s'.closed_err ≡ some e)
      × (s'.ctx_done ≡ true)
      × (s'.conn_closes ≡ s.conn_closes ++ (e ∷ []))
      × (s'.conn_close_err ≡ t.close_conn code reason)
unfolding shut_down after_send_flows close_send_flow close_receive_flow
close_first t s code reason alive =
    let e : SessionError = record { code = code; reason = reason } in
    rw (close_alive t s code reason alive) (
      loops_keep (λ st. st.closed_err) t s e (λ st r. refl) (λ st r. refl),
      refl,
      ap (λ l. l ++ (e ∷ []))
          (loops_keep (λ st. st.conn_closes) t s e (λ st r. refl) (λ st r. refl)),
      refl,
    )

close_leaves_closed :
    (t : Transport) (s : Session) (code : ℕ) (reason : String)
    → (e : SessionError) × ((close t s code reason).closed_err ≡ some e)
close_leaves_closed t s code reason = elim (Option-cases s.closed_err) [
  | inl alive ↦ (record { code = code; reason = reason }, (close_first t s code reason alive).0)
  | inr (e, done) ↦ (e, rw (close_closed t s code reason e done) done)
]

-- The first call of `close` decides: a later one, with any code and reason, does nothing at all.
pub close_again :
    (t : Transport) (s : Session) (code code' : ℕ) (reason reason' : String)
    → close t (close t s code reason) code' reason' ≡ close t s code reason
close_again t s code code' reason reason' =
    let (e, done) = close_leaves_closed t s code reason in
    close_closed t (close t s code reason) code' reason' e done

close_producer_keeps :
    (l : Option Qlogger) (s : Session)
    → ((close_producer l s).closed_err ≡ s.closed_err)
      × ((close_producer l s).qlog ≡ s.qlog)
      × ((close_producer l s).conn_close_err ≡ s.conn_close_err)
unfolding close_producer
close_producer_keeps none s = (refl, refl, refl)
close_producer_keeps (some l) s = (ground arith, ground arith, ground arith)

close_producer_again :
    (l : Option Qlogger) (s : Session) → close_producer l (close_producer l s) ≡ close_producer l s
unfolding close_producer
close_producer_again none s = refl
close_producer_again (some l) s = ground arith

-- A second call of `Close` changes nothing and returns what the first returned; the qlog producer is
-- not closed again.
pub close_session_again :
    (t : Transport) (s : Session) → close_session t (close_session t s).0 ≡ close_session t s
unfolding close_session
close_session_again t s =
    let s' = close t s err_roq_no_error "" in
    let p = close_producer s'.qlog s' in
    let (same_err, same_log, same_conn) = close_producer_keeps s'.qlog s' in
    let (e, done) = close_leaves_closed t s err_roq_no_error "" in
    ap (λ x. (close_producer x.qlog x, x.conn_close_err))
      (close_closed t p err_roq_no_error "" e (same_err ∙ done))
    ∙ rw (same_log, close_producer_again s'.qlog s', same_conn)

pub close_keeps_flows :
    (t : Transport) (s : Session) (code : ℕ) (reason : String)
    → s.closed_err ≡ none
    → ((close t s code reason).flow_buffer ≡ s.flow_buffer)
      × ((close t s code reason).receive_flows ≡ s.receive_flows)
unfolding shut_down after_send_flows close_send_flow close_receive_flow
close_keeps_flows t s code reason alive =
    let e : SessionError = record { code = code; reason = reason } in
    rw (close_alive t s code reason alive) (
      loops_keep (λ st. st.flow_buffer) t s e (λ st r. refl) (λ st r. refl),
      loops_keep (λ st. st.receive_flows) t s e (λ st r. refl) (λ st r. refl),
    )

-- `close` leaves the receive flows where they are, with the application or in the buffer.
pub close-IsValid :
    (t : Transport) (s : Session) (code : ℕ) (reason : String)
    → IsValid s
    → IsValid (close t s code reason)
close-IsValid t s code reason v = elim (Option-cases s.closed_err) [
  | inr (e, done) ↦ rw (close_closed t s code reason e done) v
  | inl alive ↦
      let (b, r) = close_keeps_flows t s code reason alive in
      same_IsValid s (close t s code reason) b r v
]
