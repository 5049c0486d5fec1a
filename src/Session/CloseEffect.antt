-- ===== src/Session/CloseEffect.antt =====
-- `close` of session.go: all that it does to the flows and their streams.
use Prim.Native.String.{String}
use roq.Common.{ℕ, ◌≡◌, refl, sym, ap, ◌∙◌, none, some, ◌++◌, arith, if◌then◌else◌}
use roq.Common.GoMap.{keys}
use roq.Errors.{SessionError, err_roq_no_error}
use roq.SyncMap.{range_fn}
use roq.SyncMap.Laws.{each_keeps}
use roq.SyncMap.Effects.{has_value, collected, each_acts, each_collects}
use roq.ReceiveFlow
use roq.ReceiveFlow.{ReceiveFlow, cancels}
use roq.ReceiveFlow.Invariant.Closing.{close_lem}
use roq.SendFlow
use roq.SendFlow.{SendFlow}
use roq.Session.{Session}
use roq.Session.Shutdown.{Transport, close_send_flow, close_receive_flow, shut_down, close}
use roq.Session.Closing.{after_send_flows, close_alive, receive_flows_keep-send_heap}

ended : ReceiveFlow → ReceiveFlow
ended f = (ReceiveFlow.close f).0

ended-streams : (f : ReceiveFlow) → (ended f).streams ≡ f.streams
unfolding ended ReceiveFlow.close ReceiveFlow.close_buffer ReceiveFlow.cancel_ctx
ended-streams f = ground arith

same_cancels : (f : ReceiveFlow) → (ReceiveFlow.close (ended f)).1 ≡ (ReceiveFlow.close f).1
same_cancels f =
    (close_lem (ended f)).3
    ∙ ap (λ m. cancels err_roq_no_error (keys m)) (ended-streams f)
    ∙ sym (close_lem f).3

-- What closing the send flows leaves as it was.
sends_keep :
    {A : Type 0} (field : Session → A) (t : Transport) (s : Session) (e : SessionError)
    → ((st : Session) (r : ℕ) → field (close_send_flow t st r).0 ≡ field st)
    → field (after_send_flows t s e) ≡ field (record s { closed_err = some e })
unfolding after_send_flows range_fn
sends_keep field t s e keeps =
    each_keeps (λ st. field st ≡ field (record s { closed_err = some e }))
      (λ _ r st. (close_send_flow t st r).0) (λ k v st p. keeps st v ∙ p) s.send_flows.elements
      (record s { closed_err = some e }) refl

receive_heap-receives :
    (s : Session) (r : ℕ)
    → (range_fn s.receive_flows (λ _ r st. close_receive_flow st r) s).receive_heap.obj r ≡ (
        if has_value r s.receive_flows.elements
        then ended (s.receive_heap.obj r)
        else s.receive_heap.obj r)
unfolding range_fn close_receive_flow ended
receive_heap-receives s r =
    each_acts (λ st. st.receive_heap.obj) close_receive_flow ended (λ st v r. refl)
      (λ f. (close_lem f).4) s.receive_flows.elements s r

cancelled-receives :
    (s : Session)
    → (range_fn s.receive_flows (λ _ r st. close_receive_flow st r) s).cancelled
      ≡ s.cancelled
        ++ collected (λ r. (ReceiveFlow.close (s.receive_heap.obj r)).1) s.receive_flows.elements
unfolding range_fn close_receive_flow ended
cancelled-receives s =
    each_collects (λ st. st.receive_heap.obj) close_receive_flow ended (λ st v r. refl)
      (λ f. (close_lem f).4) (λ st. st.cancelled) (λ f. (ReceiveFlow.close f).1) (λ st v. refl)
      same_cancels s.receive_flows.elements s

closed_flow : Transport → SendFlow → SendFlow
closed_flow t f = (SendFlow.close t.close_stream f).self

send_heap-sends :
    (t : Transport) (s : Session) (e : SessionError) (r : ℕ)
    → (after_send_flows t s e).send_heap.obj r ≡ (
        if has_value r s.send_flows.elements
        then closed_flow t (s.send_heap.obj r)
        else s.send_heap.obj r)
unfolding after_send_flows range_fn close_send_flow closed_flow SendFlow.close
send_heap-sends t s e r =
    each_acts (λ st. st.send_heap.obj) (λ st v. (close_send_flow t st v).0) (closed_flow t)
      (λ st v r. refl) (λ f. refl) s.send_flows.elements (record s { closed_err = some e }) r

closed_streams-sends :
    (t : Transport) (s : Session) (e : SessionError)
    → (after_send_flows t s e).closed_streams
      ≡ s.closed_streams ++ collected (λ r. (s.send_heap.obj r).streams) s.send_flows.elements
unfolding after_send_flows range_fn close_send_flow closed_flow SendFlow.close
closed_streams-sends t s e =
    each_collects (λ st. st.send_heap.obj) (λ st v. (close_send_flow t st v).0) (closed_flow t)
      (λ st v r. refl) (λ f. refl) (λ st. st.closed_streams) (λ f. f.streams) (λ st v. refl)
      (λ f. refl) s.send_flows.elements (record s { closed_err = some e })

-- What closing the receive flows leaves as it was.
receives_keep :
    {A : Type 0} (field : Session → A) (s : Session)
    → ((st : Session) (r : ℕ) → field (close_receive_flow st r) ≡ field st)
    → field (range_fn s.receive_flows (λ _ r st. close_receive_flow st r) s) ≡ field s
unfolding range_fn
receives_keep field s keeps =
    each_keeps (λ st. field st ≡ field s) (λ _ r st. close_receive_flow st r)
      (λ k v st p. keeps st v ∙ p) s.receive_flows.elements s refl

-- `close` of an open session, address by address: a receive flow is as its own `Close` leaves it where
-- the session has it registered, and as it was otherwise, and so is a send flow, whatever closing its
-- streams returns. The streams that are cancelled, and their codes, are those of the `Close` of each
-- registered receive flow, and the streams that are closed those of each registered send flow, in the
-- order in which the maps are gone through.
pub close_effect :
    (t : Transport) (s : Session) (code : ℕ) (reason : String)
    → s.closed_err ≡ none
    → let s' = close t s code reason in
      ((r : ℕ)
        → s'.receive_heap.obj r ≡ (
            if has_value r s.receive_flows.elements
            then (ReceiveFlow.close (s.receive_heap.obj r)).0
            else s.receive_heap.obj r))
      × ((r : ℕ)
          → s'.send_heap.obj r ≡ (
              if has_value r s.send_flows.elements
              then (SendFlow.close t.close_stream (s.send_heap.obj r)).self
              else s.send_heap.obj r))
      × (s'.cancelled
          ≡ s.cancelled
            ++ collected
                (λ r. (ReceiveFlow.close (s.receive_heap.obj r)).1)
                s.receive_flows.elements)
      × (s'.closed_streams
          ≡ s.closed_streams ++ collected (λ r. (s.send_heap.obj r).streams) s.send_flows.elements)
unfolding shut_down after_send_flows ended closed_flow close_send_flow close_receive_flow
close_effect t s code reason alive =
    let e : SessionError = record { code = code; reason = reason } in
    let s2 = after_send_flows t s e in
    let flows = sends_keep (λ st. st.receive_flows) t s e (λ st r. refl) in
    let heap = sends_keep (λ st. st.receive_heap) t s e (λ st r. refl) in
    let streams = sends_keep (λ st. st.cancelled) t s e (λ st r. refl) in
    rw (close_alive t s code reason alive) (
      λ r.
          receive_heap-receives s2 r
          ∙ ap
              (λ m.
                if has_value r m.elements
                then ended (s2.receive_heap.obj r)
                else s2.receive_heap.obj r)
              flows
          ∙ ap (λ h. if has_value r s.receive_flows.elements then ended (h.obj r) else h.obj r)
              heap,
      λ r. ap (λ h. h.obj r) (receive_flows_keep-send_heap s2) ∙ send_heap-sends t s e r,
      cancelled-receives s2
          ∙ ap
              (λ l.
                l
                ++ collected (λ r. (ReceiveFlow.close (s2.receive_heap.obj r)).1)
                    s2.receive_flows.elements)
              streams
          ∙ ap
              (λ m.
                s.cancelled
                ++ collected (λ r. (ReceiveFlow.close (s2.receive_heap.obj r)).1) m.elements)
              flows
          ∙ ap
              (λ h.
                s.cancelled
                ++ collected (λ r. (ReceiveFlow.close (h.obj r)).1) s.receive_flows.elements)
              heap,
      receives_keep (λ st. st.closed_streams) s2 (λ st r. refl) ∙ closed_streams-sends t s e,
    )
