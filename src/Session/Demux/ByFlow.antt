-- ===== src/Session/Demux/ByFlow.antt =====
-- `receiveDatagrams` of session.go: from a sequence of datagrams with flow IDs of any kind to the queue of
-- one flow.
use roq.Common.{
  ℕ, ◌≡◌, inl, inr, refl, sym, ap, ◌∙◌, Bool, true, false, Option, none, some, List, [], ◌∷◌, arith,
  Option-cases, Bool-cases, ==_refl, ◌==◌, if◌then◌else◌, drop,
}
use Prim.Native.String.{String}
use roq.Common.GoMap.{lookup}
use roq.ReceiveFlowBuffer.{ReceiveFlowBuffer}
use roq.Errors.{SessionError, err_roq_packet_error}
use roq.Quicvarint.{Bytes, Quicvarint}
use roq.ReceiveFlow.{ReceiveFlow}
use roq.ReceiveFlow.Queue.{
  IsOpen, Keeps, packets, offer, accept, accept-Keeps, accept-packets, accept_closed,
}
use roq.ReceiveFlow.Invariant.Closing.{close_lem}
use roq.SyncMap.{range_fn}
use roq.SyncMap
use roq.Session.{Session}
use roq.Session.Incoming.{handle_parsed, handle_datagram, then_handle, handle_datagrams}
use roq.Session.Shutdown.{close, Transport, close_receive_flow, close_send_flow, shut_down}
use roq.Session.Flows.{IsValid, same_IsValid, receive_flow-IsValid}
use roq.Session.Datagrams.{logged, taken, handle_datagram-taken}
use roq.Session.Closing.{
  close_alive, close_closed, close_first, close_ends_receive_flow, close_keeps_flows, close-IsValid,
  loops_keep, after_send_flows,
}
use roq.Session.Demux.Alone.{Alone, receive_flow-Served}

-- The packets of the datagrams with a flow ID, up to the first datagram that has none.
abbrev pub of_flow : Quicvarint → ℕ → Bytes → List Bytes → Option (ℕ × ℕ) → List Bytes
of_flow q id d rest none = []
of_flow q id d rest (some (k, n)) = if k == id then drop (q.len k) d ∷ rest else rest

unfoldable pub for_flow : Quicvarint → ℕ → List Bytes → List Bytes
for_flow q id [] = []
for_flow q id (d ∷ ds) = of_flow q id d (for_flow q id ds) (q.parse d)

-- The flow after a packet that may be its own.
abbrev pub accept_if : Bool → ℕ → ReceiveFlow → Bytes → ReceiveFlow
accept_if own choice f p = if own then accept choice f p else f

pub accept_if-Keeps :
    (own : Bool) (choice : ℕ) (f : ReceiveFlow) (p : Bytes) → Keeps f (accept_if own choice f p)
accept_if-Keeps true choice f p = accept-Keeps choice f p
accept_if-Keeps false choice f p = ground arith

pub accept_if-packets :
    (own : Bool) (choice : ℕ) (f : ReceiveFlow) (p : Bytes)
    → IsOpen f
    → packets (accept_if own choice f p)
      ≡ (if own then offer f.buffer.cap (packets f) p else packets f)
accept_if-packets true choice f p o = accept-packets choice f p o
accept_if-packets false choice f p o = refl

accept_if_closed :
    (own : Bool) (choice : ℕ) (f : ReceiveFlow) (p : Bytes)
    → f.closed ≡ true
    → packets (accept_if own choice f p) ≡ packets f
accept_if_closed true choice f p h = accept_closed choice f p h
accept_if_closed false choice f p h = refl

taken-flow :
    (choice x r : ℕ) (p : Bytes) (s : Session)
    → (taken choice x p s).receive_heap.obj r ≡ accept_if (x == r) choice (s.receive_heap.obj r) p
taken-flow choice x r p s = elim (Bool-cases (x == r)) [
  | inl same ↦ let e : x ≡ r = ground arith in rw e (rw (==_refl r) refl)
  | inr other ↦ rw other refl
]

module _ (q : Quicvarint) (t : Transport) (id r : ℕ) where
  -- The session has the flow in one place.
  pub record Has (s : Session) : Type 0 where
    pub valid : IsValid s
    pub alone : Alone id r s

  pub with_flow_id :
      (choice : ℕ) (s : Session) (d : Bytes) (k n : ℕ)
      → q.parse d ≡ some (k, n)
      → Has s
      → (s' : Session) × (handle_datagram q t choice s d ≡ some s')
        × Has s'
        × (s'.closed_err ≡ s.closed_err)
        × (s'.receive_heap.obj r
            ≡ accept_if (k == id) choice (s.receive_heap.obj r) (drop (q.len k) d))
  with_flow_id choice s d k n parsed h =
      let s0 = logged s d k n in
      let a : Alone id r s0 = record {
        known = h.alone.known;
        only = h.alone.only;
        not_held = h.alone.not_held;
        allocated = h.alone.allocated;
      } in
      let (s1, x, served, w, _, _) =
        receive_flow-IsValid s0 k (same_IsValid s s0 refl refl h.valid) in
      let v = receive_flow-Served id r k s0 (s1, x) a served in
      let p = drop (q.len k) d in
      (
        taken choice x p s1,
        handle_datagram-taken q t choice s s1 d k n x parsed served,
        record {
          valid = same_IsValid s1 (taken choice x p s1) refl refl w;
          alone = record {
            known = v.still_alone.known;
            only = v.still_alone.only;
            not_held = v.still_alone.not_held;
            allocated = v.still_alone.allocated;
          };
        },
        v.same_err,
        taken-flow choice x r p s1
            ∙ ap (λ b. accept_if b choice (s1.receive_heap.obj r) p) (sym v.which)
            ∙ ap (λ f. accept_if (k == id) choice f p) v.same_flow,
      )

  close_receive_flow-packets :
      (s : Session) (x : ℕ)
      → packets ((close_receive_flow s x).receive_heap.obj r) ≡ packets (s.receive_heap.obj r)
  unfolding close_receive_flow
  close_receive_flow-packets s x = elim (Bool-cases (x == r)) [
    | inl same ↦
        let e : x ≡ r = ground arith in rw e (rw (==_refl r) ((close_lem (s.receive_heap.obj r)).2))
    | inr other ↦ rw other refl
  ]

  pub close_keeps :
      (s : Session) (reason : String)
      → s.closed_err ≡ none
      → let s' = close t s err_roq_packet_error reason in
        (s'.receive_heap.next ≡ s.receive_heap.next)
        × (packets (s'.receive_heap.obj r) ≡ packets (s.receive_heap.obj r))
  unfolding shut_down after_send_flows close_send_flow close_receive_flow
  close_keeps s reason alive =
      let e : SessionError = record { code = err_roq_packet_error; reason = reason } in
      rw (close_alive t s err_roq_packet_error reason alive) (
        loops_keep (λ st. st.receive_heap.next) t s e (λ st x. refl) (λ st x. refl),
        loops_keep (λ st. packets (st.receive_heap.obj r)) t s e (λ st x. refl)
            (λ st x. close_receive_flow-packets st x),
      )

  -- The flow has ended with its session.
  pub record Ended (s : Session) : Type 0 where
    pub has : Has s
    pub flow_closed : (s.receive_heap.obj r).closed ≡ true
    pub err : SessionError
    pub session_closed : s.closed_err ≡ some err

  pub close-Ended :
      (s : Session) (reason : String)
      → Has s
      → s.closed_err ≡ none
      → Ended (close t s err_roq_packet_error reason)
  close-Ended s reason h alive =
      let s' = close t s err_roq_packet_error reason in
      let (buffer, flows) = close_keeps_flows t s err_roq_packet_error reason alive in
      let (next, _) = close_keeps s reason alive in
      let a = h.alone in
      record {
        has = record {
          valid = close-IsValid t s err_roq_packet_error reason h.valid;
          alone = record {
            known = ap (λ m. SyncMap.get m id) flows ∙ a.known;
            only = λ k e. a.only k (ap (λ m. SyncMap.get m k) (sym flows) ∙ e);
            not_held = λ k e.
                a.not_held k (ap (λ (b : ReceiveFlowBuffer). lookup k b.buffer) (sym buffer) ∙ e);
            allocated = omega (arith, a.allocated);
          };
        };
        flow_closed =
            (close_ends_receive_flow t s err_roq_packet_error reason id r alive a.known).1;
        err = record { code = err_roq_packet_error; reason = reason };
        session_closed = (close_first t s err_roq_packet_error reason alive).0;
      }

  -- From there on the queue stays as it is.
  pub Ended-stays :
      (choice : Session → ℕ) (ds : List Bytes) (s : Session)
      → Ended s
      → (s' : Session) × (handle_datagrams q t choice ds s ≡ some s')
        × (packets (s'.receive_heap.obj r) ≡ packets (s.receive_heap.obj r))
  unfolding handle_datagrams handle_datagram
  Ended-stays choice [] s h = (s, refl, refl)
  Ended-stays choice (d ∷ ds) s h = elim (Option-cases (q.parse d)) [
    | inl bad ↦
        let (s', done, same) = Ended-stays choice ds s h in
        (
          s',
          ap (then_handle (handle_datagrams q t choice ds)) (
                ap (handle_parsed q t (choice s) s d) bad
                ∙ ap some (
                    close_closed t s err_roq_packet_error "invalid flow ID" h.err h.session_closed))
              ∙ done,
          same,
        )
    | inr ((k, n), parsed) ↦
        let (s1, handled, has, err, flow) = with_flow_id (choice s) s d k n parsed h.has in
        let p = drop (q.len k) d in
        let (s', done, same) = Ended-stays choice ds s1 (record {
          has = has;
          flow_closed =
              ap (λ (f : ReceiveFlow). f.closed) flow
              ∙ (accept_if-Keeps (k == id) (choice s) (s.receive_heap.obj r) p).same_closed
              ∙ h.flow_closed;
          err = h.err;
          session_closed = err ∙ h.session_closed;
        }) in
        (
          s',
          ap (then_handle (handle_datagrams q t choice ds)) handled ∙ done,
          same
              ∙ ap packets flow
              ∙ accept_if_closed (k == id) (choice s) (s.receive_heap.obj r) p h.flow_closed,
        )
  ]
