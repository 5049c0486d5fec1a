-- ===== src/Session/Demux/Life.antt =====
-- session.go from the creation of a session on: which datagrams come to a flow.
use mathlib.Core.Path.{subst}
use mathlib.Core.Option.{some-injective, none-ne-some}
use Prim.Native.String.{String}
use roq.Common.{
  ℕ, ◌≤◌, ◌≡◌, inl, inr, refl, sym, ap, ◌∙◌, Bool, Option, none, some, List, ◌++◌, arith,
  Option-cases, take, length, drop,
}
use roq.Common.GoMap.{lookup}
use roq.Common.Heap.{Heap}
use roq.Errors.{err_roq_packet_error, err_roq_no_error}
use roq.Quicvarint.{Bytes, Quicvarint}
use roq.Qlogger.{Qlogger}
use roq.Options.{SessionConfig}
use roq.Options.Settings.{Setting, options}
use roq.ReceiveFlow.{ReceiveFlow}
use roq.ReceiveFlow.Queue.{IsOpen, packets}
use roq.ReceiveFlow.Frames.{ReceiveStream}
use roq.ReceiveFlow.Frames.Total.{read_stream-total}
use roq.ReceiveFlowBuffer.{new_receive_flow_buffer}
use roq.SendFlow.{SendFlow}
use roq.SyncMap.{get, new_sync_map}
use roq.Session.{
  Session, made, Connection, create_session, new_session, new_receive_flow_of, new_send_flow,
}
use roq.Session.Shutdown.{
  Transport, close, close_send_flow, close_receive_flow, close_producer, close_session, shut_down,
}
use roq.Session.Incoming.{
  handle_parsed, handle_datagram, handle_datagrams, handle_read, handle_uni_stream,
  handle_uni_stream_with_flow_id,
}
use roq.Session.Flows.{IsValid, same_IsValid, receive_flow-IsValid}
use roq.Session.Datagrams.{logged, taken, handle_datagram-taken}
use roq.Session.Streams.{opened, after_read, handle_uni_stream_reads}
use roq.Session.Closing.{close_alive, close_closed, close_keeps_flows, loops_keep, after_send_flows}
use roq.Session.Creation.{create_session-Made, create_session-IsValid}
use roq.Session.Life.{
  SessionStep, datagram, stream, stream_of_flow, ask_receive_flow, ask_send_flow, end_send_flow,
  end_receive_flow, end_session, use_receive_flow, open_stream, write, Lives, born, then_step,
  Lives-IsValid, new_receive_flow_of_cases, new_send_flow_keeps,
}
use roq.Session.Demux.Addressed.{
  Addressed, Addressed-Alone, same-Addressed, receive_flow-Addressed, new_receive_flow_of-Addressed,
}
use roq.Session.Demux.ByFlow.{for_flow}
use roq.Session.Demux.Sorted.{datagrams_by_flow}

new_session-Addressed :
    (config : SessionConfig) (accept : Bool) (log : Option Qlogger) (rh : Heap ReceiveFlow)
    (sh : Heap SendFlow)
    → Addressed (new_session config accept log rh sh)
unfolding new_session new_receive_flow_buffer new_sync_map lookup get
new_session-Addressed config accept log rh sh = record {
  below = λ k r h. elim h [ inl e ↦ absurd (none-ne-some r e) | inr e ↦ absurd (none-ne-some r e) ];
  single = λ k j r h h'. elim h [
    | inl e ↦ absurd (none-ne-some r e)
    | inr e ↦ absurd (none-ne-some r e)
  ];
}

close-next :
    (t : Transport) (s : Session) (code : ℕ) (reason : String)
    → s.closed_err ≡ none
    → (close t s code reason).receive_heap.next ≡ s.receive_heap.next
unfolding shut_down after_send_flows close_send_flow close_receive_flow
close-next t s code reason alive = rw (close_alive t s code reason alive) (
    loops_keep (λ st. st.receive_heap.next) t s (record { code = code; reason = reason })
      (λ st x. refl) (λ st x. refl))

close-Addressed :
    (t : Transport) (s : Session) (code : ℕ) (reason : String)
    → Addressed s
    → Addressed (close t s code reason)
close-Addressed t s code reason a = elim (Option-cases s.closed_err) [
  | inr (e, done) ↦ rw (close_closed t s code reason e done) a
  | inl alive ↦
      let (b, f) = close_keeps_flows t s code reason alive in
      same-Addressed s (close t s code reason) b f (close-next t s code reason alive) a
]

same_session :
    {o : Option Session} {s s' : Session} → o ≡ some s → o ≡ some s' → Addressed s → Addressed s'
same_session {o} {s} {s'} e e' a = subst Addressed (some-injective s s' (sym e ∙ e')) a

handle_datagram-Addressed :
    (q : Quicvarint) (t : Transport) (choice : ℕ) (s s' : Session) (d : Bytes)
    → handle_datagram q t choice s d ≡ some s'
    → IsValid s
    → Addressed s
    → Addressed s'
unfolding handle_datagram
handle_datagram-Addressed q t choice s s' d done v a = elim (Option-cases (q.parse d)) [
  | inl bad ↦
      same_session (ap (handle_parsed q t choice s d) bad) done
        (close-Addressed t s err_roq_packet_error "invalid flow ID" a)
  | inr ((id, n), parsed) ↦
      let s0 = logged s d id n in
      let (s1, r, served, _, _, _) = receive_flow-IsValid s0 id (same_IsValid s s0 refl refl v) in
      same_session (handle_datagram-taken q t choice s s1 d id n r parsed served) done (
        same-Addressed s1 (taken choice r (drop (q.len id) d) s1) refl refl refl
          (receive_flow-Addressed s0 s1 id r served (same-Addressed s s0 refl refl refl a)))
]

stream_of_flow-Addressed :
    (q : Quicvarint) (pick : ReceiveFlow → ℕ) (s s' : Session) (id : ℕ) (rs : ReceiveStream)
    → handle_uni_stream_with_flow_id q pick s id rs ≡ some s'
    → IsValid s
    → Addressed s
    → Addressed s'
stream_of_flow-Addressed q pick s s' id rs done v a =
    let s0 = opened s id rs.id in
    let (s1, r, served, _, _, _) = receive_flow-IsValid s0 id (same_IsValid s s0 refl refl v) in
    let (read, ends, _) = read_stream-total q pick (s1.receive_heap.obj r) rs in
    same_session (handle_uni_stream_reads q pick s s1 id r rs read served ends) done (
      same-Addressed s1 (after_read r read s1) refl refl refl
        (receive_flow-Addressed s0 s1 id r served (same-Addressed s s0 refl refl refl a)))

stream-Addressed :
    (q : Quicvarint) (pick : ReceiveFlow → ℕ) (s s' : Session) (rs : ReceiveStream)
    → handle_uni_stream q pick s rs ≡ some s'
    → IsValid s
    → Addressed s
    → Addressed s'
unfolding handle_uni_stream
stream-Addressed q pick s s' rs done v a = elim (Option-cases (q.read rs.content)) [
  | inl bad ↦
      same_session (ap (handle_read q pick s rs) bad) done (same-Addressed s _ refl refl refl a)
  | inr ((id, rest), named) ↦
      stream_of_flow-Addressed q pick s s' id (record rs { content = rest })
        (sym (ap (handle_read q pick s rs) named) ∙ done) v a
]

ask_receive_flow-Addressed :
    (s : Session) (id : ℕ) → IsValid s → Addressed s → Addressed (new_receive_flow_of s id).0
ask_receive_flow-Addressed s id v a = elim (new_receive_flow_of_cases s id) [
  | inl same ↦ subst Addressed (sym same) a
  | inr (alive, new) ↦ new_receive_flow_of-Addressed s id v a alive new
]

close_producer-Addressed :
    (l : Option Qlogger) (s : Session) → Addressed s → Addressed (close_producer l s)
unfolding close_producer
close_producer-Addressed none s a = a
close_producer-Addressed (some l) s a =
    same-Addressed s (close_producer (some l) s) (ground arith) (ground arith) (ground arith) a

SessionStep-Addressed :
    {q : Quicvarint} {t : Transport} {s s' : Session}
    → SessionStep q t s s'
    → IsValid s
    → Addressed s
    → Addressed s'
unfolding close_send_flow close_receive_flow close_session
SessionStep-Addressed {q} {t} {s} {s'} (datagram choice d done) v a =
    handle_datagram-Addressed q t choice s s' d done v a
SessionStep-Addressed {q} {t} {s} {s'} (stream pick rs done) v a =
    stream-Addressed q pick s s' rs done v a
SessionStep-Addressed {q} {t} {s} {s'} (stream_of_flow pick id rs done) v a =
    stream_of_flow-Addressed q pick s s' id rs done v a
SessionStep-Addressed {q} {t} {s} (ask_receive_flow id) v a = ask_receive_flow-Addressed s id v a
SessionStep-Addressed {q} {t} {s} (ask_send_flow id) v a =
    let (b, f, h) = new_send_flow_keeps q s id in
    same-Addressed s (new_send_flow q s id).0 b f (ap (λ (x : Heap ReceiveFlow). x.next) h) a
SessionStep-Addressed {q} {t} {s} (end_send_flow r) v a = same-Addressed s _ refl refl refl a
SessionStep-Addressed {q} {t} {s} (end_receive_flow r) v a = same-Addressed s _ refl refl refl a
SessionStep-Addressed {q} {t} {s} (use_receive_flow r f step) v a =
    same-Addressed s _ refl refl refl a
SessionStep-Addressed {q} {t} {s} (open_stream r answer priority incremental) v a =
    same-Addressed s _ refl refl refl a
SessionStep-Addressed {q} {t} {s} (write events) v a = same-Addressed s _ refl refl refl a
SessionStep-Addressed {q} {t} {s} end_session v a =
    let s' = close t s err_roq_no_error "" in
    close_producer-Addressed s'.qlog s' (close-Addressed t s err_roq_no_error "" a)

Lives-Addressed :
    {q : Quicvarint} {t : Transport} {s s' : Session}
    → Lives q t s s'
    → IsValid s
    → Addressed s
    → Addressed s'
Lives-Addressed born v a = a
Lives-Addressed (then_step l step) v a =
    SessionStep-Addressed step (Lives-IsValid l v) (Lives-Addressed l v a)

-- In every state of a session that was created with options that are accepted, after any sequence of
-- datagrams and streams of the peer and of calls of the application, of the session and of its flows, where
-- the session's operations follow one another and the critical sections of the receive flows' methods come
-- anywhere between them: for every flow that is registered under an
-- ID and is open and within its capacity, while the session is open: handling any sequence of
-- datagrams, of this flow, of others, of flows that the session does not know, or without a flow ID,
-- returns, and the flow's queue then holds what it held before and then, in order and as far as it has
-- room, what just the datagrams with its ID have behind the `Len` of the ID, up to the first datagram
-- without a flow ID.
pub session_sorts_datagrams :
    (q : Quicvarint) (t : Transport) (conn : Option Connection) (accept : Bool) (ss : List Setting)
    (rh : Heap ReceiveFlow) (sh : Heap SendFlow) (s0 s : Session) (choice : Session → ℕ)
    (ds : List Bytes) (id r : ℕ)
    → create_session conn accept (options ss) rh sh ≡ made s0
    → Lives q t s0 s
    → get s.receive_flows id ≡ some r
    → s.closed_err ≡ none
    → IsOpen (s.receive_heap.obj r)
    → length (packets (s.receive_heap.obj r)) ≤ (s.receive_heap.obj r).buffer.cap
    → let f = s.receive_heap.obj r in
      (s' : Session) × (handle_datagrams q t choice ds s ≡ some s')
      × (packets (s'.receive_heap.obj r) ≡ take f.buffer.cap (packets f ++ for_flow q id ds))
session_sorts_datagrams q t conn accept ss rh sh s0 s choice ds id r m l known alive o room =
    let v0 = create_session-IsValid conn accept ss rh sh s0 m in
    let (config, log, _, same) = create_session-Made conn accept ss rh sh s0 m in
    let a0 = subst Addressed same (new_session-Addressed config accept log rh sh) in
    let v = Lives-IsValid l v0 in
    let a = Addressed-Alone s id r v (Lives-Addressed l v0 a0) known in
    datagrams_by_flow q t id r choice ds s v a alive o room
