-- ===== src/Session/Loops/Quiet.antt =====
-- What the operations of session.go leave alone of the qlog producer and of the recorded events.
use Prim.Native.String.{String}
use roq.Common.{
  ◌⊎◌, ℕ, ◌≡◌, inl, inr, refl, ◌∙◌, Bool, true, false, Option, none, some, drop, Option-cases,
}
use roq.Common.Heap.{alloc}
use mathlib.Core.Path.{subst}
use roq.Errors.{SessionError, err_roq_packet_error}
use roq.Session.Flows.{receive_flow_known, receive_flow_unknown}
use roq.Session.Datagrams.{logged}
use roq.Session.Streams.{opened}
use roq.Quicvarint.{Bytes, Quicvarint}
use roq.ReceiveFlow.Frames.{ReceiveStream, Round, return, pushed, read_frame}
use roq.ReceiveFlowBuffer.{Created, get_or_create, pop}
use roq.SendFlow.{new_flow}
use roq.SyncMap.{SyncMap, get, get_or_insert}
use roq.Session.{
  Session, FlowResult, or_refuse, unless_known, inserted_or_refused, new_send_flow_open,
  new_send_flow, adopt, new_receive_flow_open, new_receive_flow_of,
}
use roq.Session.Shutdown.{Transport, close_send_flow, close_receive_flow, shut_down, close}
use roq.Session.Incoming.{buffered, receive_flow, push_packet}
use roq.Session.Closing.{after_send_flows, loops_keep, close_alive, close_closed}
use roq.Session.Loops.{
  DatagramLoop, waiting, handling, pushing, stopped, StreamTask, fresh, named, found, reading,
  returning, ended, then_push, parse_step, datagram_step, name_step, then_read, round_step,
  stream_step,
}

-- A session with an error has ended its context.
abbrev pub Shut : Session → Type 0
Shut s = (s.closed_err ≡ none) ⊎ (s.ctx_done ≡ true)

-- The producer was not closed, and no context was brought back.
pub record SameProducer (s s' : Session) : Type 0 where
  pub shut : Shut s → Shut s'
  pub ended : s.ctx_done ≡ true → s'.ctx_done ≡ true
  pub closes : s'.producer_closes ≡ s.producer_closes
  pub once : s'.close_qlog_once ≡ s.close_qlog_once

-- Nor was an event recorded.
pub record Quiet (s s' : Session) : Type 0 where
  pub same : SameProducer s s'
  pub events : s'.events ≡ s.events

Quiet-refl : (s : Session) → Quiet s s
Quiet-refl s = record {
  same = record { shut = λ h. h; ended = λ h. h; closes = refl; once = refl };
  events = refl;
}

pub close-Quiet :
    (t : Transport) (s : Session) (code : ℕ) (reason : String) → Quiet s (close t s code reason)
unfolding shut_down after_send_flows close_send_flow close_receive_flow
close-Quiet t s code reason = elim (Option-cases s.closed_err) [
  | inr (e, done) ↦ rw (close_closed t s code reason e done) (Quiet-refl s)
  | inl alive ↦
      let e : SessionError = record { code = code; reason = reason } in
      rw (close_alive t s code reason alive) (record {
        same = record {
          shut = λ h. inr refl;
          ended = λ h. refl;
          closes = loops_keep (λ st. st.producer_closes) t s e (λ st r. refl) (λ st r. refl);
          once = loops_keep (λ st. st.close_qlog_once) t s e (λ st r. refl) (λ st r. refl);
        };
        events = loops_keep (λ st. st.events) t s e (λ st r. refl) (λ st r. refl);
      })
]

or_refuse-Quiet :
    (s : Session) (o : Option SessionError) (x : Session × FlowResult)
    → Quiet s x.0
    → Quiet s (or_refuse s o x).0
or_refuse-Quiet s none x h = h
or_refuse-Quiet s (some e) x h = Quiet-refl s

unless_known-Quiet :
    (s : Session) (o : Option ℕ) (x : Session × FlowResult)
    → Quiet s x.0
    → Quiet s (unless_known s o x).0
unless_known-Quiet s none x h = h
unless_known-Quiet s (some r) x h = Quiet-refl s

adopt-Quiet : (s : Session) (id : ℕ) (o : Option ℕ) → Quiet s (adopt s id o).0
unfolding adopt
adopt-Quiet s id none = record {
  same = record { shut = λ h. h; ended = λ h. h; closes = refl; once = refl };
  events = refl;
}
adopt-Quiet s id (some r) = record {
  same = record { shut = λ h. h; ended = λ h. h; closes = refl; once = refl };
  events = refl;
}

pub new_receive_flow_of-Quiet : (s : Session) (id : ℕ) → Quiet s (new_receive_flow_of s id).0
unfolding new_receive_flow_of new_receive_flow_open
new_receive_flow_of-Quiet s id =
    let (b, popped) = pop s.flow_buffer id in
    let a = adopt-Quiet (record s { flow_buffer = b }) id popped in
    or_refuse-Quiet s s.closed_err (new_receive_flow_open s id) (
      unless_known-Quiet s (get s.receive_flows id) (adopt (record s { flow_buffer = b }) id popped)
        (record {
          same = record {
            shut = a.same.shut;
            ended = a.same.ended;
            closes = a.same.closes;
            once = a.same.once;
          };
          events = a.events;
        }))

inserted_or_refused-Quiet :
    (s : Session) (address : ℕ) (m : SyncMap ℕ) (held : ℕ) (inserted : Bool)
    → Quiet s (inserted_or_refused s address (m, held, inserted)).0
inserted_or_refused-Quiet s address m held true = record {
  same = record { shut = λ h. h; ended = λ h. h; closes = refl; once = refl };
  events = refl;
}
inserted_or_refused-Quiet s address m held false = Quiet-refl s

pub new_send_flow-Quiet : (q : Quicvarint) (s : Session) (id : ℕ) → Quiet s (new_send_flow q s id).0
unfolding new_send_flow new_send_flow_open
new_send_flow-Quiet q s id =
    let s1 = record s { send_heap = alloc (new_flow q id s.qlog) s.send_heap } in
    let g = get_or_insert s.send_flows id s.send_heap.next in
    let h = inserted_or_refused-Quiet s1 s.send_heap.next g.0 g.1 g.2 in
    or_refuse-Quiet s s.closed_err (new_send_flow_open q s id) (record {
      same = record {
        shut = h.same.shut;
        ended = h.same.ended;
        closes = h.same.closes;
        once = h.same.once;
      };
      events = h.events;
    })

-- What a result holds, where it is no panic.
abbrev pub Leaves : {A : Type 0} → (Session → Type 0) → Option (Session × A) → Type 0
Leaves P none = Unit
Leaves P (some (s, x)) = P s

buffered-Leaves : (s : Session) (o : Option Created) → Leaves (Quiet s) (buffered s o)
unfolding buffered
buffered-Leaves s none = tt
buffered-Leaves s (some c) = record {
  same = record { shut = λ h. h; ended = λ h. h; closes = refl; once = refl };
  events = refl;
}

pub receive_flow-Leaves : (s : Session) (id : ℕ) → Leaves (Quiet s) (receive_flow s id)
receive_flow-Leaves s id = elim (Option-cases (get s.receive_flows id)) [
  | inr (r, known) ↦ rw (receive_flow_known s id r known) (Quiet-refl s)
  | inl unknown ↦ rw (receive_flow_unknown s id unknown) (
      buffered-Leaves s
        (get_or_create s.flow_buffer s.receive_heap id s.receive_buffer_size s.qlog))
]

logged-Leaves :
    {A : Type 0}
    → (s s1 : Session) (o : Option (Session × A)) → SameProducer s s1
    → Leaves (Quiet s1) o
    → Leaves (SameProducer s) o
logged-Leaves s s1 none h k = tt
logged-Leaves s s1 (some (s2, x)) h k = record {
  shut = λ x. k.same.shut (h.shut x);
  ended = λ x. k.same.ended (h.ended x);
  closes = k.same.closes ∙ h.closes;
  once = k.same.once ∙ h.once;
}

then_push-Leaves :
    (s : Session) (packet : Bytes) (o : Option (Session × ℕ))
    → Leaves (SameProducer s) o
    → Leaves (SameProducer s) (then_push packet o)
then_push-Leaves s packet none h = tt
then_push-Leaves s packet (some (s', r)) h = h

parse_step-Leaves :
    (q : Quicvarint) (t : Transport) (s : Session) (d : Bytes) (o : Option (ℕ × ℕ))
    → Leaves (SameProducer s) (parse_step q t s d o)
parse_step-Leaves q t s d none = (close-Quiet t s err_roq_packet_error "invalid flow ID").same
parse_step-Leaves q t s d (some (id, n)) =
    let s1 = logged s d id n in
    then_push-Leaves s (drop (q.len id) d) (receive_flow s1 id) (
      logged-Leaves s s1 (receive_flow s1 id)
        (record { shut = λ h. h; ended = λ h. h; closes = refl; once = refl })
        (receive_flow-Leaves s1 id))

datagram_step-Leaves :
    (q : Quicvarint) (t : Transport) (choice : ℕ) (s : Session) (l : DatagramLoop)
    → Leaves (SameProducer s) (datagram_step q t choice s l)
unfolding datagram_step push_packet
datagram_step-Leaves q t choice s waiting = tt
datagram_step-Leaves q t choice s stopped = tt
datagram_step-Leaves q t choice s (handling d) = parse_step-Leaves q t s d (q.parse d)
datagram_step-Leaves q t choice s (pushing r packet) = record {
  shut = λ h. h;
  ended = λ h. h;
  closes = refl;
  once = refl;
}

name_step-Same :
    (s : Session) (rs : ReceiveStream) (o : Option (ℕ × Bytes))
    → SameProducer s (name_step s rs o).0
name_step-Same s rs none = record { shut = λ h. h; ended = λ h. h; closes = refl; once = refl }
name_step-Same s rs (some (id, rest)) = record {
  shut = λ h. h;
  ended = λ h. h;
  closes = refl;
  once = refl;
}

then_read-Leaves :
    (s : Session) (rs : ReceiveStream) (o : Option (Session × ℕ))
    → Leaves (SameProducer s) o
    → Leaves (SameProducer s) (then_read rs o)
then_read-Leaves s rs none h = tt
then_read-Leaves s rs (some (s', r)) h = h

round_step-Same :
    (s : Session) (r : ℕ) (rs : ReceiveStream) (x : Round) → SameProducer s (round_step s r rs x).0
round_step-Same s r rs (return f level) = record {
  shut = λ h. h;
  ended = λ h. h;
  closes = refl;
  once = refl;
}
round_step-Same s r rs (pushed f rest events) = record {
  shut = λ h. h;
  ended = λ h. h;
  closes = refl;
  once = refl;
}

stream_step-Leaves :
    (q : Quicvarint) (choice : ℕ) (s : Session) (x : StreamTask)
    → Leaves (SameProducer s) (stream_step q choice s x)
unfolding stream_step
stream_step-Leaves q choice s (fresh rs) = name_step-Same s rs (q.read rs.content)
stream_step-Leaves q choice s (named id rs) =
    let s1 = opened s id rs.id in
    then_read-Leaves s rs (receive_flow s1 id) (
      logged-Leaves s s1 (receive_flow s1 id)
        (record { shut = λ h. h; ended = λ h. h; closes = refl; once = refl })
        (receive_flow-Leaves s1 id))
stream_step-Leaves q choice s (found r rs) = record {
  shut = λ h. h;
  ended = λ h. h;
  closes = refl;
  once = refl;
}
stream_step-Leaves q choice s (reading r rs) =
    round_step-Same s r rs (read_frame q choice (s.receive_heap.obj r) rs.id rs.content rs.ending)
stream_step-Leaves q choice s (returning r id) = record {
  shut = λ h. h;
  ended = λ h. h;
  closes = refl;
  once = refl;
}
stream_step-Leaves q choice s ended = tt

pub datagram_step-Same :
    (q : Quicvarint) (t : Transport) (choice : ℕ) (s s' : Session) (l l' : DatagramLoop)
    → datagram_step q t choice s l ≡ some (s', l')
    → SameProducer s s'
datagram_step-Same q t choice s s' l l' e =
    subst (Leaves (SameProducer s)) e (datagram_step-Leaves q t choice s l)

pub stream_step-Same :
    (q : Quicvarint) (choice : ℕ) (s s' : Session) (x x' : StreamTask)
    → stream_step q choice s x ≡ some (s', x')
    → SameProducer s s'
stream_step-Same q choice s s' x x' e =
    subst (Leaves (SameProducer s)) e (stream_step-Leaves q choice s x)
