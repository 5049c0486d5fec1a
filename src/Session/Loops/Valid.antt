-- ===== src/Session/Loops/Valid.antt =====
-- The validity of the session of session.go while its goroutines run.
use mathlib.Core.Path.{subst}
use mathlib.Core.Option.{some-injective, none-ne-some}
use roq.Common.{ℕ, ◌≡◌, ◌≢◌, refl, sym, ap, ◌∙◌, Option, none, some, drop}
use roq.Errors.{err_roq_no_error, err_roq_packet_error}
use roq.Quicvarint.{Bytes, Quicvarint}
use roq.ReceiveFlow.Frames.{ReceiveStream, Round, return, pushed, read_frame}
use roq.Session.{Session}
use roq.Session.Shutdown.{Transport, close_send_flow, close_receive_flow}
use roq.Session.Incoming.{receive_flow, push_packet}
use roq.Session.Flows.{IsValid, same_IsValid, receive_flow-IsValid}
use roq.Session.Datagrams.{logged, handle_datagram-IsValid}
use roq.Session.Streams.{opened}
use roq.Session.Closing.{close-IsValid}
use roq.Session.Life.{ask_receive_flow-IsValid, ask_send_flow-IsValid, close_producer-IsValid}
use roq.Session.Loops.{
  DatagramLoop, waiting, handling, pushing, stopped, StreamTask, fresh, named, found, reading,
  returning, ended, then_push, parse_step, datagram_step, name_step, then_read, round_step,
  stream_step, Running, Work, Move, work, receive, receive_fails, handle, accept, accept_fails,
  stream, done, call_close, wait_returns, finish, ask_receive_flow, ask_send_flow, end_send_flow,
  end_receive_flow, use_flow, conn_fails, open_stream, write, call_handle_datagram, Moves, here,
  then_move,
}

-- A step that is no panic, to a valid session.
abbrev pub Steps : {A : Type 0} → Option (Session × A) → Type 0
Steps {A} o = (s : Session) × (x : A) × (o ≡ some (s, x)) × IsValid s

then_push-Steps :
    (packet : Bytes) (o : Option (Session × ℕ)) (s : Session) (r : ℕ)
    → o ≡ some (s, r)
    → IsValid s
    → Steps (then_push packet o)
then_push-Steps packet o s r e v = (s, pushing r packet, ap (then_push packet) e, v)

parse_step-Steps :
    (q : Quicvarint) (t : Transport) (s : Session) (d : Bytes) (o : Option (ℕ × ℕ))
    → IsValid s
    → Steps (parse_step q t s d o)
parse_step-Steps q t s d none v =
    (_, waiting, refl, close-IsValid t s err_roq_packet_error "invalid flow ID" v)
parse_step-Steps q t s d (some (id, n)) v =
    let s1 = logged s d id n in
    let (s2, r, e, w, _, _) = receive_flow-IsValid s1 id (same_IsValid s s1 refl refl v) in
    then_push-Steps (drop (q.len id) d) (receive_flow s1 id) s2 r e w

-- `HandleDatagram` goes on to its end.
pub handling-Steps :
    (q : Quicvarint) (t : Transport) (choice : ℕ) (s : Session) (d : Bytes)
    → IsValid s
    → Steps (datagram_step q t choice s (handling d))
unfolding datagram_step
handling-Steps q t choice s d v = parse_step-Steps q t s d (q.parse d) v

pub pushing-Steps :
    (q : Quicvarint) (t : Transport) (choice : ℕ) (s : Session) (r : ℕ) (packet : Bytes)
    → IsValid s
    → Steps (datagram_step q t choice s (pushing r packet))
unfolding datagram_step push_packet
pushing-Steps q t choice s r packet v = (_, waiting, refl, same_IsValid s _ refl refl v)

name_step-IsValid :
    (s : Session) (rs : ReceiveStream) (o : Option (ℕ × Bytes))
    → IsValid s
    → IsValid (name_step s rs o).0
name_step-IsValid s rs none v = same_IsValid s _ refl refl v
name_step-IsValid s rs (some (id, rest)) v = v

pub named-Steps :
    (q : Quicvarint) (choice : ℕ) (s : Session) (id : ℕ) (rs : ReceiveStream)
    → IsValid s
    → (s' : Session) × (r : ℕ) × (stream_step q choice s (named id rs) ≡ some (s', found r rs))
      × IsValid s'
unfolding stream_step
named-Steps q choice s id rs v =
    let s1 = opened s id rs.id in
    let (s2, r, e, w, _, _) = receive_flow-IsValid s1 id (same_IsValid s s1 refl refl v) in
    (s2, r, ap (then_read rs) e, w)

round_step-IsValid :
    (s : Session) (r : ℕ) (rs : ReceiveStream) (x : Round)
    → IsValid s
    → IsValid (round_step s r rs x).0
round_step-IsValid s r rs (return f level) v = same_IsValid s _ refl refl v
round_step-IsValid s r rs (pushed f rest events) v = same_IsValid s _ refl refl v

-- The goroutine of a stream goes on to its end.
pub stream_step-Steps :
    (q : Quicvarint) (choice : ℕ) (s : Session) (x : StreamTask)
    → x ≢ ended
    → IsValid s
    → Steps (stream_step q choice s x)
unfolding stream_step
stream_step-Steps q choice s (fresh rs) h v =
    (_, _, refl, name_step-IsValid s rs (q.read rs.content) v)
stream_step-Steps q choice s (named id rs) h v =
    let (s2, r, e, w) = named-Steps q choice s id rs v in (s2, found r rs, e, w)
stream_step-Steps q choice s (found r rs) h v = (_, _, refl, same_IsValid s _ refl refl v)
stream_step-Steps q choice s (reading r rs) h v =
    let round = read_frame q choice (s.receive_heap.obj r) rs.id rs.content rs.ending in
    (_, _, refl, round_step-IsValid s r rs round v)
stream_step-Steps q choice s (returning r id) h v = (_, _, refl, same_IsValid s _ refl refl v)
stream_step-Steps q choice s ended h v = absurd (h refl)

result-IsValid :
    {A : Type 0}
    → (o : Option (Session × A)) (s : Session) (x : A) → o ≡ some (s, x)
    → Steps o
    → IsValid s
result-IsValid {A} o s x e (s', x', e', v) =
    subst IsValid (ap (λ (y : Session × A). y.0) (some-injective (s', x') (s, x) (sym e' ∙ e))) v

datagram_step-IsValid :
    (q : Quicvarint) (t : Transport) (choice : ℕ) (s s' : Session) (l l' : DatagramLoop)
    → datagram_step q t choice s l ≡ some (s', l')
    → IsValid s
    → IsValid s'
unfolding datagram_step
datagram_step-IsValid q t choice s s' waiting l' e v = absurd (none-ne-some _ e)
datagram_step-IsValid q t choice s s' stopped l' e v = absurd (none-ne-some _ e)
datagram_step-IsValid q t choice s s' (handling d) l' e v =
    result-IsValid (datagram_step q t choice s (handling d)) s' l' e
      (handling-Steps q t choice s d v)
datagram_step-IsValid q t choice s s' (pushing r packet) l' e v =
    result-IsValid (datagram_step q t choice s (pushing r packet)) s' l' e
      (pushing-Steps q t choice s r packet v)

stream_step-IsValid :
    (q : Quicvarint) (choice : ℕ) (s s' : Session) (x x' : StreamTask)
    → stream_step q choice s x ≡ some (s', x')
    → IsValid s
    → IsValid s'
stream_step-IsValid q choice s s' x x' e v =
    result-IsValid (stream_step q choice s x) s' x' e
      (stream_step-Steps q choice s x (λ h. none-ne-some _ (sym (ends h) ∙ e)) v)
  where
    ends : x ≡ ended → stream_step q choice s x ≡ none
    ends h = ap (stream_step q choice s) h ∙ unfold stream_step in refl

pub Work-IsValid :
    (q : Quicvarint) (t : Transport) (p p' : Running)
    → Work q t p p'
    → IsValid p.session
    → IsValid p'.session
Work-IsValid q t p p' (receive d e) v = v
Work-IsValid q t p p' (receive_fails c e) v = v
Work-IsValid q t p p' (handle choice s l e) v =
    datagram_step-IsValid q t choice p.session s p.datagrams l e v
Work-IsValid q t p p' (accept rs e) v = v
Work-IsValid q t p p' (accept_fails c e) v = v
Work-IsValid q t p p' (stream before after task next choice s e step) v =
    stream_step-IsValid q choice p.session s task next step v
Work-IsValid q t p p' (done before after e) v = v

Move-IsValid :
    (q : Quicvarint) (t : Transport) (p p' : Running)
    → Move q t p p'
    → IsValid p.session
    → IsValid p'.session
Move-IsValid q t p p' (work w) v = Work-IsValid q t p p' w v
Move-IsValid q t p p' call_close v = close-IsValid t p.session err_roq_no_error "" v
Move-IsValid q t p p' (wait_returns some_wait none_run) v = v
Move-IsValid q t p p' (finish some_released) v = close_producer-IsValid p.session.qlog p.session v
Move-IsValid q t p p' (ask_receive_flow id) v = ask_receive_flow-IsValid p.session id v
Move-IsValid q t p p' (ask_send_flow id) v = ask_send_flow-IsValid q p.session id v
Move-IsValid q t p p' (end_send_flow r) v =
    same_IsValid p.session _ (unfold close_send_flow in refl) (unfold close_send_flow in refl) v
Move-IsValid q t p p' (end_receive_flow r) v =
    same_IsValid p.session _ (unfold close_receive_flow in refl) (unfold close_receive_flow in refl)
      v
Move-IsValid q t p p' conn_fails v = v
Move-IsValid q t p p' (open_stream r answer priority incremental) v =
    same_IsValid p.session _ refl refl v
Move-IsValid q t p p' (call_handle_datagram choice d s e) v =
    let (s1, same, w) = handle_datagram-IsValid q t choice p.session d v in
    subst IsValid (some-injective _ _ (sym same ∙ e)) w
Move-IsValid q t p p' (write events) v = same_IsValid p.session _ refl refl v
Move-IsValid q t p p' (use_flow r f step) v = same_IsValid p.session _ refl refl v

pub Moves-IsValid :
    (q : Quicvarint) (t : Transport) (p p' : Running)
    → Moves q t p p'
    → IsValid p.session
    → IsValid p'.session
Moves-IsValid q t p p' here v = v
Moves-IsValid q t p p' (then_move {p' = p1} moves m) v =
    Move-IsValid q t p1 p' m (Moves-IsValid q t p p1 moves v)
