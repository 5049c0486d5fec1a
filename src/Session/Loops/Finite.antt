-- ===== src/Session/Loops/Finite.antt =====
-- How much the goroutines of session.go have still to do.
use roq.Common.{
  ℕ, ◌+◌, ◌-◌, ◌<◌, ◌≤◌, ◌≡◌, ◌⊎◌, inl, inr, refl, sym, ap, ◌∙◌, Bool, true, false, Option, none,
  some, List, [], ◌∷◌, ◌++◌, length, drop, length-drop, arith, if◌then◌else◌, Option-cases,
}
use mathlib.Core.Path.{subst}
use mathlib.Core.Option.{some-injective, none-ne-some}
use roq.Qlog.{Event}
use roq.Quicvarint.{Bytes, Quicvarint, IsQuicvarint}
use roq.ReceiveFlow.{ReceiveFlow, Cancel, register}
use roq.ReceiveFlow.Frames.{ReceiveStream, Round, return, pushed, read_frame}
use roq.ReceiveFlow.Frames.Total.{read_frame_shrinks}
use roq.Session.{Session}
use roq.Session.Shutdown.{Transport}
use roq.Session.Incoming.{receive_flow, push_packet}
use roq.Session.Streams.{opened}
use roq.Session.Loops.{
  DatagramLoop, waiting, handling, pushing, stopped, StreamTask, fresh, named, found, reading,
  returning, ended, then_push, parse_step, datagram_step, name_step, then_read, register_step,
  round_step, stream_step, Running, Work, receive, receive_fails, handle, accept, accept_fails,
  stream, done,
}

abbrev task_size : StreamTask → ℕ
task_size (fresh rs) = 6 + length rs.content
task_size (named id rs) = 5 + length rs.content
task_size (found r rs) = 4 + length rs.content
task_size (reading r rs) = 3 + length rs.content
task_size (returning r id) = 2
task_size ended = 1

abbrev tasks_size : List StreamTask → ℕ
tasks_size [] = 0
tasks_size (x ∷ xs) = task_size x + tasks_size xs

abbrev pub loop_size : DatagramLoop → ℕ
loop_size (handling d) = 3
loop_size (pushing r packet) = 2
loop_size waiting = 1
loop_size stopped = 0

-- A bound for the steps that are left, of which no more are taken than bytes have to be read.
abbrev pub size : Running → ℕ
size p = loop_size p.datagrams + ((if p.accepting then 1 else 0) + tasks_size p.tasks)

-- The connection handed over a datagram or a stream.
pub data HandedOver (p : Running) : Running → Type 0 where
  a_datagram : (d : Bytes) → HandedOver p (record p { datagrams = handling d })
  a_stream :
      (rs : ReceiveStream)
      → HandedOver p (record p { wg = p.wg + 1; tasks = p.tasks ++ (fresh rs ∷ []) })

abbrev Below : {A : Type 0} → (A → ℕ) → ℕ → Option (Session × A) → Type 0
Below f n none = Unit
Below f n (some (s, x)) = f x < n

read-length :
    (q : Quicvarint) (qv : IsQuicvarint q) (bs rest : Bytes) (v : ℕ)
    → q.read bs ≡ some (v, rest)
    → length rest ≤ length bs
read-length q qv bs rest v e = elim (Option-cases (q.parse bs)) [
  | inl bad ↦ absurd (none-ne-some _ (sym (qv.read_fails bs bad) ∙ e))
  | inr ((w, n), parsed) ↦
      let same : drop n bs ≡ rest =
        ap (λ x. x.1)
          (some-injective (w, drop n bs) (v, rest) (sym (qv.read-parse bs w n parsed) ∙ e)) in
      subst (λ l. length l ≤ length bs) same (omega (arith, length-drop n bs))
]

name_step-Below :
    (q : Quicvarint) (qv : IsQuicvarint q) (s : Session) (rs : ReceiveStream)
    (o : Option (ℕ × Bytes))
    → q.read rs.content ≡ o
    → Below task_size (6 + length rs.content) (some (name_step s rs o))
name_step-Below q qv s rs none e = omega arith
name_step-Below q qv s rs (some (id, rest)) e = omega (arith, read-length q qv rs.content rest id e)

then_read-Below :
    (rs : ReceiveStream) (o : Option (Session × ℕ))
    → Below task_size (5 + length rs.content) (then_read rs o)
then_read-Below rs none = tt
then_read-Below rs (some (s, r)) = omega arith

register_step-Below :
    (s : Session) (r : ℕ) (rs : ReceiveStream) (over : Bool) (x : ReceiveFlow × List Cancel)
    → Below task_size (4 + length rs.content) (some (register_step s r rs over x))
register_step-Below s r rs true x = omega arith
register_step-Below s r rs false x = omega arith

round_step-Below :
    (s : Session) (r : ℕ) (rs : ReceiveStream) (x : Round)
    → ((f : ReceiveFlow) (left : Bytes) (events : List Event)
        → x ≡ pushed f left events
        → length left < length rs.content)
    → Below task_size (3 + length rs.content) (some (round_step s r rs x))
round_step-Below s r rs (return f level) less = omega arith
round_step-Below s r rs (pushed f left events) less = omega (arith, less f left events refl)

stream_step-Below :
    (q : Quicvarint) (qv : IsQuicvarint q) (choice : ℕ) (s : Session) (x : StreamTask)
    → Below task_size (task_size x) (stream_step q choice s x)
unfolding stream_step
stream_step-Below q qv choice s (fresh rs) = name_step-Below q qv s rs (q.read rs.content) refl
stream_step-Below q qv choice s (named id rs) =
    then_read-Below rs (receive_flow (opened s id rs.id) id)
stream_step-Below q qv choice s (found r rs) =
    let f = s.receive_heap.obj r in register_step-Below s r rs f.ctx_done (register f rs.id)
stream_step-Below q qv choice s (reading r rs) =
    let f = s.receive_heap.obj r in
    round_step-Below s r rs (read_frame q choice f rs.id rs.content rs.ending)
      (read_frame_shrinks q choice f rs.id rs.content rs.ending)
stream_step-Below q qv choice s (returning r id) = omega arith
stream_step-Below q qv choice s ended = tt

then_push-Below :
    (packet : Bytes) (o : Option (Session × ℕ)) → Below loop_size 3 (then_push packet o)
then_push-Below packet none = tt
then_push-Below packet (some (s, r)) = omega arith

parse_step-Below :
    (q : Quicvarint) (t : Transport) (s : Session) (d : Bytes) (o : Option (ℕ × ℕ))
    → Below loop_size 3 (parse_step q t s d o)
parse_step-Below q t s d none = omega arith
parse_step-Below q t s d (some (id, n)) = then_push-Below (drop (q.len id) d) _

datagram_step-Below :
    (q : Quicvarint) (t : Transport) (choice : ℕ) (s : Session) (l : DatagramLoop)
    → Below loop_size (loop_size l) (datagram_step q t choice s l)
unfolding datagram_step push_packet
datagram_step-Below q t choice s waiting = tt
datagram_step-Below q t choice s stopped = tt
datagram_step-Below q t choice s (handling d) = parse_step-Below q t s d (q.parse d)
datagram_step-Below q t choice s (pushing r packet) = omega arith

tasks_size-middle :
    (before after : List StreamTask) (x : StreamTask)
    → tasks_size (before ++ (x ∷ after)) ≡ task_size x + tasks_size (before ++ after)
tasks_size-middle [] after x = refl
tasks_size-middle (y ∷ before) after x = omega (arith, tasks_size-middle before after x)

pub handle_less :
    (q : Quicvarint) (t : Transport) (choice : ℕ) (p : Running) (s : Session) (l : DatagramLoop)
    → datagram_step q t choice p.session p.datagrams ≡ some (s, l)
    → size (record p { session = s; datagrams = l }) < size p
handle_less q t choice p s l e =
    let less : loop_size l < loop_size p.datagrams =
      subst (Below loop_size (loop_size p.datagrams)) e
        (datagram_step-Below q t choice p.session p.datagrams) in
    omega (arith, less)

pub stream_less :
    (q : Quicvarint) (qv : IsQuicvarint q) (choice : ℕ) (p : Running)
    (before after : List StreamTask) (task next : StreamTask) (s : Session)
    → p.tasks ≡ before ++ (task ∷ after)
    → stream_step q choice p.session task ≡ some (s, next)
    → size (record p { session = s; tasks = before ++ (next ∷ after) }) < size p
stream_less q qv choice p before after task next s e step =
    let less : task_size next < task_size task =
      subst (Below task_size (task_size task)) step
        (stream_step-Below q qv choice p.session task) in
    omega (
      arith,
      less,
      ap tasks_size e,
      tasks_size-middle before after task,
      tasks_size-middle before after next,
    )

pub done_less :
    (p : Running) (before after : List StreamTask) (wg : ℕ)
    → p.tasks ≡ before ++ (ended ∷ after)
    → size (record p { tasks = before ++ after; wg = wg }) < size p
done_less p before after wg e = omega (arith, ap tasks_size e, tasks_size-middle before after ended)

-- Each step leaves less to do, unless the connection hands something over.
pub Work-size :
    (q : Quicvarint) (qv : IsQuicvarint q) (t : Transport) (p p' : Running)
    → Work q t p p'
    → (size p' < size p) ⊎ HandedOver p p'
Work-size q qv t p p' (receive d e) = inr (a_datagram d)
Work-size q qv t p p' (accept rs e) = inr (a_stream rs)
Work-size q qv t p p' (receive_fails c e) = inl (omega (arith, ap loop_size e))
Work-size q qv t p p' (handle choice s l e) = inl (handle_less q t choice p s l e)
Work-size q qv t p p' (accept_fails c e) = inl (rw e (omega arith))
Work-size q qv t p p' (stream before after task next choice s e step) =
    inl (stream_less q qv choice p before after task next s e step)
Work-size q qv t p p' (done before after e) = inl (done_less p before after (p.wg - 1) e)
