-- ===== src/Session/Loops/Return.antt =====
-- How the goroutines of session.go come to their end.
use roq.Common.{
  ℕ, zero, suc, ◌-◌, ◌<◌, ◌≡◌, ◌≢◌, ◌⊎◌, inl, inr, refl, ap, ◌∙◌, Bool, true, false, none, some,
  List, [], ◌∷◌, length, arith,
}
use roq.Quicvarint.{Quicvarint, IsQuicvarint}
use roq.Session.{Session}
use roq.Session.Shutdown.{Transport}
use roq.Session.Flows.{IsValid}
use roq.Session.Loops.{
  DatagramLoop, waiting, handling, pushing, stopped, StreamTask, fresh, named, found, reading,
  returning, ended, datagram_step, Running, start, Work, receive_fails, handle, accept_fails,
  stream, done, Works, over, then_work, Moves,
}
use roq.Session.Loops.Valid.{
  Moves-IsValid, Work-IsValid, handling-Steps, pushing-Steps, stream_step-Steps,
}
use roq.Session.Loops.Count.{
  loop_goroutines, goroutines, Counted, Work-Counted, Moves-Counted, start-Counted,
}
use roq.Session.Loops.Shutting.{Work-ctx_done, Work-waiters, Moves-Closing, start-Closing}
use roq.Session.Loops.Finite.{
  size, HandedOver, loop_size, handle_less, stream_less, done_less, Work-size,
}

ended_or_not : (x : StreamTask) → (x ≡ ended) ⊎ (x ≢ ended)
ended_or_not ended = inl refl
ended_or_not (fresh rs) = inr (λ p. cc)
ended_or_not (named id rs) = inr (λ p. cc)
ended_or_not (found r rs) = inr (λ p. cc)
ended_or_not (reading r rs) = inr (λ p. cc)
ended_or_not (returning r id) = inr (λ p. cc)

-- All goroutines have ended, or one takes a step, after which there is less to do.
abbrev GoesOn : Quicvarint → Transport → Running → Type 0
GoesOn q t p = (goroutines p ≡ 0) ⊎ ((p' : Running) × Work q t p p' × (size p' < size p))

module _ (q : Quicvarint) (qv : IsQuicvarint q) (t : Transport) where
  handle-GoesOn :
      (p : Running) (s : Session) (l l' : DatagramLoop)
      → p.datagrams ≡ l
      → datagram_step q t 0 p.session l ≡ some (s, l')
      → GoesOn q t p
  handle-GoesOn p s l l' el step =
      let e = ap (datagram_step q t 0 p.session) el ∙ step in
      inr (_, handle 0 s l' e, handle_less q t 0 p s l' e)

  loops_go_on :
      (p : Running) (l : DatagramLoop) (b : Bool)
      → IsValid p.session
      → p.session.ctx_done ≡ true
      → p.tasks ≡ []
      → p.datagrams ≡ l
      → p.accepting ≡ b
      → GoesOn q t p
  loops_go_on p waiting b v c ts el eb =
      inr (_, receive_fails (inl c) el, omega (arith, ap loop_size el))
  loops_go_on p (handling d) b v c ts el eb =
      let (s, l', e, _) = handling-Steps q t 0 p.session d v in
      handle-GoesOn p s (handling d) l' el e
  loops_go_on p (pushing r packet) b v c ts el eb =
      let (s, l', e, _) = pushing-Steps q t 0 p.session r packet v in
      handle-GoesOn p s (pushing r packet) l' el e
  loops_go_on p stopped true v c ts el eb = inr (_, accept_fails (inl c) eb, rw eb (omega arith))
  loops_go_on p stopped false v c ts el eb =
      inl (rw eb (omega (arith, ap loop_goroutines el, ap length ts)))

  tasks_go_on :
      (p : Running) (xs : List StreamTask)
      → IsValid p.session
      → p.session.ctx_done ≡ true
      → p.tasks ≡ xs
      → GoesOn q t p
  tasks_go_on p [] v c e = loops_go_on p p.datagrams p.accepting v c e refl refl
  tasks_go_on p (x ∷ xs) v c e = elim (ended_or_not x) [
    | inl at_end ↦
        let e' = e ∙ ap (λ y. y ∷ xs) at_end in
        inr (_, done [] xs e', done_less p [] xs (p.wg - 1) e')
    | inr running ↦
        let (s, next, step, _) = stream_step-Steps q 0 p.session x running v in
        inr (_, stream [] xs x next 0 s e step, stream_less q qv 0 p [] xs x next s e step)
  ]

  -- What holds all along the way to the end.
  record Ending (p : Running) : Type 0 where
    valid : IsValid p.session
    ctx_done : p.session.ctx_done ≡ true
    counted : Counted p

  Work-Ending : (p p' : Running) → Work q t p p' → Ending p → Ending p'
  Work-Ending p p' w h = record {
    valid = Work-IsValid q t p p' w h.valid;
    ctx_done = Work-ctx_done q t p p' w h.ctx_done;
    counted = Work-Counted q t p p' w h.counted;
  }

  Works-Ending : (p p' : Running) → Works q t p p' → Ending p → Ending p'
  Works-Ending p p' over h = h
  Works-Ending p p' (then_work {p' = p1} ws w) h = Work-Ending p1 p' w (Works-Ending p p1 ws h)

  Works-waiters : (p p' : Running) → Works q t p p' → p'.waiters ≡ p.waiters
  Works-waiters p p' over = refl
  Works-waiters p p' (then_work {p' = p1} ws w) = Work-waiters q t p1 p' w ∙ Works-waiters p p1 ws

  all_end :
      (n : ℕ) (p p1 : Running)
      → size p1 < n
      → Works q t p p1
      → Ending p1
      → (p' : Running) × Works q t p p' × (goroutines p' ≡ 0)
  all_end zero p p1 less ws h = absurd (omega (arith, less))
  all_end (suc n) p p1 less ws h = elim (tasks_go_on p1 p1.tasks h.valid h.ctx_done refl) [
    | inl none_run ↦ (p1, ws, none_run)
    | inr (p2, w, smaller) ↦
        all_end n p p2 (omega (arith, less, smaller)) (then_work ws w) (Work-Ending p1 p2 w h)
  ]

-- A caller of `Close` waits, in a state that a new, open and valid session came to. Each stream that was
-- accepted ends. Then the session's goroutines can go on to their end, where none runs and the wait group
-- is zero, for which the callers wait. Nothing that they do first can prevent it: wherever they get to by
-- any steps of theirs, all have ended and the wait group is zero, or one can take a step, though the
-- connection does not fail by itself and hands nothing over; and each step leaves less to do, unless the
-- connection hands over a datagram or a stream in it, so that they end once it no longer does.
pub close_returns :
    (q : Quicvarint) (qv : IsQuicvarint q) (t : Transport) (s : Session) (p : Running)
    → IsValid s
    → s.closed_err ≡ none
    → s.producer_closes ≡ 0
    → s.close_qlog_once ≡ false
    → Moves q t (start s) p
    → 0 < p.waiters
    → ((p' : Running) × Works q t p p'
        × (goroutines p' ≡ 0)
        × (p'.wg ≡ 0)
        × (p'.waiters ≡ p.waiters))
      × ((p' : Running)
          → Works q t p p'
          → ((goroutines p' ≡ 0) × (p'.wg ≡ 0))
            ⊎ ((p'' : Running) × Work q t p' p'' × (size p'' < size p')))
      × ((p' p'' : Running) → Work q t p' p'' → (size p'' < size p') ⊎ HandedOver p' p'')
close_returns q qv t s p v alive none_closed not_once moves waits =
    let h : Ending q qv t p = record {
      valid = Moves-IsValid q t (start s) p moves (unfold start in v);
      ctx_done = (Moves-Closing q t (start s) p moves (start-Closing s alive)).closed waits;
      counted = Moves-Counted q t (start s) p moves (start-Counted s none_closed not_once);
    } in
    let (p1, ws, none_run) = all_end q qv t (suc (size p)) p p (omega arith) over h in
    let h1 = Works-Ending q qv t p p1 ws h in
    (
      (p1, ws, none_run, h1.counted.counted ∙ none_run, Works-waiters q qv t p p1 ws),
      λ p' ws'.
          (let h' = Works-Ending q qv t p p' ws' h in
            elim (tasks_go_on q qv t p' p'.tasks h'.valid h'.ctx_done refl) [
              | inl no_more ↦ inl (no_more, h'.counted.counted ∙ no_more)
              | inr (p'', w, less) ↦ inr (p'', w, less)
            ]),
      λ p' p'' w. Work-size q qv t p' p'' w,
    )
