-- ===== src/ReceiveFlow/Interleaving/Order.antt =====
-- The queue of a receive flow that several streams feed at once, against a bounded queue.
use mathlib.Core.Path.{subst}
use roq.Common.{
  ℕ, ◌≡◌, inl, inr, refl, sym, ap, ◌∙◌, Bool, List, [], ◌∷◌, ◌++◌, ◌==◌, All, arith, append-nil,
  Bool-cases,
}
use roq.Common.Chan.{close_chan}
use roq.Quicvarint.{Bytes, Quicvarint, IsQuicvarint}
use roq.RtpSendStream.Wire.{frames}
use roq.RtpSendStream.Run.{Fits}
use roq.ReceiveFlow.{ReceiveFlow, register, unregister, expire_deadline, close_buffer, cancel_ctx}
use roq.ReceiveFlow.Queue.{packets, contents, accept, accept-Keeps, get-items, get-Keeps}
use roq.ReceiveFlow.Reader.{waiting, read_step}
use roq.ReceiveFlow.Frames.{Ending, read_frame}
use roq.ReceiveFlow.Invariant.{BufferValid}
use roq.ReceiveFlow.Invariant
use roq.ReceiveFlow.Invariant.Buffers.{Step-BufferValid}
use roq.ReceiveFlow.Interleaving.{
  Traffic, update, takes, Move, round, datagram, lose, open_stream, end_stream, set_deadline,
  expire, read, cancel, shut, Moves, still, then_move, Act, take_if, move_acts, acts, Bounded,
  arrives, next_frame, takes_off, act, run,
}
use roq.ReceiveFlow.Interleaving.Arrivals.{
  accept-arrives, takes_one, takes-packets, round_takes, set_read_deadline-packets, Same,
  set_read_deadline-Same, read-Same,
}

run-append :
    (cap : ℕ) (b : Bounded) (xs ys : List Act) → run cap b (xs ++ ys) ≡ run cap (run cap b xs) ys
unfolding run
run-append cap b [] ys = refl
run-append cap b (x ∷ xs) ys = run-append cap (act cap b x) xs ys

close_buffer_keeps :
    (f : ReceiveFlow)
    → ((close_buffer f).buffer.cap ≡ f.buffer.cap) × (packets (close_buffer f) ≡ packets f)
unfolding close_buffer close_chan
close_buffer_keeps f = (ground arith, ground arith)

module _ (q : Quicvarint) (qv : IsQuicvarint q) (ends : ℕ → Ending) (cap : ℕ) where
  -- The flow and its streams as the bounded queue.
  record Shows (s : Traffic) (b : Bounded) : Type 0 where
    valid : BufferValid s.flow
    fit : (i : ℕ) → All Fits (b.streams i)
    same_cap : s.flow.buffer.cap ≡ cap
    queue : packets s.flow ≡ b.queue
    taken : s.taken ≡ b.taken
    left : (i : ℕ) → s.left i ≡ frames q (b.streams i)
    is_closed : s.flow.closed ≡ b.is_closed

  -- A move that has nothing to do with the queue.
  quiet_move :
      (s : Traffic) (b : Bounded) (g : ReceiveFlow)
      → Shows s b
      → Invariant.Step s.flow g
      → packets g ≡ packets s.flow
      → Same s.flow g
      → Shows (record s { flow = g }) b
  quiet_move s b g h step same (closed, cap_is) = record {
    valid = Step-BufferValid step h.valid;
    fit = h.fit;
    same_cap = cap_is ∙ h.same_cap;
    queue = same ∙ h.queue;
    taken = h.taken;
    left = h.left;
    is_closed = closed ∙ h.is_closed;
  }

  arrives_move :
      (s : Traffic) (b : Bounded) (choice : ℕ) (p : Bytes)
      → Shows s b
      → Shows (record s { flow = accept choice s.flow p }) (arrives cap b p)
  arrives_move s b choice p h =
      let k = accept-Keeps choice s.flow p in
      record {
        valid = Step-BufferValid (Invariant.arrive choice p) h.valid;
        fit = h.fit;
        same_cap = k.same_cap ∙ h.same_cap;
        queue = accept-arrives choice s.flow p h.valid ∙ rw (h.is_closed, h.same_cap, h.queue);
        taken = h.taken;
        left = h.left;
        is_closed = k.same_closed ∙ h.is_closed;
      }

  -- The stream `i` loses its first frame, with nothing pushed yet.
  drop_frame :
      (s : Traffic) (b : Bounded) (i : ℕ) (p : Bytes) (ps : List Bytes)
      → Shows s b
      → b.streams i ≡ p ∷ ps
      → Shows
          (record s { left = update s.left i (frames q ps) })
          (record b { streams = update b.streams i ps })
  drop_frame s b i p ps h e = record {
    valid = h.valid;
    fit = λ j. elim (Bool-cases (i == j)) [
      | inl same ↦ rw same ((subst (All Fits) e (h.fit i)).1)
      | inr other ↦ rw other (h.fit j)
    ];
    same_cap = h.same_cap;
    queue = h.queue;
    taken = h.taken;
    left = λ j. elim (Bool-cases (i == j)) [
      | inl same ↦ rw same refl
      | inr other ↦ rw other (h.left j)
    ];
    is_closed = h.is_closed;
  }

  read_move :
      (s : Traffic) (b : Bounded) (size : ℕ) (prefer : Bool) (ch : ℕ)
      → Shows s b
      → let xs = takes s.flow prefer ch in
        Shows
          (record s { flow = (read_step s.flow size prefer (waiting ch)).0; taken = s.taken ++ xs })
          (run cap b (take_if xs))
  unfolding run
  read_move s b size prefer ch h =
      let g = (read_step s.flow size prefer (waiting ch)).0 in
      let valid = Step-BufferValid (Invariant.read size prefer (waiting ch)) h.valid in
      let (closed, cap_is) = read-Same s.flow size prefer ch in
      let Goal : List Bytes → Type 0 =
        λ xs. Shows (record s { flow = g; taken = s.taken ++ xs }) (run cap b (take_if xs)) in
      elim (takes_one s.flow prefer ch) [
        | inl none_taken ↦ subst Goal (sym none_taken) (record {
          valid = valid;
          fit = h.fit;
          same_cap = cap_is ∙ h.same_cap;
          queue =
              ap (λ xs. xs ++ packets g) (sym none_taken)
              ∙ takes-packets s.flow size prefer ch
              ∙ h.queue;
          taken = append-nil s.taken ∙ h.taken;
          left = h.left;
          is_closed = closed ∙ h.is_closed;
        })
        | inr (p, taken) ↦
            let split : b.queue ≡ p ∷ packets g = sym (
              ap (λ xs. xs ++ packets g) (sym taken)
              ∙ takes-packets s.flow size prefer ch
              ∙ h.queue) in
            subst Goal (sym taken) (
              subst
                (λ qs. Shows (record s { flow = g; taken = s.taken ++ (p ∷ []) }) (takes_off b qs))
                (sym split)
                (record {
                  valid = valid;
                  fit = h.fit;
                  same_cap = cap_is ∙ h.same_cap;
                  queue = refl;
                  taken = ap (λ l. l ++ (p ∷ [])) h.taken;
                  left = h.left;
                  is_closed = closed ∙ h.is_closed;
                }))
      ]

  Move-Shows :
      (s s' : Traffic) (b : Bounded) (m : Move q ends s s')
      → Shows s b
      → Shows s' (run cap b (move_acts m))
  unfolding run
  Move-Shows s s' b (round i choice f left events e) h =
      let (p, ps, next, flow_is, left_is) =
        round_takes q qv (ends i) choice s.flow f i (b.streams i) left events (h.fit i)
          (ap (λ l. read_frame q choice s.flow i l (ends i)) (sym (h.left i)) ∙ e) in
      rw (flow_is, left_is)
        (subst
          (λ qs.
            Shows (record s { flow = accept choice s.flow p; left = update s.left i (frames q ps) })
              (next_frame cap b i qs))
          (sym next)
          (arrives_move (record s { left = update s.left i (frames q ps) })
            (record b { streams = update b.streams i ps }) choice p (drop_frame s b i p ps h next)))
  Move-Shows s s' b (datagram choice p) h = arrives_move s b choice p h
  Move-Shows s s' b (lose choice) h =
      quiet_move s b _ h (Invariant.lose choice)
        (ap (λ x. contents x.items) (get-items choice s.flow))
        (let k = get-Keeps choice s.flow in (k.same_closed, k.same_cap))
  Move-Shows s s' b (open_stream i) h =
      quiet_move s b _ h (Invariant.open_stream i) (unfold register in ground arith)
        (unfold register in (ground arith, ground arith))
  Move-Shows s s' b (end_stream i) h =
      quiet_move s b _ h (Invariant.end_stream i) (unfold unregister in refl)
        (unfold unregister in (refl, refl))
  Move-Shows s s' b (set_deadline d) h =
      quiet_move s b _ h (Invariant.set_deadline d) (set_read_deadline-packets s.flow d)
        (set_read_deadline-Same s.flow d)
  Move-Shows s s' b (expire ch) h =
      quiet_move s b _ h (Invariant.expire ch) (unfold expire_deadline in ground arith)
        (unfold expire_deadline in (ground arith, ground arith))
  Move-Shows s s' b (read size prefer ch) h = read_move s b size prefer ch h
  Move-Shows s s' b cancel h =
      quiet_move s b _ h Invariant.cancel (unfold cancel_ctx in refl)
        (unfold cancel_ctx in (refl, refl))
  Move-Shows s s' b (shut done) h = record {
    valid = Step-BufferValid (Invariant.shut done) h.valid;
    fit = h.fit;
    same_cap = (close_buffer_keeps s.flow).0 ∙ h.same_cap;
    queue = (close_buffer_keeps s.flow).1 ∙ h.queue;
    taken = h.taken;
    left = h.left;
    is_closed = unfold close_buffer in ground arith;
  }

  Moves-Shows :
      (s s' : Traffic) (b : Bounded) (moves : Moves q ends s s')
      → Shows s b
      → Shows s' (run cap b (acts moves))
  unfolding acts run
  Moves-Shows s s' b still h = h
  Moves-Shows s s' b (then_move {t} moves m) h =
      subst (Shows s') (sym (run-append cap b (acts moves) (move_acts m)))
        (Move-Shows t s' (run cap b (acts moves)) m (Moves-Shows s t b moves h))

-- Several streams of frames feed one flow, which starts in a valid state, at the same time as datagrams,
-- `Read`, `SetReadDeadline` and `Close`, in any order. Then it is, at every moment, exactly a first-in
-- first-out queue of the flow's capacity: run on the rounds of the streams, each of which puts in the next
-- packet that its stream carries, on the datagrams, on the packets that `Read` takes and on the close, in
-- the order in which they were made, that queue holds what the flow's queue holds, gave out what `Read`
-- took, and has left of every stream what is left of it. It lets a packet go only where it is full or
-- closed.
pub streams_keep_order :
    (q : Quicvarint) (qv : IsQuicvarint q) (ends : ℕ → Ending) (ps : ℕ → List Bytes)
    (s s' : Traffic)
    → ((i : ℕ) → All Fits (ps i))
    → ((i : ℕ) → s.left i ≡ frames q (ps i))
    → BufferValid s.flow
    → (moves : Moves q ends s s')
    → let b =
        run s.flow.buffer.cap
          (record {
            queue = packets s.flow;
            taken = s.taken;
            streams = ps;
            is_closed = s.flow.closed;
          })
          (acts moves) in
      (packets s'.flow ≡ b.queue)
      × (s'.taken ≡ b.taken)
      × ((i : ℕ) → s'.left i ≡ frames q (b.streams i))
      × (s'.flow.closed ≡ b.is_closed)
streams_keep_order q qv ends ps s s' fit whole v moves =
    let h =
      Moves-Shows q qv ends s.flow.buffer.cap s s'
        (record {
          queue = packets s.flow;
          taken = s.taken;
          streams = ps;
          is_closed = s.flow.closed;
        })
        moves
        (record {
          valid = v;
          fit = fit;
          same_cap = refl;
          queue = refl;
          taken = refl;
          left = whole;
          is_closed = refl;
        }) in
    (h.queue, h.taken, h.left, h.is_closed)
