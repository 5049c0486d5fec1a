-- ===== src/ReceiveFlow/Invariant/Wakeups.antt =====
-- The steps of receive_flow.go on the read deadline and its channels.
use roq.Common.{ℕ, ◌≡◌, inl, inr, refl, Bool, Option, arith}
use roq.Common.Chan.{close_signal, make_signal}
use roq.Qlogger.{Qlogger}
use roq.ReceiveFlow.{
  ReceiveFlow, new_receive_flow, put, copy_packet, register, unregister, expire_deadline, Deadline,
  cleared, passed, later, renew_deadline, set_read_deadline, close_buffer, cancel_ctx,
}
use roq.ReceiveFlow.Queue.{Keeps, accept-Keeps, get-Keeps}
use roq.ReceiveFlow.Reader.{Reader, starting, waiting, returned, read_step}
use roq.ReceiveFlow.Invariant.{
  Step, arrive, lose, open_stream, end_stream, set_deadline, expire, cancel, shut, read, Reach,
  here, next, DeadlineValid,
}

pub new-DeadlineValid :
    (id size : ℕ) (log : Option Qlogger) → DeadlineValid (new_receive_flow id size log)
unfolding new_receive_flow
new-DeadlineValid id size log = record {
  sound = refl;
  current = omega arith;
  signalled = λ ch. ground arith;
  timer = inl refl;
}

Keeps-DeadlineValid : {f g : ReceiveFlow} → Keeps f g → DeadlineValid f → DeadlineValid g
Keeps-DeadlineValid k v = record {
  sound = ground arith;
  current = ground arith;
  signalled = λ ch. ground (arith, v.signalled ch);
  timer = ground arith;
}

expire_deadline-DeadlineValid :
    (f : ReceiveFlow) (ch : ℕ) → DeadlineValid f → DeadlineValid (expire_deadline f ch)
unfolding expire_deadline close_signal
expire_deadline-DeadlineValid f ch v = record {
  sound = ground (arith, v.signalled ch);
  current = ground (arith, v.signalled ch);
  signalled = λ x. ground (arith, v.signalled ch, v.signalled x);
  timer = ground arith;
}

renew_deadline-DeadlineValid :
    (f : ReceiveFlow) → DeadlineValid f → DeadlineValid (renew_deadline f)
unfolding renew_deadline close_signal make_signal
renew_deadline-DeadlineValid f v = record {
  sound = ground (arith, v.signalled f.deadline_ch);
  current = ground (arith, v.signalled f.deadline_ch);
  signalled = λ x. ground (arith, v.signalled f.deadline_ch, v.signalled x);
  timer = ground arith;
}

set_read_deadline-DeadlineValid :
    (f : ReceiveFlow) (d : Deadline) → DeadlineValid f → DeadlineValid (set_read_deadline f d)
unfolding set_read_deadline
set_read_deadline-DeadlineValid f cleared v = renew_deadline-DeadlineValid f v
set_read_deadline-DeadlineValid f passed v =
    expire_deadline-DeadlineValid (renew_deadline f) _ (renew_deadline-DeadlineValid f v)
set_read_deadline-DeadlineValid f later v =
    let w = renew_deadline-DeadlineValid f v in
    record { sound = w.sound; current = w.current; signalled = w.signalled; timer = inr refl }

close_buffer-DeadlineValid : (f : ReceiveFlow) → DeadlineValid f → DeadlineValid (close_buffer f)
unfolding close_buffer
close_buffer-DeadlineValid f v = record {
  sound = ground arith;
  current = ground arith;
  signalled = λ ch. ground (arith, v.signalled ch);
  timer = ground arith;
}

abbrev pub SameDeadline : ReceiveFlow → ReceiveFlow → Type 0
SameDeadline f g =
    (g.signals ≡ f.signals)
    × (g.deadline_ch ≡ f.deadline_ch)
    × (g.deadline_expired ≡ f.deadline_expired)
    × (g.deadline_timer ≡ f.deadline_timer)

-- What a read leaves alone: all that has to do with the deadline.
pub read_step_deadline :
    (f : ReceiveFlow) (size : ℕ) (prefer : Bool) (r : Reader)
    → SameDeadline f (read_step f size prefer r).0
unfolding read_step copy_packet put
read_step_deadline f size prefer starting = ground arith
read_step_deadline f size prefer (waiting ch) = ground arith
read_step_deadline f size prefer (returned result) = (refl, refl, refl, refl)

same-DeadlineValid : (f g : ReceiveFlow) → SameDeadline f g → DeadlineValid f → DeadlineValid g
same-DeadlineValid f g (s, c, e, t) v = record {
  sound = rw s v.sound;
  current = rw (s, c) v.current;
  signalled = λ ch. rw (s, c, e) (v.signalled ch);
  timer = rw (t, c) v.timer;
}

pub register_deadline : (f : ReceiveFlow) (s : ℕ) → SameDeadline f (register f s).0
unfolding register
register_deadline f s = ground arith

-- No critical section closes a deadline channel twice, or leaves the channel of an earlier or expired
-- deadline open.
pub Step-DeadlineValid : {f g : ReceiveFlow} → Step f g → DeadlineValid f → DeadlineValid g
Step-DeadlineValid {f} (arrive choice p) v = Keeps-DeadlineValid (accept-Keeps choice f p) v
Step-DeadlineValid {f} (lose choice) v = Keeps-DeadlineValid (get-Keeps choice f) v
Step-DeadlineValid {f} (open_stream s) v = same-DeadlineValid f _ (register_deadline f s) v
Step-DeadlineValid {f} (end_stream s) v =
    unfold unregister in same-DeadlineValid f _ (refl, refl, refl, refl) v
Step-DeadlineValid {f} (set_deadline d) v = set_read_deadline-DeadlineValid f d v
Step-DeadlineValid {f} (expire ch) v = expire_deadline-DeadlineValid f ch v
Step-DeadlineValid {f} cancel v =
    unfold cancel_ctx in same-DeadlineValid f _ (refl, refl, refl, refl) v
Step-DeadlineValid {f} (shut done) v = close_buffer-DeadlineValid f v
Step-DeadlineValid {f} (read size prefer r) v =
    same-DeadlineValid f _ (read_step_deadline f size prefer r) v

pub Reach-DeadlineValid : {f g : ReceiveFlow} → Reach f g → DeadlineValid f → DeadlineValid g
Reach-DeadlineValid here v = v
Reach-DeadlineValid (next r s) v = Step-DeadlineValid s (Reach-DeadlineValid r v)
