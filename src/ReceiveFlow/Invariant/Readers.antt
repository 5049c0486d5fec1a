-- ===== src/ReceiveFlow/Invariant/Readers.antt =====
-- `Read` and `SetReadDeadline` of receive_flow.go together.
use roq.Common.{
  ℕ, suc, ◌≤◌, ◌<◌, ◌≡◌, ◌≢◌, ◌⊎◌, inl, inr, ap, ◌∙◌, Bool, true, false, some, [], arith,
}
use roq.Common.Chan.{is_signalled, close_signal, make_signal}
use roq.Errors.{deadline_exceeded}
use roq.ReceiveFlow.{
  ReceiveFlow, expire_deadline, Deadline, cleared, passed, later, renew_deadline, set_read_deadline,
  unregister, cancel_ctx, close_buffer,
}
use roq.ReceiveFlow.Queue.{accept-Keeps, get-Keeps}
use roq.ReceiveFlow.Reader.{starting, waiting, returned, read_step}
use roq.ReceiveFlow.Invariant.{
  Step, arrive, lose, open_stream, end_stream, set_deadline, expire, cancel, shut, read, Reach,
  here, next, DeadlineValid,
}
use roq.ReceiveFlow.Invariant.Wakeups.{Reach-DeadlineValid, read_step_deadline, register_deadline}

expire_next : (f : ReceiveFlow) (ch : ℕ) → (expire_deadline f ch).signals.next ≡ f.signals.next
unfolding expire_deadline close_signal
expire_next f ch = ground arith

renew_next : (f : ReceiveFlow) → (renew_deadline f).signals.next ≡ suc f.signals.next
unfolding renew_deadline close_signal make_signal
renew_next f = ground arith

renew_ch : (f : ReceiveFlow) → (renew_deadline f).deadline_ch ≡ f.signals.next
unfolding renew_deadline close_signal
renew_ch f = ground arith

set_read_deadline_next :
    (f : ReceiveFlow) (d : Deadline) → (set_read_deadline f d).signals.next ≡ suc f.signals.next
unfolding set_read_deadline
set_read_deadline_next f cleared = renew_next f
set_read_deadline_next f passed = expire_next (renew_deadline f) _ ∙ renew_next f
set_read_deadline_next f later = renew_next f

close_buffer_signals : (f : ReceiveFlow) → (close_buffer f).signals ≡ f.signals
unfolding close_buffer
close_buffer_signals f = ground arith

-- Channels are only ever added.
Step_next : {f g : ReceiveFlow} → Step f g → f.signals.next ≤ g.signals.next
Step_next {f} (arrive choice p) =
    omega (arith, ap (λ s. s.next) (accept-Keeps choice f p).same_signals)
Step_next {f} (lose choice) = omega (arith, ap (λ s. s.next) (get-Keeps choice f).same_signals)
Step_next {f} (open_stream s) = omega (arith, ap (λ s. s.next) (register_deadline f s).0)
Step_next {f} (end_stream s) = unfold unregister in omega arith
Step_next {f} (set_deadline d) = omega (arith, set_read_deadline_next f d)
Step_next {f} (expire ch) = omega (arith, expire_next f ch)
Step_next {f} cancel = unfold cancel_ctx in omega arith
Step_next {f} (shut done) = omega (arith, ap (λ s. s.next) (close_buffer_signals f))
Step_next {f} (read size prefer r) =
    omega (arith, ap (λ s. s.next) (read_step_deadline f size prefer r).0)

Reach-next : {f g : ReceiveFlow} → Reach f g → f.signals.next ≤ g.signals.next
Reach-next here = omega arith
Reach-next (next r s) = omega (arith, Reach-next r, Step_next s)

woken :
    (f : ReceiveFlow) (ch : ℕ)
    → DeadlineValid f
    → ch < f.signals.next
    → (f.deadline_ch ≢ ch) ⊎ (f.deadline_expired ≡ true)
    → is_signalled f.signals ch ≡ true
woken f ch v made (inl replaced) = v.signalled ch ∙ ground arith
woken f ch v made (inr expired) = v.signalled ch ∙ ground arith

-- A reader that went to wait when the flow was `g`, with a valid deadline state, is not blocked on that
-- channel in any later state `f` in which the deadline has expired or was replaced, whatever ran in
-- between.
pub waiting_is_woken :
    (g f : ReceiveFlow) (size : ℕ) (prefer : Bool)
    → DeadlineValid g
    → Reach g f
    → (f.deadline_ch ≢ g.deadline_ch) ⊎ (f.deadline_expired ≡ true)
    → (read_step f size prefer (waiting g.deadline_ch)).1 ≢ waiting g.deadline_ch
unfolding read_step
waiting_is_woken g f size prefer v r changed =
    let w : is_signalled f.signals g.deadline_ch ≡ true =
      woken f g.deadline_ch (Reach-DeadlineValid r v) (omega (arith, v.current, Reach-next r))
        changed in
    rw w (λ e. ground arith)

passed_expires : (f : ReceiveFlow) → (set_read_deadline f passed).deadline_expired ≡ true
unfolding set_read_deadline renew_deadline expire_deadline
passed_expires f = ground arith

read_woken :
    (f : ReceiveFlow) (size ch : ℕ)
    → is_signalled f.signals ch ≡ true
    → read_step f size false (waiting ch) ≡ (f, starting)
unfolding read_step
read_woken f size ch w = ground arith

read_expired :
    (f : ReceiveFlow) (size : ℕ) (prefer : Bool)
    → f.deadline_expired ≡ true
    → read_step f size prefer starting
      ≡ (f, returned (record { copied = []; err = some deadline_exceeded }))
unfolding read_step
read_expired f size prefer e = ground arith

-- Setting a deadline that has passed makes a reader that went to wait in an earlier, valid state return
-- `os.ErrDeadlineExceeded` in its next two steps, where its `select` does not take a packet that is
-- ready.
pub passed_deadline_stops_reader :
    (g f : ReceiveFlow) (size : ℕ) (prefer : Bool)
    → DeadlineValid g
    → Reach g f
    → let f' = set_read_deadline f passed in
      let s = read_step f' size false (waiting g.deadline_ch) in
      read_step s.0 size prefer s.1
      ≡ (f', returned (record { copied = []; err = some deadline_exceeded }))
passed_deadline_stops_reader g f size prefer v r =
    let f' : ReceiveFlow = set_read_deadline f passed in
    let r' : Reach g f' = next r (set_deadline passed) in
    let w : is_signalled f'.signals g.deadline_ch ≡ true =
      woken f' g.deadline_ch (Reach-DeadlineValid r' v) (omega (arith, v.current, Reach-next r'))
        (inr (passed_expires f)) in
    rw (read_woken f' size g.deadline_ch w) (read_expired f' size prefer (passed_expires f))

expire_other : (f : ReceiveFlow) (ch : ℕ) → ch < f.deadline_ch → expire_deadline f ch ≡ f
unfolding expire_deadline
expire_other f ch h = ground arith

expire_ch : (f : ReceiveFlow) (ch : ℕ) → (expire_deadline f ch).deadline_ch ≡ f.deadline_ch
unfolding expire_deadline
expire_ch f ch = ground arith

set_read_deadline_ch :
    (f : ReceiveFlow) (d : Deadline) → (set_read_deadline f d).deadline_ch ≡ f.signals.next
unfolding set_read_deadline
set_read_deadline_ch f cleared = renew_ch f
set_read_deadline_ch f passed = expire_ch (renew_deadline f) _ ∙ renew_ch f
set_read_deadline_ch f later = renew_ch f

-- A timer for a channel made before the deadline was set changes nothing afterwards.
pub stale_timer :
    (f : ReceiveFlow) (d : Deadline) (ch : ℕ)
    → ch < f.signals.next
    → expire_deadline (set_read_deadline f d) ch ≡ set_read_deadline f d
stale_timer f d ch old =
    expire_other (set_read_deadline f d) ch (omega (arith, set_read_deadline_ch f d))
