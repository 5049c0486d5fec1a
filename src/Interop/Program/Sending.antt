-- ===== src/Interop/Program/Sending.antt =====
-- When `runSender` of examples/interop/main.go returns nil.
use mathlib.Core.Option.{some-ne-none}
use roq.Common.{◌≡◌, ◌≢◌, ◌↔◌, ◌⊎◌, inl, inr, refl, ap, Option, none, some}
use roq.Common.Acts.{
  process, session, acquired, released, stops, Run, Outcome, returns, panics, faults, checked,
  returns_error,
}
use roq.Errors.{Error}
use roq.Interop.Program.{SenderCalls, sends, after_call, after_send, run_sender}

abbrev result : Outcome → Option Error
result (returns e) = e
result (panics e) = some e
result faults = none

returns-injective : (e e' : Option Error) → returns e ≡ returns e' → e ≡ e'
returns-injective e e' h = ap result h

checked-none :
    (o : Option Error) (rest : Run)
    → ((checked returns_error o rest).outcome ≡ returns none)
      ↔ ((o ≡ none) × (rest.outcome ≡ returns none))
checked-none none rest = (λ h. (refl, h), λ h. h.1)
checked-none (some e) rest = (
  λ h. absurd (some-ne-none e (returns-injective (some e) none h)),
  λ h. absurd (some-ne-none e h.0),
)

after_send-none :
    (r : SenderCalls) (sent : Option Error)
    → ((after_send r sent).outcome ≡ returns none)
      ↔ (((sent ≡ none) × (r.close ≡ none) × (r.wait ≡ none)) ⊎ ((sent ≢ none) × (r.kill ≡ none)))
after_send-none r none =
    let step = checked-none r.close (released process (stops (returns r.wait))) in
    (
      λ h. (let (close, wait) = step.0 h in inl (refl, close, returns-injective r.wait none wait)),
      λ h. elim h [
        | inl (_, close, wait) ↦ step.1 (close, ap returns wait)
        | inr (failed, kill) ↦ absurd (failed refl)
      ],
    )
after_send-none r (some e) = (
  λ h. inr (some-ne-none e, returns-injective r.kill none h),
  λ h. elim h [
    | inl (sent, close, wait) ↦ absurd (some-ne-none e sent)
    | inr (failed, kill) ↦ ap returns kill
  ],
)

-- `runSender` returns nil exactly where nothing failed ahead of `send`, and either `send`, the session's
-- `Close` and the wait for ffmpeg all returned nil, or `send` failed and ffmpeg could be killed.
pub run_sender-none :
    (r : SenderCalls)
    → ((run_sender r).outcome ≡ returns none) ↔ (
        (r.new_sender ≡ none)
        × (r.stdout_pipe ≡ none)
        × (r.start ≡ none)
        × (r.new_reader ≡ none)
        × ((((sends r).0 ≡ none) × (r.close ≡ none) × (r.wait ≡ none))
            ⊎ (((sends r).0 ≢ none) × (r.kill ≡ none))))
unfolding run_sender
run_sender-none r =
    let end = after_call (sends r).1 (after_send r (sends r).0) in
    let reads = checked returns_error r.new_reader end in
    let starts = checked returns_error r.start (acquired process reads) in
    let pipes = checked returns_error r.stdout_pipe starts in
    let four = checked-none r.new_reader end in
    let three = checked-none r.start (acquired process reads) in
    let two = checked-none r.stdout_pipe starts in
    let one = checked-none r.new_sender (acquired session pipes) in
    (
      λ h.
          (let (a, h1) = one.0 h in
            let (b, h2) = two.0 h1 in
            let (c, h3) = three.0 h2 in
            let (d, h4) = four.0 h3 in (a, b, c, d, (after_send-none r (sends r).0).0 h4)),
      λ h.
          (let (a, b, c, d, e) = h in
            one.1 (a, two.1 (b, three.1 (c, four.1 (d, (after_send-none r (sends r).0).1 e))))),
    )
