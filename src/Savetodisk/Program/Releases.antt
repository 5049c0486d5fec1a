-- ===== src/Savetodisk/Program/Releases.antt =====
-- How the `main` of examples/savetodisk/main.go ends on a flow that has been closed.
use mathlib.Core.Path.{subst}
use roq.Common.{
  not, ◌∙◌, ◌<◌, ◌≤◌, ◌==◌, sym, inl, inr, Bool-cases, arith, ℕ, suc, ◌≡◌, refl, ap, Bool, true,
  false, Option, none, some, List, length,
}
use roq.Common.Acts.{
  Resource, key_log, listener, conn, process, session, flow, writer, Outcome, panics, Run, stops,
  acquired, scoped, index, is_nil, acquired-Keeps, acquired_other-Keeps, Keeps, Leaves, same-Keeps,
  other-Keeps, other-Leaves,
}
use roq.Errors.{Error}
use roq.Quicvarint.{Bytes}
use roq.ReceiveFlow.{ReceiveFlow}
use roq.ReceiveFlow.Queue.{packets}
use roq.Interop.Main.{Result, ok, fails, TlsConfig}
use roq.Savetodisk.{Ending}
use roq.Savetodisk.Drain.{Ended, Because, all_read, too_long, no_rtp, not_written, saves_queue}
use roq.Savetodisk.Program.{
  generate_tls_config, Calls, or_panics, acquired_run, session_run, with_session, scoped_run,
  end_of, after_loop, with_writer, with_listener, with_config, main,
}

-- What `main` keeps of what it acquired on the listener: the connection, where there was no session.
abbrev pub conn_leaks : Option Error → Resource → Bool
conn_leaks new_session conn = not (is_nil new_session)
conn_leaks new_session listener = false
conn_leaks new_session key_log = false
conn_leaks new_session session = false
conn_leaks new_session flow = false
conn_leaks new_session process = false
conn_leaks new_session writer = false

-- And with the listener.
abbrev pub leaks : Option Error → Resource → Bool
leaks new_session listener = true
leaks new_session conn = conn_leaks new_session conn
leaks new_session key_log = false
leaks new_session session = false
leaks new_session flow = false
leaks new_session process = false
leaks new_session writer = false

-- It ends, gives back what it acquired itself, and does not touch what has an index below `k`.
EndsBelow : ℕ → Option Run → Type 0
EndsBelow k o =
    (run : Run) × (o ≡ some run)
    × ((x : Resource) → Keeps x false run)
    × ((x : Resource) → index x < k → Leaves x true true run)

stops-EndsBelow : (k : ℕ) (o : Outcome) → EndsBelow k (some (stops o))
unfolding EndsBelow Keeps Leaves
stops-EndsBelow k o = (stops o, refl, λ x. refl, λ x i. refl)

scoped_run-EndsBelow :
    (y : Resource) (m k : ℕ) (o : Option Run)
    → index y < k
    → m ≤ index y
    → EndsBelow k o
    → EndsBelow m (scoped_run y o)
unfolding EndsBelow
scoped_run-EndsBelow y m k o a b (run, e, keeps, leaves) = (
  scoped y run,
  ap (scoped_run y) e,
  λ x. elim (Bool-cases (index x == index y)) [
    | inl same ↦ same-Keeps x y run same (leaves x (ground arith))
    | inr other ↦ other-Keeps x y false run other (keeps x)
  ],
  λ x i. other-Leaves x y true true run (ground arith) (leaves x (omega (arith, i, a, b))),
)

or_panics-EndsBelow :
    (k : ℕ) (e : Option Error) (o : Option Run) → EndsBelow k o → EndsBelow k (or_panics e o)
or_panics-EndsBelow k none o h = h
or_panics-EndsBelow k (some e) o h = stops-EndsBelow k (panics e)

-- It ends, and keeps what it leaks.
Inner : Option Error → Option Run → Type 0
Inner e o =
    (run : Run) × (o ≡ some run)
    × ((x : Resource) → Keeps x (conn_leaks e x) run)
    × Leaves listener true true run

Outer : Option Error → Option Run → Type 0
Outer e o = (run : Run) × (o ≡ some run) × ((x : Resource) → Keeps x (leaks e x) run)

stops-Inner : (e : Option Error) (o : Outcome) → Inner e (some (stops o))
unfolding Inner Keeps Leaves
stops-Inner e o = (stops o, refl, λ x. refl, refl)

stops-Outer : (e : Option Error) (o : Outcome) → Outer e (some (stops o))
unfolding Outer Keeps Leaves
stops-Outer e o = (stops o, refl, λ x. refl)

conn_left :
    (e : Error) (o : Outcome) (x : Resource)
    → Keeps x (conn_leaks (some e) x) (acquired conn (stops o))
unfolding Keeps Leaves
conn_left e o conn = refl
conn_left e o listener = refl
conn_left e o key_log = refl
conn_left e o session = refl
conn_left e o flow = refl
conn_left e o process = refl
conn_left e o writer = refl

failed_session : (e : Error) (o : Outcome) → Inner (some e) (acquired_run conn (some (stops o)))
unfolding Inner Leaves
failed_session e o = (acquired conn (stops o), refl, conn_left e o, refl)

no_leaks : (x : Resource) → conn_leaks none x ≡ false
no_leaks conn = refl
no_leaks listener = refl
no_leaks key_log = refl
no_leaks session = refl
no_leaks flow = refl
no_leaks process = refl
no_leaks writer = refl

same_run :
    (o : Option Run) → acquired_run conn (session_run o) ≡ scoped_run conn (scoped_run session o)
same_run none = refl
same_run (some rest) = refl

given_back : (o : Option Run) → EndsBelow 4 o → Inner none (acquired_run conn (session_run o))
unfolding Inner EndsBelow
given_back o h =
    let (run, e, keeps, leaves) =
      scoped_run-EndsBelow conn 2 3 _ (omega arith) (omega arith)
        (scoped_run-EndsBelow session 3 4 o (omega arith) (omega arith) h) in
    (
      run,
      same_run o ∙ e,
      λ x. subst (λ k. Keeps x k run) (sym (no_leaks x)) (keeps x),
      leaves listener (omega arith),
    )

or_panics-Inner : (e a : Option Error) (o : Option Run) → Inner e o → Inner e (or_panics a o)
or_panics-Inner e none o h = h
or_panics-Inner e (some x) o h = stops-Inner e (panics x)

listener_left :
    (e : Option Error) (run : Run)
    → ((x : Resource) → Keeps x (conn_leaks e x) run)
    → Leaves listener true true run
    → (x : Resource) → Keeps x (leaks e x) (acquired listener run)
listener_left e run keeps leaves listener = acquired-Keeps listener run leaves
listener_left e run keeps leaves conn = acquired_other-Keeps conn listener _ run refl (keeps conn)
listener_left e run keeps leaves key_log =
    acquired_other-Keeps key_log listener _ run refl (keeps key_log)
listener_left e run keeps leaves session =
    acquired_other-Keeps session listener _ run refl (keeps session)
listener_left e run keeps leaves flow = acquired_other-Keeps flow listener _ run refl (keeps flow)
listener_left e run keeps leaves process =
    acquired_other-Keeps process listener _ run refl (keeps process)
listener_left e run keeps leaves writer =
    acquired_other-Keeps writer listener _ run refl (keeps writer)

listened : (e : Option Error) (o : Option Run) → Inner e o → Outer e (acquired_run listener o)
unfolding Inner Outer
listened e o (run, is_run, keeps, leaves) =
    (acquired listener run, ap (acquired_run listener) is_run, listener_left e run keeps leaves)

module _ {P R : Type 0} (unmarshal : Bytes → Result P) (write_rtp : R → P → R × Option Error) where
  end_of-EndsBelow :
      (k : ℕ) (rest : List Bytes) (how : Ending)
      → Because unmarshal write_rtp rest how
      → EndsBelow k (end_of how)
  end_of-EndsBelow k rest how all_read = stops-EndsBelow k _
  end_of-EndsBelow k rest how (too_long p ps _) = stops-EndsBelow k _
  end_of-EndsBelow k rest how (no_rtp p ps e _) = stops-EndsBelow k _
  end_of-EndsBelow k rest how (not_written p ps x w w' e _ _) = stops-EndsBelow k _

  module _ {C L : Type 0} (prefer_packet : Bool) (f : ReceiveFlow) (h : Ended f)
      (c : Calls C L R) where
    rounds : ℕ
    rounds = suc (length (packets f))

    with_writer-EndsBelow :
        (w : Result R) → EndsBelow 5 (with_writer unmarshal write_rtp rounds prefer_packet f c w)
    unfolding rounds
    with_writer-EndsBelow (fails e) = stops-EndsBelow 5 (panics e)
    with_writer-EndsBelow (ok w) =
        let (out, done, rest, saved, _, _, why) =
          saves_queue unmarshal write_rtp prefer_packet f w h in
        scoped_run-EndsBelow writer 5 7 _ (omega arith) (omega arith) (
          subst (λ o. EndsBelow 7 (after_loop unmarshal write_rtp rounds prefer_packet f c o))
            (sym saved) (end_of-EndsBelow 7 rest out.ending why))

    with_session-Inner :
        (o : Option Error)
        → Inner o (acquired_run conn (with_session unmarshal write_rtp rounds prefer_packet f c o))
    with_session-Inner (some e) = failed_session e (panics e)
    with_session-Inner none = given_back _ (
        or_panics-EndsBelow 4 c.new_receive_flow _ (
          scoped_run-EndsBelow flow 4 5 _ (omega arith) (omega arith)
            (with_writer-EndsBelow c.new_writer)))

    with_listener-Outer :
        (l : Result L)
        → Outer c.new_session (with_listener unmarshal write_rtp rounds prefer_packet f c l)
    with_listener-Outer (fails e) = stops-Outer c.new_session (panics e)
    with_listener-Outer (ok l) =
        listened c.new_session _
          (or_panics-Inner c.new_session (c.accept l) _ (with_session-Inner c.new_session))

    with_config-Outer :
        (t : Result (TlsConfig C))
        → Outer c.new_session (with_config unmarshal write_rtp rounds prefer_packet f c t)
    with_config-Outer (fails e) = stops-Outer c.new_session (panics e)
    with_config-Outer (ok config) = with_listener-Outer (c.listen_addr config)

    -- On a flow that has been closed, without a deadline that has passed, `main` ends, whatever its calls
    -- answer, after at most one `Read` more than the queue has packets. At its end, also where it panics, it
    -- has given back the session, the flow and the file of its writer, where it had acquired them, each
    -- once, and the connection with the session; what it keeps is the listener, where it had one, and
    -- the connection where `NewSession` failed on it.
    pub main-ends :
        (run : Run) × (main unmarshal write_rtp (suc (length (packets f))) prefer_packet f c
          ≡ some run)
        × ((x : Resource) → Keeps x (leaks c.new_session x) run)
    unfolding main rounds Outer
    main-ends = with_config-Outer (generate_tls_config c.load_key_pair)
