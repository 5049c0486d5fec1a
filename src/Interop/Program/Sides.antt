-- ===== src/Interop/Program/Sides.antt =====
-- What `runSender` and `runReceiver` of examples/interop have not given back at their ends.
use mathlib.Core.Bool.{true≢false, false≢true}
use roq.Common.{
  ◌≡◌, refl, Bool, true, false, not, ◌&&◌, ◌||◌, Option, none, some, arith, if◌then◌else◌, ltb,
  ◌==◌,
}
use roq.Common.Acts.{
  Resource, key_log, listener, conn, is_nil, stops, checked, acquired, session_scoped,
  acquired_other-Leaves, session, flow, process, writer, scoped, returns_error, Keeps, Leaves,
  checked-Leaves, index, checked-Keeps, own-Keeps, other-Keeps, other-Leaves,
}
use roq.Errors.{Error}
use roq.Interop.Main.{Result, ok, fails, Flags}
use roq.Interop.FileWriter.{FileWriter, Pion}
use roq.Interop.Program.{
  SenderCalls, sends, run_sender, ReceiverCalls, receive, receive_in, to_file, to_player,
  run_receiver,
}

-- `send` was reached and returned nil.
abbrev all_sent : SenderCalls → Bool
all_sent r = is_nil r.stdout_pipe && is_nil r.start && is_nil r.new_reader && is_nil (sends r).0

-- What the sending side keeps, of what it has acquired.
abbrev pub sender_keeps : SenderCalls → Resource → Bool
sender_keeps r session = not (all_sent r)
sender_keeps r conn = not (is_nil r.new_sender && all_sent r)
sender_keeps r process = not (is_nil r.new_reader) || (is_nil (sends r).0 && not (is_nil r.close))
sender_keeps r flow = not (is_nil r.single_stream)
sender_keeps r key_log = false
sender_keeps r listener = false
sender_keeps r writer = false

pub run_sender-Keeps :
    (r : SenderCalls) (x : Resource) → Keeps x (sender_keeps r x) (acquired conn (run_sender r))
unfolding run_sender Keeps Leaves
run_sender-Keeps r session = ground arith
run_sender-Keeps r conn = ground arith
run_sender-Keeps r process = ground arith
run_sender-Keeps r flow = ground arith
run_sender-Keeps r key_log = ground arith
run_sender-Keeps r listener = ground arith
run_sender-Keeps r writer = ground arith

pub run_sender-Leaves :
    (r : SenderCalls) (x : Resource)
    → ltb (index x) 2 ≡ true
    → Leaves x true true (acquired conn (run_sender r))
unfolding run_sender Leaves
run_sender-Leaves r key_log k = ground arith
run_sender-Leaves r listener k = ground arith
run_sender-Leaves r session k = absurd (false≢true k)
run_sender-Leaves r conn k = absurd (false≢true k)
run_sender-Leaves r process k = absurd (false≢true k)
run_sender-Leaves r flow k = absurd (false≢true k)
run_sender-Leaves r writer k = absurd (false≢true k)

-- What the receiving side keeps, where `made` is what `newReceiver` returned: a writer that `receive` was
-- not to close, and a connection without a session.
abbrev pub conn_keeps : {R W : Type 0} → ReceiverCalls R W → Option Error → Resource → Bool
conn_keeps r made key_log = false
conn_keeps r made listener = false
conn_keeps r made conn = not (is_nil made)
conn_keeps r made session = false
conn_keeps r made flow = false
conn_keeps r made process = false
conn_keeps r made writer = not (is_nil r.new_receive_flow)

abbrev pub receiver_keeps : {R W : Type 0} → ReceiverCalls R W → Resource → Bool
receiver_keeps r x = conn_keeps r r.new_receiver x

-- Behind `newReceiver`.
abbrev receive_keeps : {R W : Type 0} → ReceiverCalls R W → Resource → Bool
receive_keeps r x = conn_keeps r none x

conn_left :
    {R W : Type 0}
    → (r : ReceiverCalls R W) (e : Error) (x : Resource)
    → Keeps x (conn_keeps r (some e) x) (acquired conn (stops (returns_error e)))
unfolding Keeps Leaves
conn_left r e key_log = refl
conn_left r e listener = refl
conn_left r e conn = refl
conn_left r e session = refl
conn_left r e flow = refl
conn_left r e process = refl
conn_left r e writer = refl

module _ {P J R W : Type 0} (n : Pion P J R) (unknown_codec : Error) (r : ReceiverCalls R W) where
  receive_in-Keeps :
      (x : Resource) (w : Result (FileWriter J R))
      → Keeps x (receive_keeps r x) (receive_in n unknown_codec r w)
  unfolding receive Keeps Leaves
  receive_in-Keeps key_log (ok w) = ground arith
  receive_in-Keeps listener (ok w) = ground arith
  receive_in-Keeps conn (ok w) = ground arith
  receive_in-Keeps session (ok w) = ground arith
  receive_in-Keeps flow (ok w) = ground arith
  receive_in-Keeps process (ok w) = ground arith
  receive_in-Keeps writer (ok w) = ground arith
  receive_in-Keeps x (fails e) = refl

  -- `receive` leaves alone what was acquired ahead of it.
  receive_in-Leaves :
      (x : Resource) (w : Result (FileWriter J R))
      → ltb (index x) 6 ≡ true
      → (index x == index flow) ≡ false
      → Leaves x true true (receive_in n unknown_codec r w)
  unfolding receive Leaves
  receive_in-Leaves key_log (ok w) k i = ground arith
  receive_in-Leaves listener (ok w) k i = ground arith
  receive_in-Leaves conn (ok w) k i = ground arith
  receive_in-Leaves session (ok w) k i = ground arith
  receive_in-Leaves process (ok w) k i = ground arith
  receive_in-Leaves flow (ok w) k i = absurd (true≢false i)
  receive_in-Leaves writer (ok w) k i = absurd (false≢true k)
  receive_in-Leaves x (fails e) k i = refl

  played-Keeps :
      (x : Resource) (w : Result (FileWriter J R))
      → Keeps x (receive_keeps r x) (scoped process (receive_in n unknown_codec r w))
  played-Keeps listener w = other-Keeps listener process _ _ refl (receive_in-Keeps listener w)
  played-Keeps conn w = other-Keeps conn process _ _ refl (receive_in-Keeps conn w)
  played-Keeps key_log w = other-Keeps key_log process _ _ refl (receive_in-Keeps key_log w)
  played-Keeps session w = other-Keeps session process _ _ refl (receive_in-Keeps session w)
  played-Keeps flow w = other-Keeps flow process _ _ refl (receive_in-Keeps flow w)
  played-Keeps writer w = other-Keeps writer process _ _ refl (receive_in-Keeps writer w)
  played-Keeps process w = own-Keeps process _ (receive_in-Leaves process w refl refl)

  to_player-Keeps :
      (x : Resource) (f : Flags) → Keeps x (receive_keeps r x) (to_player n unknown_codec r f)
  to_player-Keeps x f =
      checked-Keeps x _ returns_error r.stdin_pipe _
        (checked-Keeps x _ returns_error r.start _ (played-Keeps x _))

  to_player-Leaves :
      (x : Resource) (f : Flags)
      → ltb (index x) 4 ≡ true
      → Leaves x true true (to_player n unknown_codec r f)
  to_player-Leaves x f k = checked-Leaves x true returns_error r.stdin_pipe _ (
      checked-Leaves x true returns_error r.start _ (
        other-Leaves x process true true _ (ground arith)
          (receive_in-Leaves x _ (ground arith) (ground arith))))

  writes_to-Keeps :
      (x : Resource) (to_stdout : Bool) (f : Flags)
      → Keeps x
          (receive_keeps r x)
          (if to_stdout then to_player n unknown_codec r f else to_file n unknown_codec r f)
  writes_to-Keeps x true f = to_player-Keeps x f
  writes_to-Keeps x false f = receive_in-Keeps x _

  writes_to-Leaves :
      (x : Resource) (to_stdout : Bool) (f : Flags)
      → ltb (index x) 4 ≡ true
      → Leaves x true true
          (if to_stdout then to_player n unknown_codec r f else to_file n unknown_codec r f)
  writes_to-Leaves x true f k = to_player-Leaves x f k
  writes_to-Leaves x false f k = receive_in-Leaves x _ (ground arith) (ground arith)

  in_session-Keeps :
      (x : Resource) (to_stdout : Bool) (f : Flags)
      → Keeps x (receive_keeps r x) (
          scoped session
            (if to_stdout then to_player n unknown_codec r f else to_file n unknown_codec r f))
  in_session-Keeps listener b f =
      other-Keeps listener session _ _ refl (writes_to-Keeps listener b f)
  in_session-Keeps conn b f = other-Keeps conn session _ _ refl (writes_to-Keeps conn b f)
  in_session-Keeps key_log b f = other-Keeps key_log session _ _ refl (writes_to-Keeps key_log b f)
  in_session-Keeps flow b f = other-Keeps flow session _ _ refl (writes_to-Keeps flow b f)
  in_session-Keeps process b f = other-Keeps process session _ _ refl (writes_to-Keeps process b f)
  in_session-Keeps writer b f = other-Keeps writer session _ _ refl (writes_to-Keeps writer b f)
  in_session-Keeps session b f = own-Keeps session _ (writes_to-Leaves session b f refl)

  -- The connection around the session.
  in_conn-Keeps :
      (x : Resource) (made : Option Error) (b : Bool) (f : Flags)
      → Keeps x (conn_keeps r made x) (
          acquired conn (
            checked returns_error made (
              session_scoped
                (if b then to_player n unknown_codec r f else to_file n unknown_codec r f))))
  in_conn-Keeps conn none b f =
      own-Keeps conn _ (other-Leaves conn session true true _ refl (writes_to-Leaves conn b f refl))
  in_conn-Keeps key_log none b f = other-Keeps key_log conn _ _ refl (in_session-Keeps key_log b f)
  in_conn-Keeps listener none b f =
      other-Keeps listener conn _ _ refl (in_session-Keeps listener b f)
  in_conn-Keeps session none b f = other-Keeps session conn _ _ refl (in_session-Keeps session b f)
  in_conn-Keeps flow none b f = other-Keeps flow conn _ _ refl (in_session-Keeps flow b f)
  in_conn-Keeps process none b f = other-Keeps process conn _ _ refl (in_session-Keeps process b f)
  in_conn-Keeps writer none b f = other-Keeps writer conn _ _ refl (in_session-Keeps writer b f)
  in_conn-Keeps x (some e) b f = conn_left r e x

  in_conn-Leaves :
      (x : Resource) (made : Option Error) (b : Bool) (f : Flags)
      → ltb (index x) 2 ≡ true
      → Leaves x true true (
          acquired conn (
            checked returns_error made (
              session_scoped
                (if b then to_player n unknown_codec r f else to_file n unknown_codec r f))))
  in_conn-Leaves x none b f k =
      other-Leaves x conn true true _ (ground arith)
        (other-Leaves x session true true _ (ground arith) (writes_to-Leaves x b f (ground arith)))
  in_conn-Leaves x (some e) b f k =
      acquired_other-Leaves x conn true true _ (ground arith) (unfold Leaves in refl)

  pub run_receiver-Keeps :
      (x : Resource) (f : Flags)
      → Keeps x (receiver_keeps r x) (acquired conn (run_receiver n unknown_codec r f))
  unfolding run_receiver
  run_receiver-Keeps x f = in_conn-Keeps x r.new_receiver _ f

  pub run_receiver-Leaves :
      (x : Resource) (f : Flags)
      → ltb (index x) 2 ≡ true
      → Leaves x true true (acquired conn (run_receiver n unknown_codec r f))
  unfolding run_receiver
  run_receiver-Leaves x f k = in_conn-Leaves x r.new_receiver _ f k
