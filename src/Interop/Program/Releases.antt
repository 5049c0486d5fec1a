-- ===== src/Interop/Program/Releases.antt =====
-- What the program of examples/interop has not given back at its end.
use mathlib.Core.Path.{subst}
use roq.Common.{◌≡◌, refl, Bool, true, false, Option, none, ltb, if◌then◌else◌, sym}
use roq.Common.Acts.{
  Resource, index, listener, conn, acquired-Keeps, acquired_other-Keeps, acquired_other-Leaves,
  key_log, session, flow, process, writer, scoped, acquired, checked, returns_error, Run, Keeps,
  Leaves, checked-Keeps, own-Keeps, other-Keeps,
}
use roq.Errors.{Error}
use roq.Interop.Main.{Flags, Crypto, Quic, Connected, connected, not_connected, panics, connect}
use roq.Interop.FileWriter.{Pion}
use roq.Interop.Program.{
  SenderCalls, run_sender, ReceiverCalls, run_receiver, on_connection, listens, with_listener,
  deferred_close, acquired_file, with_key_log, get_ssl_key_log, setup_and_run, Environment,
  CommandLine, parse_flags,
}
use roq.Interop.Program.Sides.{
  sender_keeps, receiver_keeps, run_sender-Keeps, run_receiver-Keeps, run_sender-Leaves,
  run_receiver-Leaves,
}

-- What the program keeps of what it has acquired, on the side that it is on.
abbrev side_keeps : {R W : Type 0} → SenderCalls → ReceiverCalls R W → Bool → Resource → Bool
side_keeps calls r true x = sender_keeps calls x
side_keeps calls r false x = receiver_keeps r x

-- And the listener, which nothing closes.
abbrev pub keeps : {R W : Type 0} → SenderCalls → ReceiverCalls R W → Bool → Bool → Resource → Bool
keeps calls r listens sends listener = listens
keeps calls r listens sends key_log = false
keeps calls r listens sends conn = side_keeps calls r sends conn
keeps calls r listens sends session = side_keeps calls r sends session
keeps calls r listens sends flow = side_keeps calls r sends flow
keeps calls r listens sends process = side_keeps calls r sends process
keeps calls r listens sends writer = side_keeps calls r sends writer

-- Neither side has to do with those two.
apart :
    {R W : Type 0}
    → (calls : SenderCalls) (r : ReceiverCalls R W) (sends : Bool)
    → (side_keeps calls r sends key_log ≡ false) × (side_keeps calls r sends listener ≡ false)
apart calls r true = (refl, refl)
apart calls r false = (refl, refl)

module _ {C K D L N P J R W : Type 0} (y : Crypto C K D) (u : Quic C L N) (n : Pion P J R)
    (unknown_codec : Error) (calls : SenderCalls) (r : ReceiverCalls R W) where
  runs-Keeps :
      (x : Resource) (f : Flags) (sends : Bool)
      → Keeps x
          (side_keeps calls r sends x)
          (acquired conn (if sends then run_sender calls else run_receiver n unknown_codec r f))
  runs-Keeps x f true = run_sender-Keeps calls x
  runs-Keeps x f false = run_receiver-Keeps n unknown_codec r x f

  on_connection-Keeps :
      (x : Resource) (f : Flags) (c : Connected N)
      → Keeps x (side_keeps calls r f.send x) (on_connection y u n unknown_codec calls r f c)
  unfolding Keeps Leaves
  on_connection-Keeps x f panics = refl
  on_connection-Keeps x f (not_connected e) = refl
  on_connection-Keeps x f (connected c) = runs-Keeps x f f.send

  runs-Leaves :
      (x : Resource) (f : Flags) (sends : Bool)
      → ltb (index x) 2 ≡ true
      → Leaves x true true
          (acquired conn (if sends then run_sender calls else run_receiver n unknown_codec r f))
  runs-Leaves x f true k = run_sender-Leaves calls x k
  runs-Leaves x f false k = run_receiver-Leaves n unknown_codec r x f k

  on_connection-Leaves :
      (x : Resource) (f : Flags) (c : Connected N)
      → ltb (index x) 2 ≡ true
      → Leaves x true true (on_connection y u n unknown_codec calls r f c)
  unfolding Leaves
  on_connection-Leaves x f panics k = refl
  on_connection-Leaves x f (not_connected e) k = refl
  on_connection-Leaves x f (connected c) k = runs-Leaves x f f.send k

  -- From `connect` on.
  abbrev listened : Bool → Flags → Connected N → Run
  listened b f c = with_listener b (on_connection y u n unknown_codec calls r f c)

  listened-Keeps :
      (x : Resource) (b : Bool) (f : Flags) (c : Connected N)
      → Keeps x (keeps calls r b f.send x) (listened b f c)
  listened-Keeps listener true f c =
      acquired-Keeps listener _ (on_connection-Leaves listener f c refl)
  listened-Keeps conn true f c =
      acquired_other-Keeps conn listener _ _ refl (on_connection-Keeps conn f c)
  listened-Keeps session true f c =
      acquired_other-Keeps session listener _ _ refl (on_connection-Keeps session f c)
  listened-Keeps flow true f c =
      acquired_other-Keeps flow listener _ _ refl (on_connection-Keeps flow f c)
  listened-Keeps process true f c =
      acquired_other-Keeps process listener _ _ refl (on_connection-Keeps process f c)
  listened-Keeps writer true f c =
      acquired_other-Keeps writer listener _ _ refl (on_connection-Keeps writer f c)
  listened-Keeps key_log true f c = acquired_other-Keeps key_log listener _ _ refl (
      subst (λ k. Keeps key_log k (on_connection y u n unknown_codec calls r f c))
        (apart calls r f.send).0 (on_connection-Keeps key_log f c))
  listened-Keeps listener false f c =
      subst (λ k. Keeps listener k (on_connection y u n unknown_codec calls r f c))
        (apart calls r f.send).1 (on_connection-Keeps listener f c)
  listened-Keeps key_log false f c =
      subst (λ k. Keeps key_log k (on_connection y u n unknown_codec calls r f c))
        (apart calls r f.send).0 (on_connection-Keeps key_log f c)
  listened-Keeps conn false f c = on_connection-Keeps conn f c
  listened-Keeps session false f c = on_connection-Keeps session f c
  listened-Keeps flow false f c = on_connection-Keeps flow f c
  listened-Keeps process false f c = on_connection-Keeps process f c
  listened-Keeps writer false f c = on_connection-Keeps writer f c

  listened-key_log :
      (b : Bool) (f : Flags) (c : Connected N) → Leaves key_log true true (listened b f c)
  listened-key_log true f c =
      acquired_other-Leaves key_log listener true true _ refl
        (on_connection-Leaves key_log f c refl)
  listened-key_log false f c = on_connection-Leaves key_log f c refl

  -- `defer keyLog.Close()` around what follows.
  in_log-Keeps :
      (x : Resource) (b : Bool) (f : Flags) (c : Connected N)
      → Keeps x (keeps calls r b f.send x) (scoped key_log (listened b f c))
  in_log-Keeps listener b f c =
      other-Keeps listener key_log _ _ refl (listened-Keeps listener b f c)
  in_log-Keeps conn b f c = other-Keeps conn key_log _ _ refl (listened-Keeps conn b f c)
  in_log-Keeps session b f c = other-Keeps session key_log _ _ refl (listened-Keeps session b f c)
  in_log-Keeps flow b f c = other-Keeps flow key_log _ _ refl (listened-Keeps flow b f c)
  in_log-Keeps process b f c = other-Keeps process key_log _ _ refl (listened-Keeps process b f c)
  in_log-Keeps writer b f c = other-Keeps writer key_log _ _ refl (listened-Keeps writer b f c)
  in_log-Keeps key_log b f c = own-Keeps key_log _ (listened-key_log b f c)

  -- Where the flags can be written as JSON.
  without_marshal-Keeps :
      (x : Resource) (f : Flags) (has_log : Bool)
      → Keeps x (keeps calls r (listens y u n unknown_codec calls r f has_log) f.send x) (
          acquired_file has_log (
            deferred_close has_log
              (listened (listens y u n unknown_codec calls r f has_log) f (connect y u f has_log))))
  without_marshal-Keeps x f true = in_log-Keeps x _ f _
  without_marshal-Keeps x f false = listened-Keeps x _ f _

  with_key_log-Keeps :
      (v : Environment) (f : Flags) (x : Resource) (err : Option Error) (has_log : Bool)
      → v.marshal f ≡ none
      → Keeps x
          (keeps calls r (listens y u n unknown_codec calls r f has_log) f.send x)
          (with_key_log y u n unknown_codec calls r v f (err, has_log))
  with_key_log-Keeps v f x err has_log m =
      let listening = listens y u n unknown_codec calls r f has_log in
      checked-Keeps x _ returns_error err _ (
        subst
          (λ o. Keeps x (keeps calls r listening f.send x) (
            acquired_file has_log (
              checked returns_error o
                (deferred_close has_log (listened listening f (connect y u f has_log))))))
          (sym m) (without_marshal-Keeps x f has_log))

  -- Where the flags can be written as JSON, which happens ahead of the `defer` for the key log,
  -- `setupAndRun` acquires nothing that it holds and releases nothing that it does not hold, however its
  -- calls end. At its end it holds, of what it acquired, just this: the server's listener; as the receiver,
  -- the connection where `NewSession` failed, and the writer where `NewReceiveFlow` failed; as the sender,
  -- the session and the connection unless `send` was reached and returned nil, the flow where
  -- `NewSendStream` of the single-stream mode failed, and ffmpeg where its video had no reader, or where
  -- `send` returned nil and the session's `Close` did not. A `Close` of the session counts for its
  -- connection too.
  pub setup_and_run-Keeps :
      (v : Environment) (c : CommandLine) (x : Resource)
      → v.marshal (parse_flags c) ≡ none
      → let has_log = (get_ssl_key_log v.ssl_key_log_file v.create).1 in
        let listening = listens y u n unknown_codec calls r (parse_flags c) has_log in
        Keeps x
          (keeps calls r listening (parse_flags c).send x)
          (setup_and_run y u n unknown_codec calls r v c)
  unfolding setup_and_run
  setup_and_run-Keeps v c x m = with_key_log-Keeps v (parse_flags c) x _ _ m
