-- ===== src/Interop/Program.antt =====
-- examples/interop/main.go, receiver.go and ivf_frame_reader.go: the program from its flags to its end, with
-- what it acquires and releases. What it calls of Go's packages, of quic-go, pion and the operating system
-- is a parameter.
pub mod Sending
pub mod Sides
pub mod Releases
mod Tests
use Prim.Native.String.{String}
use text.Mathlib.Text.{◌==◌}
use roq.Common.{ℕ, Bool, true, false, Option, none, some, List, [], ◌∷◌, ◌++◌, if◌then◌else◌}
use roq.Common.Acts.{
  Act, acquires, releases, listener, conn, session_scoped, key_log, session, flow, process, writer,
  faults, Outcome, returns, Run, stops, acquired, released, scoped, deferred, checked,
  returns_error,
}
use roq.Common.Int.{ℤ}
use roq.Errors.{Error}
use roq.Quicvarint.{Bytes}
use roq.Interop.Main.{
  Result, ok, fails, Crypto, TlsConfig, generate_tls_config, Flags, Quic, Connected, connected,
  not_connected, panics, connect,
}
use roq.Interop.Sender.{datagram_mode}
use roq.Interop.FileWriter.{FileWriter, Pion, new_file_writer, new_ivf_writer_with}

-- Go's flag package: the value of a flag by its name, where the command line has it.
pub record CommandLine : Type 0 where
  pub bool : String → Option Bool
  pub int : String → Option ℤ
  pub string : String → Option String

abbrev pub or_default : {A : Type 0} → A → Option A → A
or_default value none = value
or_default value (some a) = a

unfoldable pub parse_flags : CommandLine → Flags
parse_flags c = record {
  server = or_default false (c.bool "server");
  send = or_default false (c.bool "send");
  cert = or_default "localhost.pem" (c.string "cert");
  key = or_default "localhost-key.pem" (c.string "key");
  addr = or_default "localhost:8080" (c.string "addr");
  destination = or_default "" (c.string "destination");
  source = or_default "" (c.string "source");
  codec = or_default "vp8" (c.string "codec");
  mode = or_default datagram_mode (c.int "mode");
}

-- What the calls of `runSender` return: of the session, of ffmpeg's process and of the reader of the frames;
-- and those in `send`: `NewSendFlow`, the `NewSendStream` of the single-stream mode, which is nil in the
-- others, and the loop over the frames.
pub record SenderCalls : Type 0 where
  pub new_sender : Option Error
  pub stdout_pipe : Option Error
  pub start : Option Error
  pub new_reader : Option Error
  pub new_send_flow : Option Error
  pub single_stream : Option Error
  pub send_frames : Option Error
  pub kill : Option Error
  pub close : Option Error
  pub wait : Option Error

-- The arguments of ffmpeg.
abbrev pub ffmpeg_args : String → List String
ffmpeg_args source =
    let rest = "-b:v" ∷ "1M" ∷ "-f" ∷ "ivf" ∷ "-" ∷ [] in
    let pattern =
      "-v" ∷ "debug" ∷ "-re" ∷ "-f" ∷ "lavfi" ∷ "-i" ∷ "testsrc=duration=10" ∷ "-g" ∷ "30" ∷ rest in
    let video = "-v" ∷ "debug" ∷ "-re" ∷ "-i" ∷ source ∷ rest in
    if source == "" then pattern else video

-- What `send` returns, and what it does to its flow, which it closes by a `defer` behind `NewSendStream`.
abbrev pub send_calls : Option Error → Option Error → Option Error → Option Error × List Act
send_calls (some e) single_stream send_frames = (some e, [])
send_calls none (some e) send_frames = (some e, acquires flow ∷ [])
send_calls none none send_frames = (send_frames, acquires flow ∷ releases flow ∷ [])

abbrev pub sends : SenderCalls → Option Error × List Act
sends r = send_calls r.new_send_flow r.single_stream r.send_frames

-- A call, which does these acts, and then the rest.
abbrev pub after_call : List Act → Run → Run
after_call acts rest = record rest { acts = acts ++ rest.acts }

-- The end of `runSender`, by what `send` returned.
abbrev pub after_send : SenderCalls → Option Error → Run
after_send r (some e) = released process (stops (returns r.kill))
after_send r none =
    released session
      (released conn (checked returns_error r.close (released process (stops (returns r.wait)))))

unfoldable pub run_sender : SenderCalls → Run
run_sender r = checked returns_error r.new_sender (
    acquired session (
      checked returns_error r.stdout_pipe (
        checked returns_error r.start (
          acquired process (
            checked returns_error r.new_reader
              (after_call (sends r).1 (after_send r (sends r).0)))))))

-- What the calls of `runReceiver` and `receive` return; the writers of the codecs, by the name of a file, and
-- on ffplay's standard input.
pub record ReceiverCalls (R W : Type 0) : Type 0 where
  pub new_receiver : Option Error
  pub stdin_pipe : Option Error
  pub start : Option Error
  pub stdin : W
  pub new_ivf : String → Result R
  pub new_h264 : String → Result R
  pub new_ivf_with : W → Result R
  pub new_h264_with : W → R
  pub new_receive_flow : Option Error
  pub copy : Option Error

module _ {P J R W : Type 0} (n : Pion P J R) (unknown_codec : Error) (r : ReceiverCalls R W) where
  -- `receiver.receive`, to whose `Close` of the writer nothing is added if it is not reached.
  unfoldable pub receive : Run
  receive =
      checked returns_error r.new_receive_flow
        (scoped flow (deferred writer (stops (returns r.copy))))

  abbrev pub receive_in : Result (FileWriter J R) → Run
  receive_in (fails e) = stops (returns (some e))
  receive_in (ok w) = acquired writer receive

  -- The two ways of `runReceiver` to a writer.
  abbrev pub to_file : Flags → Run
  to_file f =
      receive_in (new_file_writer n unknown_codec r.new_ivf r.new_h264 f.destination f.codec)

  abbrev pub to_player : Flags → Run
  to_player f = checked returns_error r.stdin_pipe (
      checked returns_error r.start (
        scoped process (
          receive_in
            (new_ivf_writer_with n unknown_codec r.new_ivf_with r.new_h264_with r.stdin f.codec))))

  unfoldable pub run_receiver : Flags → Run
  run_receiver f =
      checked returns_error r.new_receiver
        (session_scoped (if f.destination == "" then to_player f else to_file f))

-- `getSSLKeyLog`, by the environment's SSLKEYLOGFILE and what `os.Create` answers: the error, and whether
-- there is a file.
abbrev pub created : Option Error → Option Error × Bool
created none = (none, true)
created (some e) = (some e, false)

unfoldable pub get_ssl_key_log : String → (String → Option Error) → Option Error × Bool
get_ssl_key_log filename create =
    if filename == "" then (none, false) else created (create filename)

-- The surroundings of `setupAndRun`.
pub record Environment : Type 0 where
  pub ssl_key_log_file : String
  pub create : String → Option Error
  pub marshal : Flags → Option Error

abbrev pub deferred_close : Bool → Run → Run
deferred_close true rest = deferred key_log rest
deferred_close false rest = rest

abbrev pub with_listener : Bool → Run → Run
with_listener true rest = acquired listener rest
with_listener false rest = rest

abbrev pub acquired_file : Bool → Run → Run
acquired_file true rest = acquired key_log rest
acquired_file false rest = rest

module _ {C K D L N P J R W : Type 0} (y : Crypto C K D) (u : Quic C L N) (n : Pion P J R)
    (unknown_codec : Error) (calls : SenderCalls) (r : ReceiverCalls R W) where
  abbrev pub listener_of : Result L → Bool
  listener_of (fails e) = false
  listener_of (ok l) = true

  abbrev pub listens_with : Flags → Result (TlsConfig C) → Bool
  listens_with f (fails e) = false
  listens_with f (ok config) =
      listener_of (u.listen_addr f.addr (record config { insecure_skip_verify = true }))

  -- Whether `connect` comes to a listener, which nothing closes.
  abbrev pub listens : Flags → Bool → Bool
  listens f has_log =
      if f.server then listens_with f (generate_tls_config y f.cert f.key has_log) else false

  abbrev pub on_connection : Flags → Connected N → Run
  on_connection f panics = stops faults
  on_connection f (not_connected e) = stops (returns (some e))
  on_connection f (connected n_conn) =
      acquired conn (if f.send then run_sender calls else run_receiver n unknown_codec r f)

  abbrev pub with_key_log : Environment → Flags → Option Error × Bool → Run
  with_key_log v f (err, has_log) = checked returns_error err (
      acquired_file has_log (
        checked returns_error (v.marshal f) (
          deferred_close has_log
            (with_listener (listens f has_log) (on_connection f (connect y u f has_log))))))

  unfoldable pub setup_and_run : Environment → CommandLine → Run
  setup_and_run v c = with_key_log v (parse_flags c) (get_ssl_key_log v.ssl_key_log_file v.create)
