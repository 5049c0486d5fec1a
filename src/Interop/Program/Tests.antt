-- ===== src/Interop/Program/Tests.antt =====
-- examples/interop on the command lines of a sender and of a receiver.
use text.Mathlib.Text.{◌==◌}
use roq.Common.{ℕ, ◌≡◌, refl, true, none, some, [], ◌∷◌, if◌then◌else◌}
use roq.Common.Acts.{
  key_log, listener, conn, session, flow, process, writer, acquires, releases, returns, Keeps,
}
use roq.Errors.{closed, invalid_option}
use roq.Interop.Main.{
  ok, fails, Crypto, Quic, connect, generate_tls_config, generate_tls_config_with_cert_and_key,
}
use roq.Interop.FileWriter.{Pion, empty, new_file_writer}
use roq.Interop.Program.{
  CommandLine, parse_flags, SenderCalls, run_sender, ReceiverCalls, receive, run_receiver,
  Environment, get_ssl_key_log, listens, setup_and_run,
}
use roq.Interop.Program.Releases.{keeps, setup_and_run-Keeps}

abbrev crypto : Crypto ℕ ℕ ℕ
crypto = record {
  load_key_pair = λ c k. ok 1;
  generate_key = fails closed;
  create_certificate = λ k. ok k;
  key_pair = λ d k. ok d;
}

abbrev quic : Quic ℕ ℕ ℕ
quic = record { listen_addr = λ a c. ok 1; accept = λ l. ok 7; dial_addr = λ a c. ok 8 }

abbrev pion : Pion ℕ ℕ ℕ
pion = record {
  unmarshal = λ b. ok 0;
  new_buffer = 0;
  push = λ j p. j;
  pop = λ j. (j, empty);
  write_rtp = λ r p. (r, none);
  close = λ r. (r, none);
}

abbrev calls : SenderCalls
calls = record {
  new_sender = none;
  stdout_pipe = none;
  start = none;
  new_reader = none;
  new_send_flow = none;
  single_stream = none;
  send_frames = none;
  kill = none;
  close = none;
  wait = none;
}

abbrev reads : ReceiverCalls ℕ ℕ
reads = record {
  new_receiver = none;
  stdin_pipe = none;
  start = none;
  stdin = 1;
  new_ivf = λ name. ok 2;
  new_h264 = λ name. ok 2;
  new_ivf_with = λ w. ok w;
  new_h264_with = λ w. w;
  new_receive_flow = none;
  copy = some closed;
}

abbrev env : Environment
env = record { ssl_key_log_file = "keys.log"; create = λ name. none; marshal = λ f. none }

-- `-server -destination out.ivf`
abbrev receives : CommandLine
receives = record {
  bool = λ name. if name == "server" then some true else none;
  int = λ name. none;
  string = λ name. if name == "destination" then some "out.ivf" else none;
}

-- The receiver, until the copying ends on an error.
received : setup_and_run crypto quic pion invalid_option calls reads env receives ≡ record {
  acts =
      acquires key_log
      ∷ acquires listener
      ∷ acquires conn
      ∷ acquires session
      ∷ acquires writer
      ∷ acquires flow
      ∷ releases writer
      ∷ releases flow
      ∷ releases session
      ∷ releases conn
      ∷ releases key_log
      ∷ [];
  outcome = returns (some closed);
}
unfolding setup_and_run get_ssl_key_log parse_flags connect generate_tls_config
    generate_tls_config_with_cert_and_key run_receiver receive new_file_writer
received = refl

-- The sender, to whose stream nothing can be written.
failure_is_lost : run_sender (record calls { send_frames = some closed }) ≡ record {
  acts =
      acquires session ∷ acquires process ∷ acquires flow ∷ releases flow ∷ releases process ∷ [];
  outcome = returns none;
}
unfolding run_sender
failure_is_lost = refl

-- The sender, where ffmpeg's output is no video.
ffmpeg_is_left :
    run_sender (record calls { new_reader = some closed })
    ≡ record { acts = acquires session ∷ acquires process ∷ []; outcome = returns (some closed) }
unfolding run_sender
ffmpeg_is_left = refl

-- The sender in the single-stream mode, with a flow but no stream.
flow_is_left : run_sender (record calls { single_stream = some closed }) ≡ record {
  acts = acquires session ∷ acquires process ∷ acquires flow ∷ releases process ∷ [];
  outcome = returns none;
}
unfolding run_sender
flow_is_left = refl

abbrev no_flow : ReceiverCalls ℕ ℕ
no_flow = record reads { new_receive_flow = some closed }

setup_and_run-Keeps_example :
    let has_log = (get_ssl_key_log env.ssl_key_log_file env.create).1 in
    let listening =
      listens crypto quic pion invalid_option calls no_flow (parse_flags receives) has_log in
    Keeps writer
      (keeps calls no_flow listening (parse_flags receives).send writer)
      (setup_and_run crypto quic pion invalid_option calls no_flow env receives)
setup_and_run-Keeps_example =
    setup_and_run-Keeps crypto quic pion invalid_option calls no_flow env receives writer refl
