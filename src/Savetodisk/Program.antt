-- ===== src/Savetodisk/Program.antt =====
-- examples/savetodisk/main.go: `main` around its loop, with its TLS configuration. What it calls of Go's
-- packages, of quic-go, pion and the session is a parameter.
pub mod Releases
use Prim.Native.String.{String}
use roq.Common.{ℕ, Bool, false, Option, none, some, List, [], ◌∷◌}
use roq.Common.Acts.{
  Resource, listener, conn, flow, writer, Outcome, returns, panics, Run, stops, acquired, scoped,
  session_scoped,
}
use roq.Errors.{Error}
use roq.Quicvarint.{Bytes}
use roq.ReceiveFlow.{ReceiveFlow}
use roq.Interop.Main.{Result, ok, fails, TlsConfig, server_config}
use roq.Savetodisk.{Ending, logged, panicked, reading, Saved, save_loop}

-- `generateTLSConfigWithCertAndKey`, by what `tls.LoadX509KeyPair` answers; it sets no key log.
abbrev pub generate_tls_config : {C : Type 0} → Result C → Result (TlsConfig C)
generate_tls_config (ok cert) = ok (server_config false cert)
generate_tls_config (fails e) = fails e

-- What the calls ahead of the loop answer. `C` is a certificate, `L` a listener and `R` the file's writer.
pub record Calls (C L R : Type 0) : Type 0 where
  pub load_key_pair : Result C
  pub listen_addr : TlsConfig C → Result L
  pub accept : L → Option Error
  pub new_session : Option Error
  pub new_receive_flow : Option Error
  pub new_writer : Result R

-- `if err != nil { panic(err) }`, and then the rest.
abbrev pub or_panics : Option Error → Option Run → Option Run
or_panics (some e) rest = some (stops (panics e))
or_panics none rest = rest

abbrev pub scoped_run : Resource → Option Run → Option Run
scoped_run x none = none
scoped_run x (some rest) = some (scoped x rest)

abbrev pub acquired_run : Resource → Option Run → Option Run
acquired_run x none = none
acquired_run x (some rest) = some (acquired x rest)

abbrev pub session_run : Option Run → Option Run
session_run none = none
session_run (some rest) = some (session_scoped rest)

-- `main` has not ended where its `Read` has not returned.
abbrev pub end_of : Ending → Option Run
end_of (logged e) = some (stops (returns none))
end_of (panicked e) = some (stops (panics e))
end_of reading = none

module _ {C L P R : Type 0} (unmarshal : Bytes → Result P) (write_rtp : R → P → R × Option Error)
    (fuel : ℕ) (prefer_packet : Bool) (f : ReceiveFlow) (c : Calls C L R) where
  abbrev pub after_loop : Option (Saved P R) → Option Run
  after_loop none = none
  after_loop (some out) = end_of out.ending

  abbrev pub with_writer : Result R → Option Run
  with_writer (fails e) = some (stops (panics e))
  with_writer (ok w) =
      scoped_run writer (after_loop (save_loop unmarshal write_rtp fuel prefer_packet f w []))

  -- From the session on, on the connection.
  abbrev pub with_session : Option Error → Option Run
  with_session (some e) = some (stops (panics e))
  with_session none =
      session_run (or_panics c.new_receive_flow (scoped_run flow (with_writer c.new_writer)))

  -- Nothing closes the listener, and the connection is left to the session.
  abbrev pub with_listener : Result L → Option Run
  with_listener (fails e) = some (stops (panics e))
  with_listener (ok l) =
      acquired_run listener
        (or_panics (c.accept l) (acquired_run conn (with_session c.new_session)))

  abbrev pub with_config : Result (TlsConfig C) → Option Run
  with_config (fails e) = some (stops (panics e))
  with_config (ok config) = with_listener (c.listen_addr config)

  -- `f` is the flow that `NewReceiveFlow` returned; the loop runs on fuel.
  unfoldable pub main : Option Run
  main = with_config (generate_tls_config c.load_key_pair)
