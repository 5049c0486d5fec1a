-- ===== src/Interop/Main.antt =====
-- examples/interop/main.go: the TLS configuration and the connection, and the writer that buffers. What the program calls of Go's packages, of quic-go and of the operating system is a parameter.
pub mod Tls
mod Tests
use Prim.Native.String.{String}
use roq.Common.{
  ℕ, ◌+◌, ◌≡◌, Bool, true, false, Option, none, some, List, [], ◌∷◌, ◌++◌, length, if◌then◌else◌,
}
use roq.Common.Int.{ℤ}
use roq.Errors.{Error}
use roq.Quicvarint.{Bytes}

-- A value or an error, where Go returns both.
pub data Result (A : Type 0) : Type 0 where
  ok : A → Result A
  fails : Error → Result A

-- `tls.Config`, of which the program sets these fields.
pub record TlsConfig (C : Type 0) : Type 0 where
  pub certificates : List C
  pub insecure_skip_verify : Bool
  pub next_protos : List String
  pub key_log : Bool

-- The certificates: `tls.LoadX509KeyPair`, `rsa.GenerateKey`, `x509.CreateCertificate` for the key, and
-- `tls.X509KeyPair` of both, encoded.
pub record Crypto (C K D : Type 0) : Type 0 where
  pub load_key_pair : String → String → Result C
  pub generate_key : Result K
  pub create_certificate : K → Result D
  pub key_pair : D → K → Result C

abbrev pub server_config : {C : Type 0} → Bool → C → TlsConfig C
server_config key_log cert = record {
  certificates = cert ∷ [];
  insecure_skip_verify = false;
  next_protos = "roq-09" ∷ [];
  key_log = key_log;
}

abbrev pub configured : {C : Type 0} → Bool → Result C → Result (TlsConfig C)
configured key_log (ok cert) = ok (server_config key_log cert)
configured key_log (fails e) = fails e

module _ {C K D : Type 0} (y : Crypto C K D) where
  unfoldable pub generate_tls_config_with_cert_and_key :
      String → String → Bool → Result (TlsConfig C)
  generate_tls_config_with_cert_and_key cert_file key_file key_log =
      configured key_log (y.load_key_pair cert_file key_file)

  abbrev pub with_certificate : Bool → K → Result D → Result (TlsConfig C)
  with_certificate key_log key (fails e) = fails e
  with_certificate key_log key (ok der) = configured key_log (y.key_pair der key)

  abbrev pub with_key : Bool → Result K → Result (TlsConfig C)
  with_key key_log (fails e) = fails e
  with_key key_log (ok key) = with_certificate key_log key (y.create_certificate key)

  unfoldable pub generate_tls_config_with_new_cert : Bool → Result (TlsConfig C)
  generate_tls_config_with_new_cert key_log = with_key key_log y.generate_key

  abbrev pub or_new_cert : Bool → Result (TlsConfig C) → Result (TlsConfig C)
  or_new_cert key_log (ok config) = ok config
  or_new_cert key_log (fails e) = generate_tls_config_with_new_cert key_log

  unfoldable pub generate_tls_config : String → String → Bool → Result (TlsConfig C)
  generate_tls_config cert_file key_file key_log =
      or_new_cert key_log (generate_tls_config_with_cert_and_key cert_file key_file key_log)

-- `flags`, where the mode is an `int`, as `datagram_mode` and the others of Sender.
pub record Flags : Type 0 where
  pub server : Bool
  pub send : Bool
  pub cert : String
  pub key : String
  pub addr : String
  pub destination : String
  pub source : String
  pub codec : String
  pub mode : ℤ

-- quic-go: a listener or an error, what it accepts, and a connection that is dialled.
pub record Quic (C L N : Type 0) : Type 0 where
  pub listen_addr : String → TlsConfig C → Result L
  pub accept : L → Result N
  pub dial_addr : String → TlsConfig C → Result N

-- What `connect` comes to; to set a field of a nil configuration is a panic.
pub data Connected (N : Type 0) : Type 0 where
  connected : N → Connected N
  not_connected : Error → Connected N
  panics : Connected N

abbrev pub returned : {N : Type 0} → Result N → Connected N
returned (ok conn) = connected conn
returned (fails e) = not_connected e

module _ {C K D L N : Type 0} (y : Crypto C K D) (u : Quic C L N) where
  abbrev pub accepted : Result L → Connected N
  accepted (fails e) = not_connected e
  accepted (ok listener) = returned (u.accept listener)

  -- The server's part: the field is set ahead of the test of the error.
  abbrev pub serve : Flags → Result (TlsConfig C) → Connected N
  serve f (fails e) = panics
  serve f (ok config) =
      accepted (u.listen_addr f.addr (record config { insecure_skip_verify = true }))

  abbrev pub connect_as : Flags → Bool → Bool → Connected N
  connect_as f key_log true = serve f (generate_tls_config y f.cert f.key key_log)
  connect_as f key_log false = returned (
      u.dial_addr f.addr (record {
        certificates = [];
        insecure_skip_verify = true;
        next_protos = "roq-09" ∷ [];
        key_log = key_log;
      }))

  unfoldable pub connect : Flags → Bool → Connected N
  connect f key_log = connect_as f key_log f.server

-- `bufio.Writer` and `io.Closer`: `Write` returns a count and an error or nil.
pub record BufferedWriter (W : Type 0) : Type 0 where
  pub write : W → Bytes → W × ℕ × Option Error
  pub flush : W → W × Option Error
  pub close : W → W × Option Error

module _ {W : Type 0} (b : BufferedWriter W) where
  -- `bufferedWriteCloser.Write`, which puts a record separator, U+001E, ahead of the bytes.
  unfoldable pub write : W → Bytes → W × ℕ × Option Error
  write w p = b.write w (30 ∷ p)

  abbrev pub close_flushed : W × Option Error → W × Option Error
  close_flushed (w, some e) = (w, some e)
  close_flushed (w, none) = b.close w

  -- `bufferedWriteCloser.Close`
  unfoldable pub close : W → W × Option Error
  close w = close_flushed (b.flush w)
