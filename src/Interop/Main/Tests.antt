-- ===== src/Interop/Main/Tests.antt =====
-- examples/interop/main.go on a machine without certificates, and on one that makes its own.
use roq.Common.{ℕ, ◌≡◌, ◌↔◌, refl, true, false}
use roq.Common.Int.{pos}
use roq.Errors.{closed}
use roq.Interop.Main.{
  ok, fails, Crypto, Flags, Quic, connected, panics, generate_tls_config_with_new_cert,
  generate_tls_config_with_cert_and_key, generate_tls_config, connect,
}
use roq.Interop.Main.Tls.{Failed, connect-panics}

abbrev no_crypto : Crypto ℕ ℕ ℕ
no_crypto = record {
  load_key_pair = λ c k. fails closed;
  generate_key = fails closed;
  create_certificate = λ k. ok k;
  key_pair = λ d k. ok d;
}

abbrev quic : Quic ℕ ℕ ℕ
quic = record { listen_addr = λ a c. ok 1; accept = λ l. ok 7; dial_addr = λ a c. ok 8 }

abbrev server : Flags
server = record {
  server = true;
  send = false;
  cert = "localhost.pem";
  key = "localhost-key.pem";
  addr = ":8080";
  destination = "";
  source = "";
  codec = "vp8";
  mode = pos 0;
}

own_certificate : connect (record no_crypto { generate_key = ok 3 }) quic server true ≡ connected 7
unfolding connect generate_tls_config generate_tls_config_with_cert_and_key
    generate_tls_config_with_new_cert
own_certificate = refl

connect-panics_example : (connect no_crypto quic server true ≡ panics) ↔ (
    (server.server ≡ true)
    × Failed (no_crypto.load_key_pair server.cert server.key)
    × Failed (generate_tls_config_with_new_cert no_crypto true))
connect-panics_example = connect-panics no_crypto quic server true
