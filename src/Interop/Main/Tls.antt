-- ===== src/Interop/Main/Tls.antt =====
-- The end of `connect` of examples/interop/main.go where there is no certificate, and the count of its
-- buffered writer.
use roq.Common.{◌<◌, ◌≡◌, ◌≢◌, ◌↔◌, refl, Bool, true, false, ◌∷◌, length, arith}
use mathlib.Core.Bool.{false≢true}
use roq.Quicvarint.{Bytes}
use roq.Interop.Main.{
  Result, ok, fails, TlsConfig, Crypto, configured, generate_tls_config_with_cert_and_key,
  generate_tls_config_with_new_cert, or_new_cert, generate_tls_config, Flags, Quic, panics,
  returned, accepted, serve, connect_as, connect, BufferedWriter, write,
}

-- The call came back with an error.
abbrev pub Failed : {A : Type 0} → Result A → Type 0
Failed (ok a) = ⊥
Failed (fails e) = Unit

returned-ne-panics : {N : Type 0} → (r : Result N) → returned r ≢ panics
returned-ne-panics (ok n) = λ p. cc
returned-ne-panics (fails e) = λ p. cc

module _ {C K D L N : Type 0} (y : Crypto C K D) (u : Quic C L N) where
  configured-Failed : (key_log : Bool) (r : Result C) → Failed (configured key_log r) ↔ Failed r
  configured-Failed key_log (ok c) = (λ h. h, λ h. h)
  configured-Failed key_log (fails e) = (λ h. h, λ h. h)

  or_new_cert-Failed :
      (key_log : Bool) (r : Result (TlsConfig C))
      → Failed (or_new_cert y key_log r)
        ↔ (Failed r × Failed (generate_tls_config_with_new_cert y key_log))
  or_new_cert-Failed key_log (ok c) = (λ h. absurd h, λ h. h.0)
  or_new_cert-Failed key_log (fails e) = (λ h. (tt, h), λ h. h.1)

  accepted-ne-panics : (r : Result L) → accepted y u r ≢ panics
  accepted-ne-panics (ok l) = returned-ne-panics (u.accept l)
  accepted-ne-panics (fails e) = λ p. cc

  serve-panics : (f : Flags) (r : Result (TlsConfig C)) → (serve y u f r ≡ panics) ↔ Failed r
  serve-panics f (ok c) = (λ h. absurd (accepted-ne-panics _ h), λ h. absurd h)
  serve-panics f (fails e) = (λ h. tt, λ h. refl)

  connect_as-panics :
      (f : Flags) (key_log server : Bool)
      → (connect_as y u f key_log server ≡ panics) ↔ (
          (server ≡ true)
          × Failed (y.load_key_pair f.cert f.key)
          × Failed (generate_tls_config_with_new_cert y key_log))
  unfolding generate_tls_config generate_tls_config_with_cert_and_key
  connect_as-panics f key_log false =
      (λ h. absurd (returned-ne-panics _ h), λ h. absurd (false≢true h.0))
  connect_as-panics f key_log true =
      let loaded = y.load_key_pair f.cert f.key in
      let both = or_new_cert-Failed key_log (configured key_log loaded) in
      let panic = serve-panics f (or_new_cert y key_log (configured key_log loaded)) in
      let load = configured-Failed key_log loaded in
      (
        λ h. (let (no_file, no_new) = both.0 (panic.0 h) in (refl, load.0 no_file, no_new)),
        λ h. panic.1 (both.1 (load.1 h.1, h.2)),
      )

  -- `connect` panics exactly where the program is a server that could neither load the key pair from its
  -- files nor make a certificate of its own.
  pub connect-panics :
      (f : Flags) (key_log : Bool)
      → (connect y u f key_log ≡ panics) ↔ (
          (f.server ≡ true)
          × Failed (y.load_key_pair f.cert f.key)
          × Failed (generate_tls_config_with_new_cert y key_log))
  unfolding connect
  connect-panics f key_log = connect_as-panics f key_log f.server

-- A buffered writer that takes all it is given: `Write` returns more than the number of bytes that it
-- was called with, which io.Writer does not allow.
pub write_counts_separator :
    {W : Type 0}
    → (b : BufferedWriter W) (w : W) (p : Bytes)
    → ((v : W) (x : Bytes) → (b.write v x).1 ≡ length x)
    → length p < (write b w p).1
unfolding write
write_counts_separator b w p takes_all = omega (arith, takes_all w (30 ∷ p))
