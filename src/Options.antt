-- ===== src/Options.antt =====
-- options.go: the configuration of a session, and `newQlogger` of session.go, which reads it.
pub mod Settings
mod Tests
use roq.Common.{ℕ, Bool, true, false, not, ◌||◌, Option, none, some, List, [], ◌∷◌, if◌then◌else◌}
use roq.Common.Int.{ℤ, pos, leb_ℤ, ltb_ℤ}
use roq.Errors.{Error, invalid_option}
use roq.Qlogger.{Qlogger}

abbrev pub default_receive_buffer_size : ℤ
default_receive_buffer_size = pos 1024

abbrev pub default_unknown_flow_buffer_size : ℤ
default_unknown_flow_buffer_size = pos 16

-- A qlog trace of quic-go, and whether it was created with the RoQ event schema.
pub record Trace : Type 0 where
  pub trace_id : ℕ
  pub supports_roq : Bool

-- A pointer that may be nil is an `Option`. A logger is its identity; `discard_logger` makes number 0.
pub record SessionConfig : Type 0 where
  pub receive_buffer_size : ℤ
  pub unknown_flow_buffer_size : ℤ
  pub logger : Option ℕ
  pub qlog_trace : Option Trace
  pub qlog_packet_data : Bool
  pub qlog_packet_data_limit : ℤ

abbrev pub discard_logger : Option ℕ
discard_logger = some 0

-- The configuration, or the error that an option returned.
pub data Configured : Type 0 where
  applied : SessionConfig → Configured
  refused : Error → Configured

abbrev pub SessionOption : Type 0
SessionOption = SessionConfig → Configured

abbrev pub default_config : SessionConfig
default_config = record {
  receive_buffer_size = default_receive_buffer_size;
  unknown_flow_buffer_size = default_unknown_flow_buffer_size;
  logger = discard_logger;
  qlog_trace = none;
  qlog_packet_data = false;
  qlog_packet_data_limit = pos 0;
}

-- The loop over the options from `c` on. A nil option is an error.
unfoldable pub apply_all : SessionConfig → List (Option SessionOption) → Configured
apply_all c [] = applied c
apply_all c (none ∷ opts) = refused invalid_option
apply_all c (some opt ∷ opts) = elim (opt c) [
  | applied c' ↦ apply_all c' opts
  | refused e ↦ refused e
]

unfoldable pub new_session_config : List (Option SessionOption) → Configured
unfolding apply_all
new_session_config opts = apply_all default_config opts

unfoldable pub with_receive_buffer_size : ℤ → SessionOption
with_receive_buffer_size packets c =
    if leb_ℤ packets (pos 0)
    then refused invalid_option
    else applied (record c { receive_buffer_size = packets })

unfoldable pub with_unknown_flow_buffer_size : ℤ → SessionOption
with_unknown_flow_buffer_size flows c =
    if leb_ℤ flows (pos 0)
    then refused invalid_option
    else applied (record c { unknown_flow_buffer_size = flows })

unfoldable pub with_qlog_trace : Option Trace → SessionOption
with_qlog_trace t c = applied (record c { qlog_trace = t })

unfoldable pub with_qlog_packet_data : ℤ → SessionOption
with_qlog_packet_data max_bytes c =
    if ltb_ℤ max_bytes (pos 0)
    then refused invalid_option
    else applied (record c { qlog_packet_data = true; qlog_packet_data_limit = max_bytes })

unfoldable pub with_logger : Option ℕ → SessionOption
with_logger none c = refused invalid_option
with_logger (some l) c = applied (record c { logger = some l })

qlogger_for : SessionConfig → Option Trace → Option Qlogger
qlogger_for c none = none
qlogger_for c (some t) =
    if not t.supports_roq
    then none
    else some (record { log_data = c.qlog_packet_data; data_limit = c.qlog_packet_data_limit })

-- `conn_trace` is what `QlogTrace` of the connection returns, or nothing if it is no `QlogConnection`.
unfoldable pub new_qlogger : Option (Option Trace) → SessionConfig → Option Qlogger
unfolding qlogger_for
new_qlogger conn_trace c = elim c.qlog_trace [
  | some t ↦ qlogger_for c (some t)
  | none ↦ elim conn_trace [ none ↦ none | some t ↦ qlogger_for c t ]
]
