-- ===== src/Options/Settings.antt =====
-- The options of options.go together: which are accepted, and what they make of the configuration.
use roq.Common.{
  ℕ, ◌≡◌, ◌≢◌, refl, sym, ◌∙◌, Bool, true, false, ◌&&◌, Option, none, some, List, [], ◌∷◌,
  if◌then◌else◌, arith, Bool-cases, inl, inr,
}
use roq.Common.Int.{ℤ, pos, leb_ℤ, ltb_ℤ, ◌<ℤ◌, ◌≤ℤ◌}
use mathlib.Core.Path.{subst}
use roq.Errors.{Error, invalid_option}
use roq.Options.{
  Trace, SessionConfig, applied, refused, SessionOption, default_config, apply_all,
  new_session_config, with_receive_buffer_size, with_unknown_flow_buffer_size, with_qlog_trace,
  with_qlog_packet_data, with_logger,
}

-- An option that the application passes: one of the package's, or nil.
pub data Setting : Type 0 where
  receive_buffer_size unknown_flow_buffer_size qlog_packet_data : ℤ → Setting
  qlog_trace : Option Trace → Setting
  logger : Option ℕ → Setting
  nil_option : Setting

abbrev pub option_of : Setting → Option SessionOption
option_of (receive_buffer_size n) = some (with_receive_buffer_size n)
option_of (unknown_flow_buffer_size n) = some (with_unknown_flow_buffer_size n)
option_of (qlog_packet_data n) = some (with_qlog_packet_data n)
option_of (qlog_trace t) = some (with_qlog_trace t)
option_of (logger l) = some (with_logger l)
option_of nil_option = none

abbrev pub options : List Setting → List (Option SessionOption)
options [] = []
options (s ∷ ss) = option_of s ∷ options ss

-- What the documentation of the options asks of their arguments.
abbrev pub is_allowed : Setting → Bool
is_allowed (receive_buffer_size n) = ltb_ℤ (pos 0) n
is_allowed (unknown_flow_buffer_size n) = ltb_ℤ (pos 0) n
is_allowed (qlog_packet_data n) = leb_ℤ (pos 0) n
is_allowed (qlog_trace t) = true
is_allowed (logger none) = false
is_allowed (logger (some l)) = true
is_allowed nil_option = false

abbrev pub all_allowed : List Setting → Bool
all_allowed [] = true
all_allowed (s ∷ ss) = is_allowed s && all_allowed ss

abbrev pub configure : SessionConfig → Setting → SessionConfig
configure c (receive_buffer_size n) = record c { receive_buffer_size = n }
configure c (unknown_flow_buffer_size n) = record c { unknown_flow_buffer_size = n }
configure c (qlog_packet_data n) = record c { qlog_packet_data = true; qlog_packet_data_limit = n }
configure c (qlog_trace t) = record c { qlog_trace = t }
configure c (logger l) = record c { logger = l }
configure c nil_option = c

abbrev pub configure_all : SessionConfig → List Setting → SessionConfig
configure_all c [] = c
configure_all c (s ∷ ss) = configure_all (configure c s) ss

apply_all-options :
    (c : SessionConfig) (ss : List Setting)
    → apply_all c (options ss)
      ≡ (if all_allowed ss then applied (configure_all c ss) else refused invalid_option)
unfolding apply_all with_receive_buffer_size with_unknown_flow_buffer_size with_qlog_packet_data
    with_qlog_trace with_logger
apply_all-options c [] = refl
apply_all-options c (receive_buffer_size n ∷ ss) =
    ground (arith, apply_all-options (configure c (receive_buffer_size n)) ss)
apply_all-options c (unknown_flow_buffer_size n ∷ ss) =
    ground (arith, apply_all-options (configure c (unknown_flow_buffer_size n)) ss)
apply_all-options c (qlog_packet_data n ∷ ss) =
    ground (arith, apply_all-options (configure c (qlog_packet_data n)) ss)
apply_all-options c (qlog_trace t ∷ ss) = apply_all-options (configure c (qlog_trace t)) ss
apply_all-options c (logger none ∷ ss) = refl
apply_all-options c (logger (some l) ∷ ss) = apply_all-options (configure c (logger (some l))) ss
apply_all-options c (nil_option ∷ ss) = refl

-- The options are accepted exactly when each is allowed, and then set their fields in order, the last
-- one winning; otherwise the session is refused with `errInvalidOption`.
pub new_session_config-options :
    (ss : List Setting)
    → new_session_config (options ss) ≡ (
        if all_allowed ss
        then applied (configure_all default_config ss)
        else refused invalid_option)
unfolding new_session_config
new_session_config-options ss = apply_all-options default_config ss

pub record ConfigValid (c : SessionConfig) : Type 0 where
  pub some_packets : pos 0 <ℤ c.receive_buffer_size
  pub some_flows : pos 0 <ℤ c.unknown_flow_buffer_size
  pub limit : pos 0 ≤ℤ c.qlog_packet_data_limit
  pub logs : c.logger ≢ none

configure-ConfigValid :
    (c : SessionConfig) (s : Setting)
    → is_allowed s ≡ true
    → ConfigValid c
    → ConfigValid (configure c s)
configure-ConfigValid c (receive_buffer_size n) h v = ground arith
configure-ConfigValid c (unknown_flow_buffer_size n) h v = ground arith
configure-ConfigValid c (qlog_packet_data n) h v = ground arith
configure-ConfigValid c (qlog_trace t) h v = ground arith
configure-ConfigValid c (logger none) h v = absurd (ground arith)
configure-ConfigValid c (logger (some l)) h v = record {
  some_packets = v.some_packets;
  some_flows = v.some_flows;
  limit = v.limit;
  logs = λ e. cc;
}
configure-ConfigValid c nil_option h v = v

configure_all-ConfigValid :
    (c : SessionConfig) (ss : List Setting)
    → all_allowed ss ≡ true
    → ConfigValid c
    → ConfigValid (configure_all c ss)
configure_all-ConfigValid c [] h v = v
configure_all-ConfigValid c (s ∷ ss) h v =
    configure_all-ConfigValid (configure c s) ss (ground arith)
      (configure-ConfigValid c s (ground arith) v)

default-ConfigValid : ConfigValid default_config
default-ConfigValid = record {
  some_packets = omega arith;
  some_flows = omega arith;
  limit = omega arith;
  logs = λ e. cc;
}

applied_same : {c d : SessionConfig} → applied c ≡ applied d → c ≡ d
applied_same e = ground arith

refused-ne-applied : {x : Error} {c : SessionConfig} → refused x ≢ applied c
refused-ne-applied e = cc

-- Every configuration that the options are accepted for has positive buffer sizes, a data limit that is
-- not negative, and a logger.
pub new_session_config-ConfigValid :
    (ss : List Setting) (c : SessionConfig)
    → new_session_config (options ss) ≡ applied c
    → ConfigValid c
new_session_config-ConfigValid ss c e = elim (Bool-cases (all_allowed ss)) [
  | inl ok ↦
      let same : configure_all default_config ss ≡ c =
        applied_same (sym (new_session_config-options ss ∙ rw ok) ∙ e) in
      subst ConfigValid same (configure_all-ConfigValid default_config ss ok default-ConfigValid)
  | inr bad ↦
      absurd
        (refused-ne-applied {x = invalid_option} (sym (new_session_config-options ss ∙ rw bad) ∙ e))
]
