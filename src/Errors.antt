-- ===== src/Errors.antt =====
-- errors.go: the RoQ error codes, the package's errors, and the errors of Go's io, os and context that
-- the code returns.
pub mod Text
use Prim.Native.String.{String}
use roq.Common.{ℕ}

-- The constants `ErrRoQNoError` to `ErrRoQExpectationUnmet`, counted by iota.
abbrev pub err_roq_no_error : ℕ
err_roq_no_error = 0

abbrev pub err_roq_general_error : ℕ
err_roq_general_error = 1

abbrev pub err_roq_internal_error : ℕ
err_roq_internal_error = 2

abbrev pub err_roq_packet_error : ℕ
err_roq_packet_error = 3

abbrev pub err_roq_stream_creation_error : ℕ
err_roq_stream_creation_error = 4

abbrev pub err_roq_frame_cancelled : ℕ
err_roq_frame_cancelled = 5

abbrev pub err_roq_unknown_flow_id : ℕ
err_roq_unknown_flow_id = 6

abbrev pub err_roq_expectation_unmet : ℕ
err_roq_expectation_unmet = 7

pub record SessionError : Type 0 where
  pub code : ℕ
  pub reason : String

-- `external` is an error of the QUIC connection or of one of its streams.
pub data Error : Type 0 where
  closed nil_connection invalid_option duplicate_flow_id : Error
  session_error : SessionError → Error
  short_write short_buffer deadline_exceeded canceled : Error
  external : ℕ → Error
