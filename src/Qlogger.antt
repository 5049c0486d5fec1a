-- ===== src/Qlogger.antt =====
-- qlogger.go: the recording of a session's qlog events. The recorder is quic-go's: what the code does
-- to it is the list of the events that it records, oldest first.
use roq.Common.{Bool, not, ◌&&◌, Option, none, some, List, [], ◌∷◌, length, take, if◌then◌else◌}
use roq.Common.Int.{ℤ, pos, pos_part, ltb_ℤ}
use roq.Quicvarint.{Bytes}
use roq.Qlog.{Event}

pub record Qlogger : Type 0 where
  pub log_data : Bool
  pub data_limit : ℤ

unfoldable pub raw_data : Qlogger → Bytes → Bytes
raw_data q b =
    if not q.log_data
    then []
    else if ltb_ℤ (pos 0) q.data_limit && ltb_ℤ q.data_limit (pos (length b))
    then take (pos_part q.data_limit) b
    else b

-- `if f.qlog != nil { f.qlog.record(event) }`: the events that this records.
abbrev pub recorded : Option Qlogger → (Qlogger → Event) → List Event
recorded none event = []
recorded (some q) event = event q ∷ []
