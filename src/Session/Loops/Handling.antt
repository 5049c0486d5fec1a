-- ===== src/Session/Loops/Handling.antt =====
-- `HandleDatagram` of session.go, where the application calls it on a session beside its goroutines.
use mathlib.Core.Option.{some-injective, none-ne-some}
use roq.Common.{ℕ, ◌≡◌, sym, ◌∙◌, Option, none, some, List, [], ◌++◌, length, ◌-◌, drop, append-nil}
use mathlib.Core.Path.{subst}
use roq.Errors.{err_roq_packet_error}
use roq.Qlog.{Event, datagram_packet_parsed}
use roq.Qlogger.{Qlogger, raw_data, recorded}
use roq.Quicvarint.{Bytes, Quicvarint}
use roq.Session.{Session}
use roq.Session.Shutdown.{Transport}
use roq.Session.Incoming.{receive_flow, push_packet, handle_parsed, handle_datagram}
use roq.Session.Datagrams.{logged}
use roq.Session.Loops.Quiet.{SameProducer, Quiet, Leaves, close-Quiet, receive_flow-Leaves}

-- The events that `HandleDatagram` records, by what `Parse` returned.
abbrev pub parsed_events : Option Qlogger → Bytes → Option (ℕ × ℕ) → List Event
parsed_events l d none = []
parsed_events l d (some (id, n)) = recorded l (λ l. datagram_packet_parsed (record {
  flow_id = id;
  packet_length = length d;
  raw = record {
    length_on_wire = length d;
    payload_length = length d - n;
    raw_data = raw_data l d;
  };
}))

abbrev pub datagram_events : Quicvarint → Session → Bytes → List Event
datagram_events q s d = parsed_events s.qlog d (q.parse d)

-- The producer is left alone, and just these events are recorded.
pub record Records (s : Session) (es : List Event) (s' : Session) : Type 0 where
  pub same : SameProducer s s'
  pub events : s'.events ≡ s.events ++ es

push_packet-Records :
    (s s' : Session) (es : List Event) (choice : ℕ) (packet : Bytes) (o : Option (Session × ℕ))
    → Leaves (Records s es) o
    → push_packet choice packet o ≡ some s'
    → Records s es s'
unfolding push_packet
push_packet-Records s s' es choice packet none h e = absurd (none-ne-some s' e)
push_packet-Records s s' es choice packet (some (s1, r)) h e =
    subst (Records s es) (some-injective _ _ e) (record {
      same = record {
        shut = h.same.shut;
        ended = h.same.ended;
        closes = h.same.closes;
        once = h.same.once;
      };
      events = h.events;
    })

logged-Records :
    {A : Type 0}
    → (s : Session) (d : Bytes) (id n : ℕ) (o : Option (Session × A))
    → Leaves (Quiet (logged s d id n)) o
    → Leaves (Records s (parsed_events s.qlog d (some (id, n)))) o
logged-Records s d id n none h = tt
logged-Records s d id n (some (s1, x)) h = record {
  same = record {
    shut = h.same.shut;
    ended = h.same.ended;
    closes = h.same.closes;
    once = h.same.once;
  };
  events = h.events;
}

handle_parsed-Records :
    (q : Quicvarint) (t : Transport) (choice : ℕ) (s s' : Session) (d : Bytes) (o : Option (ℕ × ℕ))
    → handle_parsed q t choice s d o ≡ some s'
    → Records s (parsed_events s.qlog d o) s'
handle_parsed-Records q t choice s s' d none e =
    let c = close-Quiet t s err_roq_packet_error "invalid flow ID" in
    subst (Records s []) (some-injective _ _ e)
      (record { same = c.same; events = c.events ∙ sym (append-nil s.events) })
handle_parsed-Records q t choice s s' d (some (id, n)) e =
    let s1 = logged s d id n in
    push_packet-Records s s' (parsed_events s.qlog d (some (id, n))) choice (drop (q.len id) d)
      (receive_flow s1 id)
      (logged-Records s d id n (receive_flow s1 id) (receive_flow-Leaves s1 id)) e

pub handle_datagram-Records :
    (q : Quicvarint) (t : Transport) (choice : ℕ) (s s' : Session) (d : Bytes)
    → handle_datagram q t choice s d ≡ some s'
    → Records s (datagram_events q s d) s'
unfolding handle_datagram
handle_datagram-Records q t choice s s' d e = handle_parsed-Records q t choice s s' d (q.parse d) e
