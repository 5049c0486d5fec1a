-- ===== src/Qlog/Tests.antt =====
-- Tests of qlog/event.go, with an encoder that collects the tokens.
use roq.Common.{◌≡◌, Option, none, List, [], ◌∷◌, ◌++◌}
use roq.Qlog.{Event, datagram_packet_parsed}
use roq.Qlog.Encode.{Token, encode_event}
use roq.Qlog.Encode.Json.{tokens, event_json, write_all, encode_event-write_all}

abbrev collect : List Token → Token → List Token × Option Token
collect ts t = (ts ++ (t ∷ []), none)

abbrev parsed_packet : Event
parsed_packet = datagram_packet_parsed (record {
  flow_id = 5;
  packet_length = 3;
  raw = record { length_on_wire = 3; payload_length = 2; raw_data = 171 ∷ [] };
})

encode_event-write_all_example :
    encode_event collect parsed_packet [] ≡ write_all collect (tokens (event_json parsed_packet)) []
encode_event-write_all_example = encode_event-write_all collect parsed_packet []
