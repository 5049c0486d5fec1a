-- ===== src/SendFlow/Tests.antt =====
-- Tests of send_flow.go on a flow with one stream.
use roq.Common.{◌≡◌, refl, true, none, some, [], ◌∷◌, ◌++◌}
use roq.Errors.{closed}
use roq.SendFlow.{SendFlow, OpenedStream, opened, open_send_stream, add_stream, close}
use roq.SendFlow.Laws.{close_misses_new_stream}

abbrev one_stream : SendFlow
one_stream = record { id = 5; flow_id = 5 ∷ []; streams = 1 ∷ []; closed_err = none; qlog = none }

abbrev second : OpenedStream
second = record { address = 2; stream_id = 6; takes_priority = true }

close_misses_new_stream_example :
    let made = open_send_stream one_stream (opened second) 3 true in
    let shut = close (λ s. none) one_stream in
    let f' = add_stream shut.self 2 in
    (made.stream ≡ opened second)
    × (shut.closed_streams ≡ one_stream.streams)
    × (f'.streams ≡ one_stream.streams ++ (2 ∷ []))
    × (f'.closed_err ≡ some closed)
close_misses_new_stream_example = close_misses_new_stream (λ s. none) one_stream second 3 true refl
