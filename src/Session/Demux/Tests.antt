-- ===== src/Session/Demux/Tests.antt =====
-- session.go with datagrams of two flows and one without a flow ID.
use roq.Common.{◌≡◌, refl, true, none, some, List, [], ◌∷◌, ◌++◌, take, arith}
use roq.Common.Chan.{make_chan}
use roq.Common.GoMap.{lookup, insert}
use roq.Common.Int.{pos}
use roq.Quicvarint.{Bytes}
use roq.Quicvarint.Rfc.{rfc, parse, encoded_len}
use roq.Options.Settings.{unknown_flow_buffer_size}
use roq.ReceiveFlow.{new_receive_flow}
use roq.ReceiveFlow.Queue.{packets, IsOpen}
use roq.ReceiveFlowBuffer.{new_receive_flow_buffer, pop}
use roq.SyncMap.{get, set, new_sync_map}
use roq.Session.{Session, new_session, new_receive_flow_of}
use roq.Session.Incoming.{handle_datagrams}
use roq.Session.Life.{born, then_step, ask_receive_flow}
use roq.Session.Sample.{busy, calm, created, created_made}
use roq.Session.Demux.ByFlow.{for_flow}
use roq.Session.Demux.Life.{session_sorts_datagrams}

abbrev asked : Session
asked = (new_receive_flow_of created 5).0

abbrev datagrams : List Bytes
datagrams = (5 ∷ 7 ∷ 8 ∷ []) ∷ (6 ∷ 9 ∷ []) ∷ (5 ∷ 1 ∷ []) ∷ [] ∷ (5 ∷ 2 ∷ []) ∷ []

sorted_out : for_flow rfc 5 datagrams ≡ (7 ∷ 8 ∷ []) ∷ (1 ∷ []) ∷ []
unfolding for_flow parse encoded_len
sorted_out = refl

asked_IsOpen : IsOpen (asked.receive_heap.obj 1)
unfolding new_receive_flow_of new_session new_sync_map new_receive_flow_buffer get lookup pop set
    insert new_receive_flow make_chan
asked_IsOpen = record { not_closed = refl; chan_open = refl }

session_sorts_datagrams_example :
    let f = asked.receive_heap.obj 1 in
    (s' : Session) × (handle_datagrams rfc calm (λ s. 0) datagrams asked ≡ some s')
    × (packets (s'.receive_heap.obj 1) ≡ take f.buffer.cap (packets f ++ for_flow rfc 5 datagrams))
unfolding new_receive_flow_of new_session new_sync_map new_receive_flow_buffer get lookup pop set
    insert new_receive_flow make_chan
session_sorts_datagrams_example =
    session_sorts_datagrams rfc calm (some none) true (unknown_flow_buffer_size (pos 3) ∷ [])
      busy.receive_heap busy.send_heap created asked (λ s. 0) datagrams 5 1 created_made
      (then_step born (ask_receive_flow 5)) refl refl asked_IsOpen (omega arith)
