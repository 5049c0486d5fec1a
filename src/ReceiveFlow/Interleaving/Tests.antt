-- ===== src/ReceiveFlow/Interleaving/Tests.antt =====
-- receive_flow.go with two streams, of which the later one is read first.
use roq.Common.{ℕ, ◌≡◌, refl, false, none, List, [], ◌∷◌, ◌++◌, ◌==◌, if◌then◌else◌, All, arith}
use roq.Quicvarint.{Bytes}
use roq.Quicvarint.Rfc.{encode, rfc, rfc-IsQuicvarint}
use roq.RtpSendStream.Wire.{frames}
use roq.RtpSendStream.Run.{Fits}
use roq.ReceiveFlow.{ReceiveFlow, new_receive_flow}
use roq.ReceiveFlow.Queue.{packets, accept}
use roq.ReceiveFlow.Frames.{Ending, finished, parsed_event}
use roq.ReceiveFlow.Frames.Prefix.{read_frame-frame}
use roq.ReceiveFlow.Invariant.{here, BufferValid}
use roq.ReceiveFlow.Invariant.Closing.{new-valid}
use roq.ReceiveFlow.Interleaving.{Traffic, Moves, still, then_move, round, acts, run, update}
use roq.ReceiveFlow.Interleaving.Order.{streams_keep_order}

abbrev flow : ReceiveFlow
flow = new_receive_flow 5 2 none

abbrev carried : ℕ → List Bytes
carried i = if i == 3 then (7 ∷ 8 ∷ []) ∷ (9 ∷ []) ∷ [] else if i == 7 then (6 ∷ []) ∷ [] else []

abbrev ends : ℕ → Ending
ends i = finished

abbrev start : Traffic
start = record { flow = flow; left = λ i. frames rfc (carried i); taken = [] }

abbrev once : Traffic
once = record start {
  flow = accept 0 flow (6 ∷ []);
  left = λ i. if 7 == i then [] else frames rfc (carried i);
}

abbrev twice : Traffic
twice = record start {
  flow = accept 0 once.flow (7 ∷ 8 ∷ []);
  left = λ i. if 3 == i then frames rfc ((9 ∷ []) ∷ []) else once.left i;
}

two_rounds : Moves rfc ends start twice
unfolding encode
two_rounds =
    then_move
      (then_move still (
        round 7 0 once.flow [] (parsed_event flow 7 1 (frames rfc ((6 ∷ []) ∷ [])))
          (read_frame-frame rfc rfc-IsQuicvarint 0 flow 7 (6 ∷ []) [] finished (omega arith))))
      (round 3 0 twice.flow (frames rfc ((9 ∷ []) ∷ []))
        (parsed_event once.flow 3 2 (rfc.append [] 2 ++ (7 ∷ 8 ∷ [])))
        (read_frame-frame rfc rfc-IsQuicvarint 0 once.flow 3 (7 ∷ 8 ∷ [])
          (frames rfc ((9 ∷ []) ∷ [])) finished (omega arith)))

carried_fit : (i : ℕ) → All Fits (carried i)
carried_fit i = ground arith

flow_valid : BufferValid flow
flow_valid = let (deadline, buffers) = new-valid 5 2 none flow here in buffers

-- The frame of the stream 7 came first, and then one of the stream 3.
as_a_queue :
    run 2
      (record { queue = []; taken = []; streams = carried; is_closed = false })
      (acts two_rounds)
    ≡ record {
      queue = (6 ∷ []) ∷ (7 ∷ 8 ∷ []) ∷ [];
      taken = [];
      streams = update (update carried 7 []) 3 ((9 ∷ []) ∷ []);
      is_closed = false;
    }
unfolding run acts two_rounds
as_a_queue = refl

streams_keep_order_example :
    let b =
      run start.flow.buffer.cap
        (record {
          queue = packets start.flow;
          taken = start.taken;
          streams = carried;
          is_closed = start.flow.closed;
        })
        (acts two_rounds) in
    (packets twice.flow ≡ b.queue)
    × (twice.taken ≡ b.taken)
    × ((i : ℕ) → twice.left i ≡ frames rfc (b.streams i))
    × (twice.flow.closed ≡ b.is_closed)
streams_keep_order_example =
    streams_keep_order rfc rfc-IsQuicvarint ends carried start twice carried_fit (λ i. refl)
      flow_valid two_rounds
