-- ===== src/Locks/Calls.antt =====
-- Every call of the library takes the mutexes in the order of their ranks, on each of its paths.
use roq.Common.{ℕ, ◌≤◌, refl, Bool, Option, none, some, List, [], ◌∷◌, ◌++◌, if◌then◌else◌, arith}
use roq.Locks.{
  Lock, session_mutex, receive_flows_mutex, buffer_mutex, receive_flow_lock, send_flow_lock,
  stream_lock, send_flows_map, receive_flows_map, Action, locked, for_each, rounds, map_method,
  range_fn, flow_is_closed, new_send_stream, close_send_flow, write_rtp_bytes, push, read_stream,
  read, set_read_deadline, deadline_timer, close_with_error, close_buffer, close_receive_flow,
  get_or_create, pop, or_create, receive_flow, is_closed, new_send_flow, new_receive_flow,
  shut_down, close, close_session, Call, write_datagram, open_stream, end_send_flow, write_stream,
  read_packet, set_deadline, deadline_passes, end_receive_flow, ask_send_flow, ask_receive_flow,
  end_session, bad_datagram, datagram, stream, actions, run_calls,
}
use roq.Locks.Ranks.{
  rank, Fine, Runs, Runs-nil, Runs-append, Runs-locked, Runs-if, Runs-for_each, Runs-rounds,
}

-- A critical section that calls nothing that locks.
Runs-alone : (n : ℕ) (l : Lock) → n ≤ rank l → Runs n (locked l [])
Runs-alone n l le = Runs-locked n l [] le (Runs-nil _)

map_method-Runs : (n : ℕ) (l : Lock) → n ≤ rank l → Runs n (map_method l)
unfolding map_method
map_method-Runs n l le = Runs-alone n l le

range_fn-Runs :
    (n : ℕ) (l : Lock) (body : ℕ → List Action) (rs : List ℕ)
    → n ≤ rank l
    → ((r : ℕ) → Runs n (body r))
    → Runs n (range_fn l body rs)
unfolding range_fn
range_fn-Runs n l body rs le h =
    Runs-append n (locked l []) (for_each body rs) (Runs-alone n l le) (Runs-for_each n body rs h)

receive_flow_lock-Runs : (n r : ℕ) → n ≤ 3 → Runs n (locked (receive_flow_lock r) [])
receive_flow_lock-Runs n r le = Runs-alone n (receive_flow_lock r) le

close_receive_flow-Runs : (n r : ℕ) → n ≤ 3 → Runs n (close_receive_flow r)
unfolding close_receive_flow close_buffer close_with_error
close_receive_flow-Runs n r le =
    Runs-append n (close_buffer r) (close_with_error r) (receive_flow_lock-Runs n r le)
      (receive_flow_lock-Runs n r le)

close_send_flow-Runs : (n r : ℕ) → n ≤ 3 → Runs n (close_send_flow r)
unfolding close_send_flow
close_send_flow-Runs n r le =
    Runs-locked n (send_flow_lock r) (map_method send_flows_map) le
      (map_method-Runs 4 send_flows_map (omega arith))

get_or_create-Runs : (evicted : List ℕ) → Runs 2 (get_or_create evicted)
unfolding get_or_create close_with_error
get_or_create-Runs evicted =
    Runs-locked 2 buffer_mutex (for_each close_with_error evicted) (omega arith)
      (Runs-for_each 3 close_with_error evicted (λ r. receive_flow_lock-Runs 3 r (omega arith)))

or_create-Runs : (unknown : Option (List ℕ)) → Runs 2 (or_create unknown)
unfolding or_create
or_create-Runs none = Runs-nil 2
or_create-Runs (some evicted) = get_or_create-Runs evicted

receive_flow-Runs : (unknown : Option (List ℕ)) → Runs 0 (receive_flow unknown)
unfolding receive_flow
receive_flow-Runs unknown =
    Runs-locked 0 receive_flows_mutex (map_method receive_flows_map ++ or_create unknown)
      (omega arith)
      (Runs-append 2 (map_method receive_flows_map) (or_create unknown)
        (map_method-Runs 2 receive_flows_map (omega arith)) (or_create-Runs unknown))

read_stream-Runs : (r : ℕ) (frames : Option ℕ) → Runs 0 (read_stream r frames)
unfolding read_stream push
read_stream-Runs r none = receive_flow_lock-Runs 0 r (omega arith)
read_stream-Runs r (some frames) =
    let one = receive_flow_lock-Runs 0 r (omega arith) in
    Runs-append 0 _ (rounds frames (push r) ++ locked (receive_flow_lock r) []) one
      (Runs-append 0 (rounds frames (push r)) _ (Runs-rounds 0 frames (push r) one) one)

new_receive_flow-Runs : (alive known : Bool) → Runs 0 (new_receive_flow alive known)
unfolding new_receive_flow is_closed pop
new_receive_flow-Runs alive known =
    let map_call = map_method-Runs 2 receive_flows_map (omega arith) in
    let asks = if known then [] else pop ++ map_method receive_flows_map in
    Runs-append 0 is_closed _ (Runs-alone 0 session_mutex (omega arith)) (
      Runs-if 0 alive _ []
        (Runs-locked 0 receive_flows_mutex (map_method receive_flows_map ++ asks) (omega arith) (
          Runs-append 2 (map_method receive_flows_map) asks map_call (
            Runs-if 2 known [] (pop ++ map_method receive_flows_map) (Runs-nil 2) (
              Runs-append 2 pop (map_method receive_flows_map)
                (Runs-alone 2 buffer_mutex (omega arith)) map_call))))
        (Runs-nil 0))

close-Runs : (flows : Option (List ℕ × List ℕ)) → Runs 0 (close flows)
unfolding close shut_down
close-Runs none = Runs-alone 0 session_mutex (omega arith)
close-Runs (some (sends, receives)) =
    Runs-locked 0 session_mutex (shut_down (some (sends, receives))) (omega arith) (
      Runs-append 1 (range_fn send_flows_map close_send_flow sends) _
        (range_fn-Runs 1 send_flows_map close_send_flow sends (omega arith)
          (λ r. close_send_flow-Runs 1 r (omega arith)))
        (range_fn-Runs 1 receive_flows_map close_receive_flow receives (omega arith)
          (λ r. close_receive_flow-Runs 1 r (omega arith))))

actions-Runs : (c : Call) → Runs 0 (actions c)
unfolding actions flow_is_closed new_send_stream write_rtp_bytes push read set_read_deadline
    deadline_timer new_send_flow is_closed close_session
actions-Runs (write_datagram r) = Runs-alone 0 (send_flow_lock r) (omega arith)
actions-Runs (open_stream r opened) =
    let one = Runs-alone 0 (send_flow_lock r) (omega arith) in
    Runs-append 0 (flow_is_closed r) _ one (Runs-if 0 opened _ [] one (Runs-nil 0))
actions-Runs (end_send_flow r) = close_send_flow-Runs 0 r (omega arith)
actions-Runs (write_stream x) = Runs-alone 0 (stream_lock x) (omega arith)
actions-Runs (read_packet r n) = Runs-rounds 0 n _ (receive_flow_lock-Runs 0 r (omega arith))
actions-Runs (set_deadline r) = receive_flow_lock-Runs 0 r (omega arith)
actions-Runs (deadline_passes r) = receive_flow_lock-Runs 0 r (omega arith)
actions-Runs (end_receive_flow r) = close_receive_flow-Runs 0 r (omega arith)
actions-Runs (ask_send_flow alive) =
    Runs-append 0 is_closed _ (Runs-alone 0 session_mutex (omega arith))
      (Runs-if 0 alive _ [] (map_method-Runs 0 send_flows_map (omega arith)) (Runs-nil 0))
actions-Runs (ask_receive_flow alive known) = new_receive_flow-Runs alive known
actions-Runs (end_session flows) =
    Runs-append 0 (close flows) _ (close-Runs flows) (Runs-alone 0 session_mutex (omega arith))
actions-Runs (bad_datagram flows) = close-Runs flows
actions-Runs (datagram unknown r) =
    Runs-append 0 (receive_flow unknown) _ (receive_flow-Runs unknown)
      (receive_flow_lock-Runs 0 r (omega arith))
actions-Runs (stream unknown r frames) =
    Runs-append 0 (receive_flow unknown) _ (receive_flow-Runs unknown) (read_stream-Runs r frames)

pub run_calls-Fine : (cs : List Call) → Fine [] (run_calls cs)
unfolding run_calls
run_calls-Fine [] = refl
run_calls-Fine (c ∷ cs) = actions-Runs c [] (run_calls cs) tt (run_calls-Fine cs)
