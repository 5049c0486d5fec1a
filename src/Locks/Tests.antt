-- ===== src/Locks/Tests.antt =====
-- A peer's datagram without a flow ID, a datagram that evicts a flow, and the application's `Close`.
use roq.Common.{suc, ◌≡◌, ◌⊎◌, refl, none, some, List, [], ◌∷◌}
use roq.Locks.{
  Call, bad_datagram, datagram, end_session, end_send_flow, actions, locked, acquire, release,
  close_send_flow, map_method, send_flow_lock, send_flows_map,
}
use roq.Locks.Threads.{Thread, start, Step, here, work, AllDone}
use roq.Locks.Progress.{locks_never_deadlock}

abbrev calls : List (List Call)
calls =
    (bad_datagram (some (1 ∷ [], 0 ∷ [])) ∷ datagram (some (3 ∷ [])) 4 ∷ [])
    ∷ (end_send_flow 1 ∷ end_session none ∷ [])
    ∷ []

closing_takes :
    actions (end_send_flow 1)
    ≡ acquire (send_flow_lock 1)
      ∷ acquire send_flows_map
      ∷ release send_flows_map
      ∷ release (send_flow_lock 1)
      ∷ []
unfolding actions close_send_flow locked map_method
closing_takes = refl

locks_never_deadlock_example :
    (AllDone (start calls) ⊎ ((ts' : List Thread) × Step (start calls) ts'))
    × ((ts' : List Thread) → Step (start calls) ts' → suc (work ts') ≡ work (start calls))
locks_never_deadlock_example = locks_never_deadlock calls (start calls) here
