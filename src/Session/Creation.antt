-- ===== src/Session/Creation.antt =====
-- session.go: the state that a session is created in.
use roq.Common.{◌<◌, ◌≡◌, ◌≢◌, refl, ap, Bool, Option, none, some, List, arith}
use mathlib.Core.Path.{subst}
use roq.Common.Int.{ℤ, pos, pos_part, ◌<ℤ◌}
use roq.Common.GoMap.{lookup}
use roq.Common.Heap.{Heap}
use roq.Errors.{Error, nil_connection}
use roq.Qlogger.{Qlogger}
use roq.Options.{SessionConfig, Configured, applied, new_session_config, new_qlogger}
use roq.Options.Settings.{Setting, options, ConfigValid, new_session_config-ConfigValid}
use roq.ReceiveFlow.{ReceiveFlow}
use roq.ReceiveFlowBuffer.{new_receive_flow_buffer}
use roq.SendFlow.{SendFlow}
use roq.SyncMap.{get, new_sync_map}
use roq.Session.{
  Session, SessionResult, made, not_made, Connection, configured_session, create_session,
  new_session,
}
use roq.Session.Flows.{IsValid}

positive_part : (n : ℤ) → pos 0 <ℤ n → 0 < pos_part n
positive_part n h = ground arith

new_session-IsValid :
    (config : SessionConfig) (accept : Bool) (log : Option Qlogger) (rh : Heap ReceiveFlow)
    (sh : Heap SendFlow)
    → ConfigValid config
    → IsValid (new_session config accept log rh sh)
unfolding new_session new_receive_flow_buffer new_sync_map lookup get
new_session-IsValid config accept log rh sh v = record {
  buffer_valid = record {
    positive = positive_part config.unknown_flow_buffer_size v.some_flows;
    within = omega arith;
    held = λ k. refl;
  };
  apart = λ k. omega arith;
}

session_or : Session → SessionResult → Session
session_or s (made s') = s'
session_or s (not_made e) = s

made-ne-not_made : (s : Session) (e : Error) → not_made e ≢ made s
made-ne-not_made s e p = cc

-- A session that was made, from a configuration that its options allow.
abbrev pub Made : Bool → Heap ReceiveFlow → Heap SendFlow → Session → Type 0
Made accept rh sh s =
    (config : SessionConfig) × (log : Option Qlogger) × ConfigValid config
    × (new_session config accept log rh sh ≡ s)

configured_session-Made :
    (conn : Connection) (accept : Bool) (ss : List Setting) (rh : Heap ReceiveFlow)
    (sh : Heap SendFlow) (c : Configured) (s : Session)
    → new_session_config (options ss) ≡ c
    → configured_session conn accept rh sh c ≡ made s
    → Made accept rh sh s
unfolding session_or
configured_session-Made conn accept ss rh sh (Configured.refused e) s how m =
    absurd (made-ne-not_made s e m)
configured_session-Made conn accept ss rh sh (applied config) s how m = (
  config,
  new_qlogger conn config,
  new_session_config-ConfigValid ss config how,
  ap (session_or s) m,
)

pub create_session-Made :
    (conn : Option Connection) (accept : Bool) (ss : List Setting) (rh : Heap ReceiveFlow)
    (sh : Heap SendFlow) (s : Session)
    → create_session conn accept (options ss) rh sh ≡ made s
    → Made accept rh sh s
create_session-Made none accept ss rh sh s m = absurd (made-ne-not_made s nil_connection m)
create_session-Made (some conn) accept ss rh sh s m =
    configured_session-Made conn accept ss rh sh (new_session_config (options ss)) s refl m

-- A session that is created is valid: the options do not let a buffer be without room.
pub create_session-IsValid :
    (conn : Option Connection) (accept : Bool) (ss : List Setting) (rh : Heap ReceiveFlow)
    (sh : Heap SendFlow) (s : Session)
    → create_session conn accept (options ss) rh sh ≡ made s
    → IsValid s
create_session-IsValid conn accept ss rh sh s m =
    let (config, log, allowed, same) = create_session-Made conn accept ss rh sh s m in
    subst IsValid same (new_session-IsValid config accept log rh sh allowed)
