-- ===== src/Session/Sample.antt =====
-- A session of session.go for the tests, with one flow in each direction, under the ID 5.
use roq.Common.{◌≡◌, refl, true, false, none, [], ◌∷◌, arith}
use roq.Common.Chan.{make_chan}
use roq.Common.GoMap.{lookup}
use roq.Quicvarint.Rfc.{rfc}
use roq.ReceiveFlow.{new_receive_flow}
use roq.ReceiveFlow.Queue.{IsOpen}
use roq.SendFlow.{new_flow}
use roq.SyncMap.{get}
use roq.Common.{some}
use roq.Common.Int.{pos}
use roq.Options.{
  default_config, new_session_config, apply_all, with_unknown_flow_buffer_size, new_qlogger,
}
use roq.Options.Settings.{unknown_flow_buffer_size, options}
use roq.Session.{Session, new_session, create_session, made}
use roq.Session.Shutdown.{Transport}
use roq.Session.Flows.{IsValid}

abbrev pub busy : Session
busy = record {
  receive_buffer_size = 2;
  accept_datagrams = true;
  send_flows = record { elements = (5, 1) ∷ [] };
  receive_flows = record { elements = (5, 0) ∷ [] };
  flow_buffer = record { max_len = 1; buffer = []; queue = [] };
  closed_err = none;
  conn_close_err = none;
  ctx_done = false;
  qlog = none;
  receive_heap = record { obj = λ r. new_receive_flow 5 2 none; next = 1 };
  send_heap = record { obj = λ r. new_flow rfc 5 none; next = 2 };
  cancelled = [];
  closed_streams = [];
  events = [];
  conn_closes = [];
  close_qlog_once = false;
  producer_closes = 0;
}

pub busy-IsValid : IsValid busy
unfolding lookup get
busy-IsValid = record {
  buffer_valid = record { positive = omega arith; within = omega arith; held = λ k. refl };
  apart = λ k. ground arith;
}

pub busy-IsOpen : IsOpen (busy.receive_heap.obj 0)
unfolding new_receive_flow make_chan
busy-IsOpen = record { not_closed = refl; chan_open = refl }

abbrev pub calm : Transport
calm = record { close_stream = λ s. none; close_conn = λ code reason. none }

-- A session as it is created.
abbrev pub created : Session
created =
    new_session (record default_config { unknown_flow_buffer_size = pos 3 }) true none
      busy.receive_heap busy.send_heap

pub created_made :
    create_session
      (some none)
      true
      (options (unknown_flow_buffer_size (pos 3) ∷ []))
      busy.receive_heap
      busy.send_heap
    ≡ made created
unfolding new_session_config apply_all with_unknown_flow_buffer_size new_qlogger
created_made = refl
