-- ===== src/SendFlow/Laws.antt =====
-- send_flow.go: what a closed flow refuses, and `NewSendStream` against `Close`.
use roq.Common.{◌≡◌, refl, ap, ℕ, Bool, Option, none, some, [], ◌∷◌, ◌++◌}
use roq.Errors.{Error, closed}
use roq.Quicvarint.{Bytes}
use roq.SendFlow.{
  SendFlow, write_rtp_bytes, OpenedStream, OpenResult, opened, open_failed, NewStream,
  open_send_stream, add_stream, new_send_stream, open_stream, send_packet, keep_stream, close,
}

open_send_stream_alive :
    (f : SendFlow) (o : OpenedStream) (priority : ℕ) (incremental : Bool)
    → f.closed_err ≡ none
    → (open_send_stream f (opened o) priority incremental).stream ≡ opened o
unfolding open_send_stream
open_send_stream_alive f o priority incremental alive =
    ap (λ x. (open_stream f (opened o) priority incremental x).stream) alive

-- A closed flow sends no datagram and opens no stream: both calls return the error of the close, record
-- nothing and leave the flow alone, whatever the connection would have answered.
pub closed_flow_refuses :
    (send : Bytes → Option Error) (f : SendFlow) (e : Error) (packet : Bytes) (answer : OpenResult)
    (priority : ℕ) (incremental : Bool)
    → f.closed_err ≡ some e
    → (write_rtp_bytes send f packet ≡ record { sent = none; err = some e; events = [] })
      × (new_send_stream f answer priority incremental
          ≡ (f, record { stream = open_failed e; priority = none; events = [] }))
unfolding write_rtp_bytes new_send_stream open_send_stream
closed_flow_refuses send f e packet answer priority incremental done = (
  ap (send_packet send f packet) done,
  ap (λ x. let r = open_stream f answer priority incremental x in keep_stream f r r.stream) done,
)

-- A stream that `NewSendStream` made on an open flow is closed by `Close`, behind the older ones.
pub new_stream_is_closed :
    (close_stream : ℕ → Option Error) (f : SendFlow) (o : OpenedStream) (priority : ℕ)
    (incremental : Bool)
    → f.closed_err ≡ none
    → let (f', made) = new_send_stream f (opened o) priority incremental in
      (made.stream ≡ opened o)
      × ((close close_stream f').closed_streams ≡ f.streams ++ (o.address ∷ []))
      × ((close close_stream f').self.closed_err ≡ some closed)
unfolding new_send_stream open_send_stream close
new_stream_is_closed close_stream f o priority incremental alive =
    let made : Option Error → SendFlow × NewStream =
      λ x. (let r = open_stream f (opened o) priority incremental x in keep_stream f r r.stream) in
    (
      ap (λ x. (made x).1.stream) alive,
      ap (λ x. (close close_stream (made x).0).closed_streams) alive,
      refl,
    )

-- Where `Close` runs between the two critical sections of `NewSendStream` on an open flow, the caller
-- gets a stream that the closed flow lists, but `Close` closed the older streams only.
pub close_misses_new_stream :
    (close_stream : ℕ → Option Error) (f : SendFlow) (o : OpenedStream) (priority : ℕ)
    (incremental : Bool)
    → f.closed_err ≡ none
    → let made = open_send_stream f (opened o) priority incremental in
      let shut = close close_stream f in
      let f' = add_stream shut.self o.address in
      (made.stream ≡ opened o)
      × (shut.closed_streams ≡ f.streams)
      × (f'.streams ≡ f.streams ++ (o.address ∷ []))
      × (f'.closed_err ≡ some closed)
unfolding close
close_misses_new_stream close_stream f o priority incremental alive =
    (open_send_stream_alive f o priority incremental alive, refl, refl, refl)
