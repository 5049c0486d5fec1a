-- ===== src/Session/Demux/Alone.antt =====
-- A flow that is registered under one ID of session.go, and whose address is nowhere else.
use mathlib.Core.Path.{subst}
use mathlib.Core.Option.{some-injective, none-ne-some}
use roq.Common.{
  ℕ, ◌<◌, ◌≡◌, ◌≢◌, inl, inr, refl, sym, ap, ◌∙◌, Option, none, some, arith, Option-cases,
  ℕ_discrete, ◌==◌,
}
use roq.Common.GoMap.{lookup}
use roq.ReceiveFlowBuffer.{Created, get_or_create}
use roq.ReceiveFlowBuffer.Addresses.{AddsOnly, get_or_create-AddsOnly}
use roq.SyncMap.{get}
use roq.Session.{Session}
use roq.Session.Incoming.{buffered, receive_flow}
use roq.Session.Flows.{receive_flow_known, receive_flow_unknown}

pub record Alone (id r : ℕ) (s : Session) : Type 0 where
  pub known : get s.receive_flows id ≡ some r
  pub only : (k : ℕ) → get s.receive_flows k ≡ some r → k ≡ id
  pub not_held : (k : ℕ) → lookup k s.flow_buffer.buffer ≢ some r
  pub allocated : r < s.receive_heap.next

-- The flow that `receiveFlow` returns for an ID is this one or another, as the ID is this one's or not;
-- the session still has it, and has left it alone.
pub record Served (id r k : ℕ) (s : Session) (x : Session × ℕ) : Type 0 where
  pub still_alone : Alone id r x.0
  pub same_flow : x.0.receive_heap.obj r ≡ s.receive_heap.obj r
  pub same_err : x.0.closed_err ≡ s.closed_err
  pub which : (k == id) ≡ (x.1 == r)

ServedAny : ℕ → ℕ → ℕ → Session → Option (Session × ℕ) → Type 0
ServedAny id r k s none = Unit
ServedAny id r k s (some x) = Served id r k s x

known-which :
    (id r k x : ℕ) (s : Session)
    → Alone id r s
    → get s.receive_flows k ≡ some x
    → (k == id) ≡ (x == r)
known-which id r k x s a e = elim (ℕ_discrete k id) [
  | yes same ↦
      let same_flow : x ≡ r =
        some-injective x r (sym e ∙ ap (get s.receive_flows) same ∙ a.known) in
      ground arith
  | no other ↦ let other_flow : x ≢ r = λ h. other (a.only k (e ∙ ap some h)) in ground arith
]

other_id : (id r k : ℕ) (s : Session) → Alone id r s → get s.receive_flows k ≡ none → k ≢ id
other_id id r k s a unknown same =
    none-ne-some r (sym unknown ∙ ap (get s.receive_flows) same ∙ a.known)

buffered_flow :
    (id r k : ℕ) (s : Session) (c : Created)
    → Alone id r s
    → AddsOnly s.flow_buffer.buffer s.receive_heap k c
    → c.flow ≢ r
buffered_flow id r k s c a adds same = elim adds.flow_known [
  | inl known ↦ a.not_held k (known ∙ ap some same)
  | inr new ↦ absurd (omega (arith, a.allocated))
]

buffered-ServedAny :
    (id r k : ℕ) (s : Session) (o : Option Created)
    → Alone id r s
    → get s.receive_flows k ≡ none
    → ((c : Created) → o ≡ some c → AddsOnly s.flow_buffer.buffer s.receive_heap k c)
    → ServedAny id r k s (buffered s o)
unfolding ServedAny buffered
buffered-ServedAny id r k s none a unknown adds = tt
buffered-ServedAny id r k s (some c) a unknown adds =
    let d = adds c refl in
    let other = other_id id r k s a unknown in
    let other_flow = buffered_flow id r k s c a d in
    record {
      still_alone = record {
        known = a.known;
        only = a.only;
        not_held = λ j found. elim (d.held_or_new j r found) [
          | inl old ↦ a.not_held j old
          | inr (new, _, _) ↦ absurd (omega (arith, a.allocated))
        ];
        allocated = omega (arith, a.allocated, d.grows);
      };
      same_flow = d.keeps r a.allocated;
      same_err = refl;
      which = ground arith;
    }

pub receive_flow-Served :
    (id r k : ℕ) (s : Session) (x : Session × ℕ)
    → Alone id r s
    → receive_flow s k ≡ some x
    → Served id r k s x
unfolding ServedAny
receive_flow-Served id r k s x a e = elim (Option-cases (get s.receive_flows k)) [
  | inr (x', known) ↦
      subst (Served id r k s) (some-injective (s, x') x (sym (receive_flow_known s k x' known) ∙ e))
        (record {
          still_alone = a;
          same_flow = refl;
          same_err = refl;
          which = known-which id r k x' s a known;
        })
  | inl unknown ↦
      let created = get_or_create s.flow_buffer s.receive_heap k s.receive_buffer_size s.qlog in
      subst (ServedAny id r k s) (sym (receive_flow_unknown s k unknown) ∙ e) (
        buffered-ServedAny id r k s created a unknown
          (get_or_create-AddsOnly s.flow_buffer s.receive_heap k s.receive_buffer_size s.qlog))
]
