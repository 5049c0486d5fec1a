-- ===== src/Session/Demux/Addressed.antt =====
-- session.go: a receive flow has one ID, from the creation of the session on.
use mathlib.Core.Path.{subst}
use roq.Common.{
  ℕ, ◌≤◌, ◌<◌, ◌≡◌, ◌⊎◌, inl, inr, refl, sym, ap, ◌∙◌, ◌++◌, Option, none, some, arith,
  Option-cases,
}
use roq.Common.GoMap.{lookup}
use roq.ReceiveFlowBuffer.{Created, get_or_create, pop}
use roq.ReceiveFlowBuffer.Addresses.{AddsOnly, get_or_create-AddsOnly}
use roq.ReceiveFlowBuffer.Order.{present, pop-IsValid}
use roq.SyncMap.{get, set}
use roq.SyncMap.Laws.{get-set}
use roq.Session.{Session, adopt, new_receive_flow_of}
use roq.Session.Incoming.{buffered, receive_flow}
use roq.Session.Flows.{IsValid, receive_flow_known, receive_flow_unknown, new_receive_flow_of_new}
use roq.Session.Demux.Alone.{Alone}

-- Where the session has a flow: with the application, or in the buffer.
abbrev pub Place : Session → ℕ → ℕ → Type 0
Place s k r = (get s.receive_flows k ≡ some r) ⊎ (lookup k s.flow_buffer.buffer ≡ some r)

pub record Addressed (s : Session) : Type 0 where
  pub below : (k r : ℕ) → Place s k r → r < s.receive_heap.next
  pub single : (k j r : ℕ) → Place s k r → Place s j r → k ≡ j

pub Addressed-Alone :
    (s : Session) (id r : ℕ)
    → IsValid s
    → Addressed s
    → get s.receive_flows id ≡ some r
    → Alone id r s
Addressed-Alone s id r v a known = record {
  known = known;
  only = λ k e. a.single k id r (inl e) (inl known);
  not_held = λ k e.
      let same = a.single k id r (inr e) (inl known) in
      absurd (
        omega (
          arith,
          v.apart id,
          ap present known,
          ap present (subst (λ j. lookup j s.flow_buffer.buffer ≡ some r) same e),
        ));
  allocated = a.below id r (inl known);
}

-- The places of a state: those of the state before, and that of a new flow under one ID.
pub record Places (k0 : ℕ) (s s' : Session) : Type 0 where
  pub old_or_new :
      (k r : ℕ)
      → Place s' k r
      → Place s k r
        ⊎ ((r ≡ s.receive_heap.next) × (k ≡ k0) × (s.receive_heap.next < s'.receive_heap.next))
  pub grows : s.receive_heap.next ≤ s'.receive_heap.next

pub Places-Addressed : (k0 : ℕ) (s s' : Session) → Places k0 s s' → Addressed s → Addressed s'
Places-Addressed k0 s s' p a = record {
  below = λ k r h. elim (p.old_or_new k r h) [
    | inl old ↦ omega (arith, a.below k r old, p.grows)
    | inr (new, _, room) ↦ omega (arith, room)
  ];
  single = λ k j r h h'. elim (p.old_or_new k r h) [
    | inl old ↦ elim (p.old_or_new j r h') [
      | inl old' ↦ a.single k j r old old'
      | inr (new', _, _) ↦ absurd (omega (arith, a.below k r old))
    ]
    | inr (new, here, _) ↦ elim (p.old_or_new j r h') [
      | inl old' ↦ absurd (omega (arith, a.below j r old'))
      | inr (_, here', _) ↦ here ∙ sym here'
    ]
  ];
}

pub same-Addressed :
    (s s' : Session)
    → s'.flow_buffer ≡ s.flow_buffer
    → s'.receive_flows ≡ s.receive_flows
    → s'.receive_heap.next ≡ s.receive_heap.next
    → Addressed s
    → Addressed s'
same-Addressed s s' b f n a = record {
  below = λ k r. rw (b, f, n) (a.below k r);
  single = λ k j r. rw (b, f) (a.single k j r);
}

buffered-Places :
    (s : Session) (k : ℕ) (c : Created)
    → AddsOnly s.flow_buffer.buffer s.receive_heap k c
    → Places k s (record s {
      flow_buffer = c.self;
      receive_heap = c.heap;
      cancelled = s.cancelled ++ c.cancelled;
    })
buffered-Places s k c d = record {
  old_or_new = λ j r h. elim h [
    | inl known ↦ inl (inl known)
    | inr held ↦ elim (d.held_or_new j r held) [ inl old ↦ inl (inr old) | inr new ↦ inr new ]
  ];
  grows = d.grows;
}

ServedAddressed : Option (Session × ℕ) → Type 0
ServedAddressed none = Unit
ServedAddressed (some x) = Addressed x.0

buffered-ServedAddressed :
    (s : Session) (k : ℕ) (o : Option Created)
    → ((c : Created) → o ≡ some c → AddsOnly s.flow_buffer.buffer s.receive_heap k c)
    → Addressed s
    → ServedAddressed (buffered s o)
unfolding ServedAddressed buffered
buffered-ServedAddressed s k none adds a = tt
buffered-ServedAddressed s k (some c) adds a =
    Places-Addressed k s _ (buffered-Places s k c (adds c refl)) a

pub receive_flow-Addressed :
    (s s' : Session) (k r : ℕ) → receive_flow s k ≡ some (s', r) → Addressed s → Addressed s'
unfolding ServedAddressed
receive_flow-Addressed s s' k r e a = elim (Option-cases (get s.receive_flows k)) [
  | inr (x, known) ↦ subst ServedAddressed (sym (receive_flow_known s k x known) ∙ e) a
  | inl unknown ↦ subst ServedAddressed (sym (receive_flow_unknown s k unknown) ∙ e) (
      buffered-ServedAddressed s k
        (get_or_create s.flow_buffer s.receive_heap k s.receive_buffer_size s.qlog)
        (get_or_create-AddsOnly s.flow_buffer s.receive_heap k s.receive_buffer_size s.qlog) a)
]

-- An entry of the map after `set`.
set_place :
    (s : Session) (id r k x : ℕ)
    → get (set s.receive_flows id r) k ≡ some x
    → (get s.receive_flows k ≡ some x) ⊎ ((x ≡ r) × (k ≡ id))
set_place s id r k x h = ground (arith, get-set s.receive_flows id k r)

popped_place :
    (s : Session) (id k x : ℕ)
    → IsValid s
    → lookup k (pop s.flow_buffer id).0.buffer ≡ some x
    → lookup k s.flow_buffer.buffer ≡ some x
popped_place s id k x v h =
    let (_, _, others) = pop-IsValid s.flow_buffer id v.buffer_valid in ground (arith, others k)

adopt-Places :
    (s : Session) (id : ℕ) (o : Option ℕ)
    → IsValid s
    → lookup id s.flow_buffer.buffer ≡ o
    → Places id s (adopt (record s { flow_buffer = (pop s.flow_buffer id).0 }) id o).0
unfolding adopt
adopt-Places s id (some r) v kept = record {
  old_or_new = λ k x h. elim h [
    | inr held ↦ inl (inr (popped_place s id k x v held))
    | inl known ↦ elim (set_place s id r k x known) [
      | inl old ↦ inl (inl old)
      | inr (same, here) ↦ inl (inr (rw (here, same) kept))
    ]
  ];
  grows = omega arith;
}
adopt-Places s id none v absent = record {
  old_or_new = λ k x h. elim h [
    | inr held ↦ inl (inr (popped_place s id k x v held))
    | inl known ↦ elim (set_place s id s.receive_heap.next k x known) [
      | inl old ↦ inl (inl old)
      | inr (same, here) ↦ inr (same, here, omega arith)
    ]
  ];
  grows = omega arith;
}

pub new_receive_flow_of-Addressed :
    (s : Session) (id : ℕ)
    → IsValid s
    → Addressed s
    → s.closed_err ≡ none
    → get s.receive_flows id ≡ none
    → Addressed (new_receive_flow_of s id).0
new_receive_flow_of-Addressed s id v a alive new =
    let (_, popped, _) = pop-IsValid s.flow_buffer id v.buffer_valid in
    rw (new_receive_flow_of_new s id alive new)
      (Places-Addressed id s _ (adopt-Places s id (pop s.flow_buffer id).1 v (sym popped)) a)
