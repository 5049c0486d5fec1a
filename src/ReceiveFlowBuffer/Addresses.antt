-- ===== src/ReceiveFlowBuffer/Addresses.antt =====
-- The addresses of the flows that receive_flow_buffer.go holds.
use mathlib.Core.Path.{subst}
use roq.Common.{
  ℕ, ◌<◌, ◌≤◌, ◌≡◌, ◌⊎◌, inl, inr, refl, sym, Option, none, some, List, [], ◌∷◌, arith,
  Option-cases, Bool, true, false, if◌then◌else◌, leb, length,
}
use roq.Common.GoMap.{GoMap, lookup, insert, delete, lookup-insert, lookup-delete}
use roq.Common.Heap.{Heap}
use roq.Qlogger.{Qlogger}
use roq.ReceiveFlow.{ReceiveFlow, Cancel, new_receive_flow}
use roq.ReceiveFlowBuffer.{
  ReceiveFlowBuffer, evict, evict_cancels, prepend, append_flow, Created, get_or_create,
}
use roq.ReceiveFlowBuffer.Order.{get_or_create_unknown, get_or_create_known}

-- An eviction brings no flow into the buffer.
Shrinks : GoMap ℕ → Option (ReceiveFlowBuffer × List Cancel) → Type 0
Shrinks m none = Unit
Shrinks m (some (b, cs)) = (k x : ℕ) → lookup k b.buffer ≡ some x → lookup k m ≡ some x

if-Shrinks :
    (m : GoMap ℕ) (test : Bool) (o o' : Option (ReceiveFlowBuffer × List Cancel))
    → Shrinks m o
    → Shrinks m o'
    → Shrinks m (if test then o else o')
if-Shrinks m true o o' h h' = h
if-Shrinks m false o o' h h' = h'

lookup-delete-some :
    (m : GoMap ℕ) (front k x : ℕ) → lookup k (delete front m) ≡ some x → lookup k m ≡ some x
lookup-delete-some m front k x h = ground (arith, lookup-delete front k m)

prepend-Shrinks :
    (m : GoMap ℕ) (front : ℕ) (cs : List Cancel) (o : Option (ReceiveFlowBuffer × List Cancel))
    → Shrinks (delete front m) o
    → Shrinks m (prepend cs o)
unfolding Shrinks prepend
prepend-Shrinks m front cs none h = tt
prepend-Shrinks m front cs (some (b, ds)) h = λ k x e. lookup-delete-some m front k x (h k x e)

evict-Shrinks :
    (h : Heap ReceiveFlow) (max_len : ℕ) (m : GoMap ℕ) (queue : List ℕ)
    → Shrinks m (evict h max_len m queue)
unfolding evict Shrinks
evict-Shrinks h max_len m [] = if-Shrinks m (leb max_len 0) _ _ tt (λ k x e. e)
evict-Shrinks h max_len m (front ∷ rest) =
    if-Shrinks m (leb max_len (length (front ∷ rest))) _ _
      (prepend-Shrinks m front (evict_cancels h (lookup front m)) _
        (evict-Shrinks h max_len (delete front m) rest))
      (λ k x e. e)

-- What `getOrCreate` does with addresses: at most the next free one is new in the buffer, under the ID
-- that was asked for, and the objects at the others stay as they are.
pub record AddsOnly (m : GoMap ℕ) (h : Heap ReceiveFlow) (id : ℕ) (c : Created) : Type 0 where
  pub held_or_new :
      (k x : ℕ)
      → lookup k c.self.buffer ≡ some x
      → (lookup k m ≡ some x) ⊎ ((x ≡ h.next) × (k ≡ id) × (h.next < c.heap.next))
  pub keeps : (x : ℕ) → x < h.next → c.heap.obj x ≡ h.obj x
  pub grows : h.next ≤ c.heap.next
  pub flow_known : (lookup id m ≡ some c.flow) ⊎ (c.flow ≡ h.next)

AddsAny : GoMap ℕ → Heap ReceiveFlow → ℕ → Option Created → Type 0
AddsAny m h id none = Unit
AddsAny m h id (some c) = AddsOnly m h id c

inserted :
    (m : GoMap ℕ) (id next k x : ℕ)
    → lookup k (insert id next m) ≡ some x
    → (lookup k m ≡ some x) ⊎ ((x ≡ next) × (k ≡ id))
inserted m id next k x h = ground (arith, lookup-insert id k next m)

append_flow-AddsAny :
    (m : GoMap ℕ) (id : ℕ) (f : ReceiveFlow) (h : Heap ReceiveFlow)
    (o : Option (ReceiveFlowBuffer × List Cancel))
    → Shrinks m o
    → AddsAny m h id (append_flow id f h o)
unfolding Shrinks AddsAny append_flow
append_flow-AddsAny m id f h none s = tt
append_flow-AddsAny m id f h (some (b, cs)) s = record {
  held_or_new = λ k x e. elim (inserted b.buffer id h.next k x e) [
    | inl old ↦ inl (s k x old)
    | inr (new, here) ↦ inr (new, here, omega arith)
  ];
  keeps = λ x lt. ground arith;
  grows = omega arith;
  flow_known = inr refl;
}

pub get_or_create-AddsOnly :
    (b : ReceiveFlowBuffer) (h : Heap ReceiveFlow) (id size : ℕ) (log : Option Qlogger)
    (c : Created)
    → get_or_create b h id size log ≡ some c
    → AddsOnly b.buffer h id c
unfolding AddsAny
get_or_create-AddsOnly b h id size log c e =
    subst (AddsAny b.buffer h id) e (elim (Option-cases (lookup id b.buffer)) [
      | inr (r, known) ↦
          subst (AddsAny b.buffer h id) (sym (get_or_create_known b h id size r log known))
            (record {
              held_or_new = λ k x found. inl found;
              keeps = λ x lt. refl;
              grows = omega arith;
              flow_known = inl known;
            })
      | inl absent ↦
          subst (AddsAny b.buffer h id) (sym (get_or_create_unknown b h id size log absent)) (
            append_flow-AddsAny b.buffer id (new_receive_flow id size log) h
              (evict h b.max_len b.buffer b.queue) (evict-Shrinks h b.max_len b.buffer b.queue))
    ])
