-- ===== src/ReceiveFlowBuffer/Order.antt =====
-- The map and the queue of receive_flow_buffer.go, and the validity of a buffer.
use roq.Common.{
  ◌-◌, ℕ, ◌+◌, ◌≤◌, ◌<◌, ◌≡◌, ◌⊎◌, inl, inr, refl, ap, ◌∙◌, Option, none, some, List, [], ◌∷◌, ◌++◌,
  length, leb, ◌==◌, if◌then◌else◌, arith, length-append, Option-cases, Bool-cases, ==_refl,
}
use roq.Common.GoMap.{GoMap, lookup, insert, delete, lookup-insert, lookup-delete}
use roq.Common.Heap.{Heap, alloc}
use roq.Qlogger.{Qlogger}
use roq.ReceiveFlow.{ReceiveFlow, Cancel, new_receive_flow}
use roq.ReceiveFlowBuffer.{
  ReceiveFlowBuffer, evict, evict_cancels, prepend, append_flow, Created, get_or_create,
  remove_first, pop,
}

abbrev pub occurs : ℕ → List ℕ → ℕ
occurs k [] = 0
occurs k (x ∷ xs) = (if x == k then 1 else 0) + occurs k xs

abbrev pub present : Option ℕ → ℕ
present none = 0
present (some r) = 1

-- The map has an entry for exactly the IDs in the queue, and each of them stands there once.
abbrev pub Held : GoMap ℕ → List ℕ → Type 0
Held m queue = (k : ℕ) → present (lookup k m) ≡ occurs k queue

pub record IsValid (b : ReceiveFlowBuffer) : Type 0 where
  pub positive : 0 < b.max_len
  pub within : length b.queue ≤ b.max_len
  pub held : Held b.buffer b.queue

occurs-append : (k : ℕ) (xs ys : List ℕ) → occurs k (xs ++ ys) ≡ occurs k xs + occurs k ys
occurs-append k [] ys = omega arith
occurs-append k (x ∷ xs) ys = omega (arith, occurs-append k xs ys)

present-le : (o : Option ℕ) → present o ≤ 1
present-le none = omega arith
present-le (some r) = omega arith

delete-Held :
    (m : GoMap ℕ) (front : ℕ) (rest : List ℕ) → Held m (front ∷ rest) → Held (delete front m) rest
delete-Held m front rest h k = ground (arith, lookup-delete front k m, h k, present-le (lookup k m))

insert-Held :
    (m : GoMap ℕ) (queue : List ℕ) (id r : ℕ)
    → lookup id m ≡ none
    → Held m queue
    → Held (insert id r m) (queue ++ (id ∷ []))
insert-Held m queue id r absent h k =
    ground (arith, lookup-insert id k r m, h k, h id, occurs-append k queue (id ∷ []))

-- What the loop of `getOrCreate` leaves: room for one flow.
abbrev Evicted : ℕ → ReceiveFlowBuffer → Type 0
Evicted max_len b = (b.max_len ≡ max_len) × (length b.queue < max_len) × Held b.buffer b.queue

present-delete-le :
    (m : GoMap ℕ) (front k : ℕ) → present (lookup k (delete front m)) ≤ present (lookup k m)
present-delete-le m front k = ground (arith, lookup-delete front k m)

evict-Evicted :
    (h : Heap ReceiveFlow) (max_len : ℕ) (m : GoMap ℕ) (queue : List ℕ)
    → 0 < max_len
    → Held m queue
    → (b : ReceiveFlowBuffer) × (cs : List Cancel) × (evict h max_len m queue ≡ some (b, cs))
      × ((k : ℕ) → present (lookup k b.buffer) ≤ present (lookup k m))
      × Evicted max_len b
unfolding evict prepend
evict-Evicted h max_len m [] pos v = (
  record { max_len = max_len; buffer = m; queue = [] },
  [],
  ground arith,
  λ k. omega arith,
  (refl, pos, v),
)
evict-Evicted h max_len m (front ∷ rest) pos v =
    elim (Bool-cases (leb max_len (length (front ∷ rest)))) [
      | inr room ↦ (
        record { max_len = max_len; buffer = m; queue = front ∷ rest },
        [],
        rw (room, evict) refl,
        λ k. omega arith,
        (refl, ground arith, v),
      )
      | inl full ↦
          let (b, cs, e, less, w) =
            evict-Evicted h max_len (delete front m) rest pos (delete-Held m front rest v) in
          (
            b,
            evict_cancels h (lookup front m) ++ cs,
            rw (full, e),
            λ k. omega (arith, less k, present-delete-le m front k),
            w,
          )
    ]

present-none : (o : Option ℕ) → present o ≤ 0 → o ≡ none
present-none none h = refl
present-none (some r) h = absurd (omega arith)

pub get_or_create_known :
    (b : ReceiveFlowBuffer) (h : Heap ReceiveFlow) (id size r : ℕ) (log : Option Qlogger)
    → lookup id b.buffer ≡ some r
    → get_or_create b h id size log ≡ some (record { self = b; heap = h; flow = r; cancelled = [] })
unfolding get_or_create
get_or_create_known b h id size r log e = rw (e, get_or_create)

pub get_or_create_unknown :
    (b : ReceiveFlowBuffer) (h : Heap ReceiveFlow) (id size : ℕ) (log : Option Qlogger)
    → lookup id b.buffer ≡ none
    → get_or_create b h id size log
      ≡ append_flow id (new_receive_flow id size log) h (evict h b.max_len b.buffer b.queue)
unfolding get_or_create
get_or_create_unknown b h id size log e = rw (e, get_or_create)

-- `getOrCreate` never panics on a valid buffer, leaves a valid buffer that holds the flow it returns and
-- no other flow that it did not hold before, and returns the flow that it held already or a new one.
pub get_or_create-IsValid :
    (b : ReceiveFlowBuffer) (h : Heap ReceiveFlow) (id size : ℕ) (log : Option Qlogger)
    → IsValid b
    → (c : Created) × (get_or_create b h id size log ≡ some c)
      × IsValid c.self
      × (lookup id c.self.buffer ≡ some c.flow)
      × ((k : ℕ)
          → present (lookup k c.self.buffer) ≤ (if id == k then 1 else present (lookup k b.buffer)))
      × (((lookup id b.buffer ≡ some c.flow) × (c.self ≡ b) × (c.heap ≡ h) × (c.cancelled ≡ []))
          ⊎ ((lookup id b.buffer ≡ none)
              × (c.flow ≡ h.next)
              × (c.heap ≡ alloc (new_receive_flow id size log) h)))
get_or_create-IsValid b h id size log v = elim (Option-cases (lookup id b.buffer)) [
  | inr (r, known) ↦ (
    record { self = b; heap = h; flow = r; cancelled = [] },
    get_or_create_known b h id size r log known,
    v,
    known,
    λ k. ground (arith, present-le (lookup k b.buffer)),
    inl (known, refl, refl, refl),
  )
  | inl absent ↦
      let (b', cs, e, less, (m, room, held)) =
        evict-Evicted h b.max_len b.buffer b.queue v.positive v.held in
      let gone : lookup id b'.buffer ≡ none =
        present-none _ (omega (arith, less id, ap present absent)) in
      (
        record {
          self = record b' { queue = b'.queue ++ (id ∷ []); buffer = insert id h.next b'.buffer };
          heap = alloc (new_receive_flow id size log) h;
          flow = h.next;
          cancelled = cs;
        },
        get_or_create_unknown b h id size log absent ∙ unfold append_flow in rw e,
        record {
          positive = omega (arith, v.positive);
          within = omega (arith, length-append b'.queue (id ∷ []));
          held = insert-Held b'.buffer b'.queue id h.next gone held;
        },
        lookup-insert id id h.next b'.buffer ∙ rw (==_refl id),
        λ k. ground (arith, less k, lookup-insert id k h.next b'.buffer),
        inr (absent, refl, refl),
      )
]

length-remove_first : (id : ℕ) (xs : List ℕ) → length (remove_first id xs) ≤ length xs
length-remove_first id [] = omega arith
length-remove_first id (x ∷ xs) = ground (arith, length-remove_first id xs)

occurs-remove_first :
    (id k : ℕ) (xs : List ℕ)
    → occurs k (remove_first id xs) ≡ occurs k xs - (if id == k then 1 else 0)
occurs-remove_first id k [] = omega arith
occurs-remove_first id k (x ∷ xs) = ground (arith, occurs-remove_first id k xs)

-- `pop` takes the flow out of a valid buffer, with its place in the queue, and leaves the others.
pub pop-IsValid :
    (b : ReceiveFlowBuffer) (id : ℕ)
    → IsValid b
    → let (b', r) = pop b id in
      IsValid b'
      × (r ≡ lookup id b.buffer)
      × ((k : ℕ) → lookup k b'.buffer ≡ (if id == k then none else lookup k b.buffer))
unfolding pop
pop-IsValid b id v = elim (Option-cases (lookup id b.buffer)) [
  | inl absent ↦
      rw (absent, pop)
        (
          record {
            positive = v.positive;
            within = omega (arith, length-remove_first id b.queue);
            held = λ k. ground (arith, v.held k, occurs-remove_first id k b.queue, v.held id);
          },
          refl,
          λ k. ground arith,
        )
  | inr (r, known) ↦
      rw (known, pop)
        (
          record {
            positive = v.positive;
            within = omega (arith, length-remove_first id b.queue);
            held = λ k. ground (
              arith,
              v.held k,
              occurs-remove_first id k b.queue,
              lookup-delete id k b.buffer,
              present-le (lookup k b.buffer),
            );
          },
          refl,
          λ k. lookup-delete id k b.buffer,
        )
]
