-- ===== src/ReceiveFlow/Invariant/Buffers.antt =====
-- The steps of receive_flow.go on the packet queue and the buffer pool.
use roq.Common.{
  ℕ, zero, suc, ◌+◌, ◌≤◌, ◌≡◌, ◌⊎◌, inl, inr, refl, ap, Bool, true, none, some, List, [], ◌∷◌, ◌++◌,
  length, get_elem?, length-append, ltb, ◌==◌, if◌then◌else◌, arith, Option-cases,
}
use roq.Common.Chan.{try_send, close_chan}
use roq.ReceiveFlow.{
  ReceiveFlow, PacketBuffer, get, push, put, remove_at, register, unregister, expire_deadline,
  Deadline, cleared, passed, later, renew_deadline, set_read_deadline, close_buffer, cancel_ctx,
  copy_packet,
}
use roq.ReceiveFlow.Queue.{get-Keeps, get-items}
use roq.ReceiveFlow.Reader.{receive, Reader, starting, waiting, returned, read_step}
use roq.ReceiveFlow.Invariant.{
  Step, arrive, lose, open_stream, end_stream, set_deadline, expire, cancel, shut, read, count,
  BufferValid,
}

count-append : (b : ℕ) (xs ys : List PacketBuffer) → count b (xs ++ ys) ≡ count b xs + count b ys
count-append b [] ys = omega arith
count-append b (x ∷ xs) ys = omega (arith, count-append b xs ys)

count-remove_at :
    (b i : ℕ) (xs : List PacketBuffer) (x : PacketBuffer)
    → get_elem? xs i ≡ some x
    → count b xs ≡ (if x.buf == b then 1 else 0) + count b (remove_at i xs)
count-remove_at b i [] x e = cc
count-remove_at b zero (y ∷ xs) x e = ground arith
count-remove_at b (suc i) (y ∷ xs) x e = omega (arith, count-remove_at b i xs x e)

-- A buffer in hand beside the flow: its place is counted too.
abbrev Holding : ReceiveFlow → PacketBuffer → Type 0
Holding f x =
    (b : ℕ)
    → (if x.buf == b then 1 else 0) + (count b f.buffer.items + count b f.pool)
      ≤ (if ltb b f.next_buf then 1 else 0)

get_fresh :
    (choice : ℕ) (f : ReceiveFlow)
    → get_elem? f.pool choice ≡ none
    → get choice f
      ≡ (record { buf = f.next_buf; bytes = [] }, record f { next_buf = suc f.next_buf })
unfolding get
get_fresh choice f e = rw (e, get)

get_reused :
    (choice : ℕ) (f : ReceiveFlow) (x : PacketBuffer)
    → get_elem? f.pool choice ≡ some x
    → get choice f
      ≡ (record { buf = x.buf; bytes = [] }, record f { pool = remove_at choice f.pool })
unfolding get
get_reused choice f x e = rw (e, get)

get-Holding :
    (choice : ℕ) (f : ReceiveFlow) → BufferValid f → Holding (get choice f).1 (get choice f).0
get-Holding choice f v b = elim (Option-cases (get_elem? f.pool choice)) [
  | inl fresh ↦ rw (get_fresh choice f fresh) (ground (arith, v.owned b))
  | inr (x, reused) ↦
      rw (get_reused choice f x reused)
        (ground (arith, v.owned b, count-remove_at b choice f.pool x reused))
]

push-owned :
    (f : ReceiveFlow) (x : PacketBuffer)
    → Holding f x
    → (b : ℕ)
    → count b (push f x).buffer.items + count b (push f x).pool
      ≤ (if ltb b (push f x).next_buf then 1 else 0)
unfolding push put try_send
push-owned f x h b = ground (arith, h b, count-append b f.buffer.items (x ∷ []))

Holding-owned :
    (f : ReceiveFlow) (x : PacketBuffer)
    → Holding f x
    → (b : ℕ) → count b f.buffer.items + count b f.pool ≤ (if ltb b f.next_buf then 1 else 0)
Holding-owned f x h b = omega (arith, h b)

get-BufferValid : (choice : ℕ) (f : ReceiveFlow) → BufferValid f → BufferValid (get choice f).1
get-BufferValid choice f v =
    let k = get-Keeps choice f in
    let i = get-items choice f in
    record {
      sound = rw i v.sound;
      agree = rw (i, k.same_closed) v.agree;
      cancelled = rw (k.same_closed, k.same_ctx) v.cancelled;
      within = rw i v.within;
      owned = Holding-owned (get choice f).1 (get choice f).0 (get-Holding choice f v);
    }

push-BufferValid :
    (f : ReceiveFlow) (x : PacketBuffer) → Holding f x → BufferValid f → BufferValid (push f x)
unfolding push put try_send
push-BufferValid f x h v = record {
  sound = ground arith;
  agree = ground arith;
  cancelled = ground arith;
  within = ground (arith, length-append f.buffer.items (x ∷ []));
  owned = push-owned f x h;
}

-- What has to do with the queue and the pool only is left alone.
abbrev SameBuffers : ReceiveFlow → ReceiveFlow → Type 0
SameBuffers f g =
    (g.buffer ≡ f.buffer)
    × (g.pool ≡ f.pool)
    × (g.next_buf ≡ f.next_buf)
    × (g.closed ≡ f.closed)
    × (g.ctx_done ≡ f.ctx_done)

same-BufferValid : (f g : ReceiveFlow) → SameBuffers f g → BufferValid f → BufferValid g
same-BufferValid f g (c, p, n, l, x) v = record {
  sound = rw c v.sound;
  agree = rw (c, l) v.agree;
  cancelled = rw (l, x) v.cancelled;
  within = rw c v.within;
  owned = λ b. rw (c, p, n) (v.owned b);
}

register_buffers : (f : ReceiveFlow) (s : ℕ) → SameBuffers f (register f s).0
unfolding register
register_buffers f s = ground arith

expire_buffers : (f : ReceiveFlow) (ch : ℕ) → SameBuffers f (expire_deadline f ch)
unfolding expire_deadline
expire_buffers f ch = ground arith

set_read_deadline_buffers : (f : ReceiveFlow) (d : Deadline) → SameBuffers f (set_read_deadline f d)
unfolding set_read_deadline renew_deadline
set_read_deadline_buffers f cleared = (refl, refl, refl, refl, refl)
set_read_deadline_buffers f passed = expire_buffers (renew_deadline f) _
set_read_deadline_buffers f later = (refl, refl, refl, refl, refl)

cancel_ctx-BufferValid : (f : ReceiveFlow) → BufferValid f → BufferValid (cancel_ctx f)
unfolding cancel_ctx
cancel_ctx-BufferValid f v = record {
  sound = v.sound;
  agree = v.agree;
  cancelled = inr refl;
  within = v.within;
  owned = v.owned;
}

close_buffer-BufferValid :
    (f : ReceiveFlow) → f.ctx_done ≡ true → BufferValid f → BufferValid (close_buffer f)
unfolding close_buffer close_chan
close_buffer-BufferValid f done v = record {
  sound = ground arith;
  agree = ground arith;
  cancelled = ground arith;
  within = ground arith;
  owned = λ b. ground (arith, v.owned b);
}

receive-BufferValid :
    (f : ReceiveFlow) (size : ℕ) (items : List PacketBuffer)
    → f.buffer.items ≡ items
    → BufferValid f
    → BufferValid (receive f size items).0
unfolding receive copy_packet put
receive-BufferValid f size [] e v = v
receive-BufferValid f size (x ∷ rest) e v = record {
  sound = ground arith;
  agree = ground arith;
  cancelled = ground arith;
  within = ground (arith, ap length e);
  owned = λ b. ground (arith, v.owned b, ap (count b) e);
}

starting_flow :
    (f : ReceiveFlow) (size : ℕ) (prefer : Bool) → (read_step f size prefer starting).0 ≡ f
unfolding read_step
starting_flow f size prefer = ground arith

waiting_flow :
    (f : ReceiveFlow) (size : ℕ) (prefer : Bool) (ch : ℕ)
    → let g = (read_step f size prefer (waiting ch)).0 in
      (g ≡ f) ⊎ (g ≡ (receive f size f.buffer.items).0)
unfolding read_step
waiting_flow f size prefer ch = ground arith

read_step-BufferValid :
    (f : ReceiveFlow) (size : ℕ) (prefer : Bool) (r : Reader)
    → BufferValid f
    → BufferValid (read_step f size prefer r).0
read_step-BufferValid f size prefer starting v = rw (starting_flow f size prefer) v
read_step-BufferValid f size prefer (waiting ch) v = elim (waiting_flow f size prefer ch) [
  | inl same ↦ rw same v
  | inr received ↦ rw received (receive-BufferValid f size f.buffer.items refl v)
]
read_step-BufferValid f size prefer (returned result) v = unfold read_step in v

pub Step-BufferValid : {f g : ReceiveFlow} → Step f g → BufferValid f → BufferValid g
Step-BufferValid {f} (arrive choice p) v =
    push-BufferValid (get choice f).1 (record ((get choice f).0) { bytes = p })
      (get-Holding choice f v) (get-BufferValid choice f v)
Step-BufferValid {f} (lose choice) v = get-BufferValid choice f v
Step-BufferValid {f} (open_stream s) v = same-BufferValid f _ (register_buffers f s) v
Step-BufferValid {f} (end_stream s) v =
    unfold unregister in same-BufferValid f _ (refl, refl, refl, refl, refl) v
Step-BufferValid {f} (set_deadline d) v = same-BufferValid f _ (set_read_deadline_buffers f d) v
Step-BufferValid {f} (expire ch) v = same-BufferValid f _ (expire_buffers f ch) v
Step-BufferValid {f} cancel v = cancel_ctx-BufferValid f v
Step-BufferValid {f} (shut done) v = close_buffer-BufferValid f done v
Step-BufferValid {f} (read size prefer r) v = read_step-BufferValid f size prefer r v
