-- ===== src/ReceiveFlow/Interleaving/Arrivals.antt =====
-- What one packet of receive_flow.go does to the queue, and lists of arrivals.
use roq.Common.{
  ℕ, ◌≡◌, ◌≢◌, ◌⊎◌, inl, inr, refl, sym, ap, ◌∙◌, Bool, true, false, List, [], ◌∷◌, ◌++◌, All,
  arith, Bool-cases, if◌then◌else◌,
}
use roq.Quicvarint.{Bytes, Quicvarint, IsQuicvarint}
use roq.Qlog.{Event}
use roq.RtpSendStream.Wire.{frames}
use roq.RtpSendStream.Run.{Fits}
use roq.ReceiveFlow.{
  ReceiveFlow, PacketBuffer, push, put, expire_deadline, Deadline, cleared, passed, later,
  renew_deadline, set_read_deadline, copy_packet,
}
use roq.ReceiveFlow.Queue.{offer, packets, accept, accept-packets, get-Keeps, get-items}
use roq.ReceiveFlow.Reader.{receive, waiting, read_step}
use roq.ReceiveFlow.Frames.{LogLevel, Ending, return, pushed, read_frame}
use roq.ReceiveFlow.Frames.Prefix.{read_frame-frame, read_frame-end}
use roq.ReceiveFlow.Invariant.{BufferValid}
use roq.ReceiveFlow.Interleaving.{first, takes}

closed_drops :
    (choice : ℕ) (f : ReceiveFlow) (p : Bytes)
    → f.closed ≡ true
    → packets (accept choice f p) ≡ packets f
unfolding push put
closed_drops choice f p h = ground (arith, (get-Keeps choice f).same_closed, get-items choice f)

-- A packet that arrives, at a queue that agrees with the bounded one.
pub accept-arrives :
    (choice : ℕ) (f : ReceiveFlow) (p : Bytes)
    → BufferValid f
    → packets (accept choice f p)
      ≡ (if f.closed then packets f else offer f.buffer.cap (packets f) p)
accept-arrives choice f p v =
    let kept : Bool → List Bytes = λ b. if b then packets f else offer f.buffer.cap (packets f) p in
    elim (Bool-cases f.closed) [
      | inr not_closed ↦
          accept-packets choice f p
            (record { not_closed = not_closed; chan_open = v.agree ∙ not_closed })
          ∙ sym (ap kept not_closed)
      | inl is_closed ↦ closed_drops choice f p is_closed ∙ sym (ap kept is_closed)
    ]

front :
    (taking : Bool) (xs : List PacketBuffer)
    → let ps = if taking then first xs else [] in (ps ≡ []) ⊎ ((p : Bytes) × (ps ≡ p ∷ []))
front false xs = inl refl
front true [] = inl refl
front true (x ∷ xs) = inr (x.bytes, refl)

-- A step of `Read` takes one packet at most.
pub takes_one :
    (f : ReceiveFlow) (prefer : Bool) (ch : ℕ)
    → (takes f prefer ch ≡ []) ⊎ ((p : Bytes) × (takes f prefer ch ≡ p ∷ []))
takes_one f prefer ch = front _ f.buffer.items

-- What the moves but for `Close` leave alone.
abbrev pub Same : ReceiveFlow → ReceiveFlow → Type 0
Same f g = (g.closed ≡ f.closed) × (g.buffer.cap ≡ f.buffer.cap)

pub set_read_deadline-Same : (f : ReceiveFlow) (d : Deadline) → Same f (set_read_deadline f d)
unfolding set_read_deadline renew_deadline expire_deadline
set_read_deadline-Same f cleared = (refl, refl)
set_read_deadline-Same f passed = (ground arith, ground arith)
set_read_deadline-Same f later = (refl, refl)

pub read-Same :
    (f : ReceiveFlow) (size : ℕ) (prefer : Bool) (ch : ℕ)
    → Same f (read_step f size prefer (waiting ch)).0
unfolding read_step receive copy_packet put
read-Same f size prefer ch = read_items f.buffer.items refl
  where
    read_items :
        (xs : List PacketBuffer)
        → f.buffer.items ≡ xs
        → Same f (read_step f size prefer (waiting ch)).0
    read_items [] e = (ground arith, ground arith)
    read_items (x ∷ xs) e = (ground arith, ground arith)

-- What a step of `Read` takes is the front of the queue.
pub takes-packets :
    (f : ReceiveFlow) (size : ℕ) (prefer : Bool) (ch : ℕ)
    → takes f prefer ch ++ packets (read_step f size prefer (waiting ch)).0 ≡ packets f
unfolding read_step receive copy_packet put
takes-packets f size prefer ch = took f.buffer.items refl
  where
    took :
        (xs : List PacketBuffer)
        → f.buffer.items ≡ xs
        → takes f prefer ch ++ packets (read_step f size prefer (waiting ch)).0 ≡ packets f
    took [] e = ground arith
    took (x ∷ xs) e = ground arith

pushed-ne-return :
    {f g : ReceiveFlow} {rest : Bytes} {events : List Event} {level : LogLevel}
    → pushed f rest events ≢ return g level
pushed-ne-return p = cc

same_flow :
    {f g : ReceiveFlow} {rest more : Bytes} {events others : List Event}
    → pushed f rest events ≡ pushed g more others
    → f ≡ g
same_flow e = ground arith

same_left :
    {f g : ReceiveFlow} {rest more : Bytes} {events others : List Event}
    → pushed f rest events ≡ pushed g more others
    → rest ≡ more
same_left e = ground arith

-- A round that pushes takes the next packet of its stream.
pub round_takes :
    (q : Quicvarint) (qv : IsQuicvarint q) (ending : Ending) (choice : ℕ) (f f' : ReceiveFlow)
    (i : ℕ) (ps : List Bytes) (left : Bytes) (events : List Event)
    → All Fits ps
    → read_frame q choice f i (frames q ps) ending ≡ pushed f' left events
    → (p : Bytes) × (rest : List Bytes) × (ps ≡ p ∷ rest)
      × (f' ≡ accept choice f p)
      × (left ≡ frames q rest)
round_takes q qv ending choice f f' i [] left events h e =
    absurd (pushed-ne-return (sym e ∙ read_frame-end q qv choice f i ending))
round_takes q qv ending choice f f' i (p ∷ ps) left events h e =
    let whole = read_frame-frame q qv choice f i p (frames q ps) ending h.0 in
    (p, ps, refl, same_flow (sym e ∙ whole), same_left (sym e ∙ whole))

pub set_read_deadline-packets :
    (f : ReceiveFlow) (d : Deadline) → packets (set_read_deadline f d) ≡ packets f
unfolding set_read_deadline renew_deadline expire_deadline
set_read_deadline-packets f cleared = refl
set_read_deadline-packets f passed = ground arith
set_read_deadline-packets f later = refl
