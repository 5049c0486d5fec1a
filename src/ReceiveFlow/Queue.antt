-- ===== src/ReceiveFlow/Queue.antt =====
-- The packets queued in a receive flow, against a queue of bounded length that drops what does not fit.
use roq.Common.{
  ℕ, suc, ◌≤◌, ◌≡◌, refl, sym, ap, ◌∙◌, true, false, List, [], ◌∷◌, ◌++◌, length, take, ltb,
  if◌then◌else◌, arith, append-nil, append_assoc, length-append, take-append_le, take_all,
  Bool-cases, inl, inr,
}
use roq.Common.Chan.{try_send}
use roq.Quicvarint.{Bytes}
use roq.ReceiveFlow.{ReceiveFlow, PacketBuffer, get, put, push}

abbrev pub contents : List PacketBuffer → List Bytes
contents [] = []
contents (b ∷ bs) = b.bytes ∷ contents bs

-- The packets that `Read` will return, in order.
abbrev pub packets : ReceiveFlow → List Bytes
packets f = contents f.buffer.items

-- The flow takes packets.
pub record IsOpen (f : ReceiveFlow) : Type 0 where
  pub not_closed : f.closed ≡ false
  pub chan_open : f.buffer.is_closed ≡ false

contents-append : (xs ys : List PacketBuffer) → contents (xs ++ ys) ≡ contents xs ++ contents ys
contents-append [] ys = refl
contents-append (x ∷ xs) ys = ap (◌∷◌ x.bytes) (contents-append xs ys)

pub length-contents : (xs : List PacketBuffer) → length (contents xs) ≡ length xs
length-contents [] = refl
length-contents (x ∷ xs) = ap suc (length-contents xs)

-- One packet offered to a queue that holds at most `cap`.
abbrev pub offer : ℕ → List Bytes → Bytes → List Bytes
offer cap ps p = if ltb (length ps) cap then ps ++ (p ∷ []) else ps

abbrev pub offer_all : ℕ → List Bytes → List Bytes → List Bytes
offer_all cap qs [] = qs
offer_all cap qs (p ∷ ps) = offer_all cap (offer cap qs p) ps

-- Exactly the first `cap` of the packets are kept.
pub offer_all-take :
    (cap : ℕ) (qs ps : List Bytes) → length qs ≤ cap → offer_all cap qs ps ≡ take cap (qs ++ ps)
offer_all-take cap qs [] h = rw append-nil (sym (take_all cap qs h))
offer_all-take cap qs (p ∷ ps) h = elim (Bool-cases (ltb (length qs) cap)) [
  | inl room ↦ rw room (
      offer_all-take cap (qs ++ (p ∷ [])) ps (ground (arith, length-append qs (p ∷ [])))
      ∙ rw append_assoc)
  | inr full ↦
      rw full (offer_all-take cap qs ps h ∙ take-append_le cap qs ps (p ∷ ps) (ground arith))
]

pub push-packets :
    (f : ReceiveFlow) (b : PacketBuffer)
    → IsOpen f
    → packets (push f b) ≡ offer f.buffer.cap (packets f) b.bytes
unfolding push try_send put
push-packets f b o =
    ground (arith, length-contents f.buffer.items, contents-append f.buffer.items (b ∷ []))

-- A buffer from the pool, filled with a packet and pushed.
abbrev pub accept : ℕ → ReceiveFlow → Bytes → ReceiveFlow
accept choice f p = push (get choice f).1 (record ((get choice f).0) { bytes = p })

-- What a packet's arrival leaves alone.
pub record Keeps (f g : ReceiveFlow) : Type 0 where
  pub same_id : g.id ≡ f.id
  pub same_cap : g.buffer.cap ≡ f.buffer.cap
  pub same_chan_state : g.buffer.is_closed ≡ f.buffer.is_closed
  pub same_closed : g.closed ≡ f.closed
  pub same_ctx : g.ctx_done ≡ f.ctx_done
  pub same_streams : g.streams ≡ f.streams
  pub same_deadline_ch : g.deadline_ch ≡ f.deadline_ch
  pub same_expired : g.deadline_expired ≡ f.deadline_expired
  pub same_timer : g.deadline_timer ≡ f.deadline_timer
  pub same_signals : g.signals ≡ f.signals
  pub same_qlog : g.qlog ≡ f.qlog

pub get-Keeps : (choice : ℕ) (f : ReceiveFlow) → Keeps f (get choice f).1
unfolding get
get-Keeps choice f = ground arith

pub get-items : (choice : ℕ) (f : ReceiveFlow) → (get choice f).1.buffer ≡ f.buffer
unfolding get
get-items choice f = ground arith

push-Keeps : (f : ReceiveFlow) (b : PacketBuffer) → Keeps f (push f b)
unfolding push put try_send
push-Keeps f b = ground arith

pub accept-Keeps : (choice : ℕ) (f : ReceiveFlow) (p : Bytes) → Keeps f (accept choice f p)
accept-Keeps choice f p = ground (
  arith,
  get-Keeps choice f,
  push-Keeps (get choice f).1 (record ((get choice f).0) { bytes = p }),
)

pub accept-packets :
    (choice : ℕ) (f : ReceiveFlow) (p : Bytes)
    → IsOpen f
    → packets (accept choice f p) ≡ offer f.buffer.cap (packets f) p
accept-packets choice f p o =
    let k = get-Keeps choice f in
    push-packets (get choice f).1 (record ((get choice f).0) { bytes = p })
      (record {
        not_closed = k.same_closed ∙ o.not_closed;
        chan_open = k.same_chan_state ∙ o.chan_open;
      })
    ∙ rw (get-items choice f)

-- A closed flow lets a packet go.
pub accept_closed :
    (choice : ℕ) (f : ReceiveFlow) (p : Bytes)
    → f.closed ≡ true
    → packets (accept choice f p) ≡ packets f
unfolding push put get
accept_closed choice f p h = ground arith
