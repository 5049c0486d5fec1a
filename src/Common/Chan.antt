-- ===== src/Common/Chan.antt =====
-- Go's channels. A channel with a buffer is its queue; of channels without one, which the program only
-- closes and waits on, the model keeps the identities. `faulted` records an operation at which Go panics:
-- a send on a closed channel, or a second close.
use Prim.Native.Nat.{ℕ, suc}
use mathlib.Core.Bool.{Bool, true, false}
use mathlib.Core.List.{List, [], ◌∷◌, ◌++◌}
use roq.Common.Tests.{◌==◌, ltb, if◌then◌else◌}
use roq.Common.Lists.{length}

pub record Chan {ℓ} (A : Type ℓ) : Type ℓ where
  pub items : List A
  pub cap : ℕ
  pub is_closed : Bool
  pub faulted : Bool

module _ {ℓ} {A : Type ℓ} where
  unfoldable pub make_chan : ℕ → Chan A
  make_chan cap = record { items = []; cap = cap; is_closed = false; faulted = false }

  -- `select { case c <- x: default: }`: whether `x` was sent.
  unfoldable pub try_send : Chan A → A → Chan A × Bool
  try_send c x =
      if c.is_closed
      then (record c { faulted = true }, false)
      else if ltb (length c.items) c.cap
      then (record c { items = c.items ++ (x ∷ []) }, true)
      else (c, false)

  unfoldable pub close_chan : Chan A → Chan A
  close_chan c = if c.is_closed then record c { faulted = true } else record c { is_closed = true }

-- The channels of type `chan struct{}` made so far have the identities below `next`.
pub record Signals : Type 0 where
  pub next : ℕ
  pub closed : List ℕ
  pub faulted : Bool

abbrev pub contains : ℕ → List ℕ → Bool
contains a [] = false
contains a (x ∷ xs) = if x == a then true else contains a xs

abbrev pub is_signalled : Signals → ℕ → Bool
is_signalled s ch = contains ch s.closed

unfoldable pub close_signal : ℕ → Signals → Signals
close_signal ch s =
    if is_signalled s ch then record s { faulted = true } else record s { closed = ch ∷ s.closed }

-- The identity of the new channel is the old `next`.
unfoldable pub make_signal : Signals → Signals
make_signal s = record s { next = suc s.next }
