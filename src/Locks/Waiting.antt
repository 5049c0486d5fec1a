-- ===== src/Locks/Waiting.antt =====
-- What a goroutine comes to next, and what it may wait for.
use mathlib.Core.Path.{subst}
use roq.Common.{ℕ, ◌<◌, ◌≡◌, ◌≢◌, ◌⊎◌, inl, inr, refl, sym, List, [], ◌∷◌, All, ℕ_discrete}
use roq.Locks.{Lock, Action, acquire, release}
use roq.Locks.Threads.{Thread, Free, Move, takes, gives}
use roq.Locks.Ranks.{rank, Below, Fine}

Lock-discrete : Discrete Lock
Lock-discrete = hlevel (ℕ_discrete)

-- A goroutine holds the mutex.
abbrev pub Holds : Lock → List Lock → Type 0
Holds l [] = ⊥
Holds l (h ∷ hs) = (h ≡ l) ⊎ Holds l hs

abbrev pub Holder : Lock → List Thread → Type 0
Holder l [] = ⊥
Holder l (t ∷ ts) = Holds l t.held ⊎ Holder l ts

Holds-or_not : (l : Lock) (hs : List Lock) → All (λ h. h ≢ l) hs ⊎ Holds l hs
Holds-or_not l [] = inl tt
Holds-or_not l (h ∷ hs) = elim (Lock-discrete h l) [
  | yes same ↦ inr (inl same)
  | no other ↦ elim (Holds-or_not l hs) [
    | inl none_there ↦ inl (other, none_there)
    | inr there ↦ inr (inr there)
  ]
]

Free-or_held : (l : Lock) (ts : List Thread) → Free l ts ⊎ Holder l ts
Free-or_held l [] = inl tt
Free-or_held l (t ∷ ts) = elim (Holds-or_not l t.held) [
  | inr found ↦ inr (inl found)
  | inl not_here ↦ elim (Free-or_held l ts) [
    | inl free ↦ inl (not_here, free)
    | inr there ↦ inr (inr there)
  ]
]

Holds-Below : (l : Lock) (n : ℕ) (hs : List Lock) → Below n hs → Holds l hs → rank l < n
Holds-Below l n [] b h = absurd h
Holds-Below l n (h ∷ hs) b (inl same) = subst (λ x. rank x < n) same b.0
Holds-Below l n (h ∷ hs) b (inr there) = Holds-Below l n hs b.1 there

-- What a goroutine comes to next: it has returned from all its calls, can move, or waits for a mutex
-- that a goroutine holds, which is above those that it holds itself.
pub data Next (all : List Thread) (t : Thread) : Type 0 where
  done : t.held ≡ [] → t.todo ≡ [] → Next all t
  moves : {t' : Thread} → Move all t t' → Next all t
  waits : (l : Lock) → Holder l all → ((h : Lock) → Holds h t.held → rank h < rank l) → Next all t

pub Next-of :
    (all : List Thread) (held : List Lock) (todo : List Action)
    → Fine held todo
    → Next all (record { held = held; todo = todo })
Next-of all held [] f = done f refl
Next-of all held (acquire l ∷ rest) f = elim (Free-or_held l all) [
  | inl free ↦ moves (takes l held rest free)
  | inr taken ↦ waits l taken (λ h there. Holds-Below h (rank l) held f.0 there)
]
Next-of all held (release l ∷ rest) (others, same, f) =
    subst (λ hs. Next all (record { held = hs; todo = release l ∷ rest })) (sym same)
      (moves (gives l others rest))
