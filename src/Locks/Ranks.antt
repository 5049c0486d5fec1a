-- ===== src/Locks/Ranks.antt =====
-- The order of the mutexes, in which every function takes them.
use roq.Common.{
  ℕ, zero, suc, ◌<◌, ◌≤◌, ◌≡◌, refl, sym, Bool, true, false, List, [], ◌∷◌, ◌++◌, All,
  if◌then◌else◌, arith, append_assoc,
}
use mathlib.Core.Path.{subst}
use roq.Locks.{
  Lock, session_mutex, receive_flows_mutex, buffer_mutex, receive_flow_lock, send_flow_lock,
  stream_lock, send_flows_map, receive_flows_map, Action, acquire, release, locked, for_each,
  rounds,
}

abbrev pub rank : Lock → ℕ
rank session_mutex = 0
rank receive_flows_mutex = 1
rank buffer_mutex = 2
rank (receive_flow_lock r) = 3
rank (send_flow_lock r) = 3
rank (stream_lock x) = 3
rank send_flows_map = 4
rank receive_flows_map = 4

abbrev pub Below : ℕ → List Lock → Type 0
Below n = All (λ h. rank h < n)

-- With these mutexes held, the actions take only mutexes above them, give back the one that was taken
-- last, and leave none held.
abbrev pub Fine : List Lock → List Action → Type 0
Fine held [] = held ≡ []
Fine held (acquire l ∷ rest) = Below (rank l) held × Fine (l ∷ held) rest
Fine held (release l ∷ rest) = (others : List Lock) × (held ≡ l ∷ others) × Fine others rest

-- Actions that take only mutexes of the rank or above, and hold none of them in the end.
abbrev pub Runs : ℕ → List Action → Type 0
Runs n acts =
    (held : List Lock) (rest : List Action)
    → Below n held
    → Fine held rest
    → Fine held (acts ++ rest)

Below-le : (n m : ℕ) (held : List Lock) → n ≤ m → Below n held → Below m held
Below-le n m [] le h = tt
Below-le n m (l ∷ held) le h = (omega arith, Below-le n m held le h.1)

pub Runs-nil : (n : ℕ) → Runs n []
Runs-nil n held rest b f = f

pub Runs-append : (n : ℕ) (xs ys : List Action) → Runs n xs → Runs n ys → Runs n (xs ++ ys)
Runs-append n xs ys r r' held rest b f =
    subst (Fine held) (sym (append_assoc xs ys rest)) (r held (ys ++ rest) b (r' held rest b f))

pub Runs-locked :
    (n : ℕ) (l : Lock) (body : List Action)
    → n ≤ rank l
    → Runs (suc (rank l)) body
    → Runs n (locked l body)
unfolding locked
Runs-locked n l body le r held rest b f = (
  Below-le n (rank l) held le b,
  subst (Fine (l ∷ held)) (sym (append_assoc body (release l ∷ []) rest)) (
      r (l ∷ held) (release l ∷ rest) (omega arith, Below-le n (suc (rank l)) held (omega arith) b)
        (held, refl, f)),
)

pub Runs-if :
    (n : ℕ) (test : Bool) (xs ys : List Action)
    → Runs n xs
    → Runs n ys
    → Runs n (if test then xs else ys)
Runs-if n true xs ys r r' = r
Runs-if n false xs ys r r' = r'

pub Runs-for_each :
    (n : ℕ) (body : ℕ → List Action) (rs : List ℕ)
    → ((r : ℕ) → Runs n (body r))
    → Runs n (for_each body rs)
unfolding for_each
Runs-for_each n body [] h = Runs-nil n
Runs-for_each n body (r ∷ rs) h =
    Runs-append n (body r) (for_each body rs) (h r) (Runs-for_each n body rs h)

pub Runs-rounds : (n k : ℕ) (body : List Action) → Runs n body → Runs n (rounds k body)
unfolding rounds
Runs-rounds n zero body h = Runs-nil n
Runs-rounds n (suc k) body h = Runs-append n body (rounds k body) h (Runs-rounds n k body h)
