-- ===== src/Locks/Threads.antt =====
-- Goroutines that run calls of the library, interleaved in any order.
use roq.Common.{ℕ, ◌+◌, ◌≡◌, ◌≢◌, List, [], ◌∷◌, length, All}
use roq.Locks.{Lock, Action, acquire, release, Call, run_calls}

-- The mutexes that a goroutine holds, the last one first, and what it has still to do.
pub record Thread : Type 0 where
  pub held : List Lock
  pub todo : List Action

-- A goroutine before its first call.
abbrev pub running : List Call → Thread
running cs = record { held = []; todo = run_calls cs }

abbrev pub start : List (List Call) → List Thread
start [] = []
start (cs ∷ css) = running cs ∷ start css

abbrev pub Free : Lock → List Thread → Type 0
Free l = All (λ t. All (λ h. h ≢ l) t.held)

-- One goroutine takes a mutex that nobody holds, or gives the one back that it took last.
pub data Move (ts : List Thread) : Thread → Thread → Type 0 where
  takes :
      (l : Lock) (held : List Lock) (rest : List Action)
      → Free l ts
      → Move ts
          (record { held = held; todo = acquire l ∷ rest })
          (record { held = l ∷ held; todo = rest })
  gives :
      (l : Lock) (held : List Lock) (rest : List Action)
      → Move ts
          (record { held = l ∷ held; todo = release l ∷ rest })
          (record { held = held; todo = rest })

-- A move of one of the goroutines; the first argument is all of them.
pub data StepOf (all : List Thread) : List Thread → List Thread → Type 0 where
  first : {t t' : Thread} (ts : List Thread) → Move all t t' → StepOf all (t ∷ ts) (t' ∷ ts)
  later : (t : Thread) {ts ts' : List Thread} → StepOf all ts ts' → StepOf all (t ∷ ts) (t ∷ ts')

abbrev pub Step : List Thread → List Thread → Type 0
Step ts ts' = StepOf ts ts ts'

pub data Reach (s : List Thread) : List Thread → Type 0 where
  here : Reach s s
  next : {ts ts' : List Thread} → Reach s ts → Step ts ts' → Reach s ts'

-- The actions that are left.
abbrev pub work : List Thread → ℕ
work [] = 0
work (t ∷ ts) = length t.todo + work ts

abbrev pub AllDone : List Thread → Type 0
AllDone = All (λ t. t.todo ≡ [])
