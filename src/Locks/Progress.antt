-- ===== src/Locks/Progress.antt =====
-- Whatever the interleaving of the goroutines is, one of them can go on.
use mathlib.Core.Path.{subst}
use mathlib.Core.List.{tail-eq_of_cons-eq}
use roq.Common.{
  ℕ, zero, suc, ◌+◌, ◌<◌, ◌≤◌, ◌≡◌, ◌⊎◌, inl, inr, refl, sym, List, [], ◌∷◌, length, All, arith,
}
use roq.Locks.{
  Lock, session_mutex, receive_flows_mutex, buffer_mutex, receive_flow_lock, send_flow_lock,
  stream_lock, send_flows_map, receive_flows_map, Call,
}
use roq.Locks.Threads.{
  Thread, start, Move, takes, gives, StepOf, first, later, Step, Reach, here, next, work, AllDone,
}
use roq.Locks.Ranks.{rank, Fine}
use roq.Locks.Waiting.{Holds, Holder, Next, done, moves, waits, Next-of}
use roq.Locks.Calls.{run_calls-Fine}

abbrev FineThread : Thread → Type 0
FineThread t = Fine t.held t.todo

Move-Fine : {ts : List Thread} {t t' : Thread} → Move ts t t' → FineThread t → FineThread t'
Move-Fine (takes l held rest free) f = f.1
Move-Fine (gives l held rest) (others, same, f) =
    subst (λ hs. Fine hs rest) (sym (tail-eq_of_cons-eq same)) f

StepOf-Fine :
    {all ts ts' : List Thread} → StepOf all ts ts' → All FineThread ts → All FineThread ts'
StepOf-Fine (first ts m) f = (Move-Fine m f.0, f.1)
StepOf-Fine (later t st) f = (f.0, StepOf-Fine st f.1)

start-Fine : (css : List (List Call)) → All FineThread (start css)
start-Fine [] = tt
start-Fine (cs ∷ css) = (run_calls-Fine cs, start-Fine css)

Reach-Fine : {s ts : List Thread} → Reach s ts → All FineThread s → All FineThread ts
Reach-Fine here f = f
Reach-Fine (next r st) f = StepOf-Fine st (Reach-Fine r f)

Move-work : {ts : List Thread} {t t' : Thread} → Move ts t t' → suc (length t'.todo) ≡ length t.todo
Move-work (takes l held rest free) = refl
Move-work (gives l held rest) = refl

StepOf-work : {all ts ts' : List Thread} → StepOf all ts ts' → suc (work ts') ≡ work ts
StepOf-work (first {t} {t'} ts m) = omega (arith, Move-work m)
StepOf-work (later t st) = omega (arith, StepOf-work st)

abbrev Goes : List Thread → List Thread → Type 0
Goes all ts = (ts' : List Thread) × StepOf all ts ts'

Goes-later : (all : List Thread) (t : Thread) (ts : List Thread) → Goes all ts → Goes all (t ∷ ts)
Goes-later all t ts (ts', st) = (t ∷ ts', later t st)

-- The holder of a mutex goes on, or waits for one of a higher rank that is held too.
abbrev HolderGoes : List Thread → Lock → List Thread → Type 0
HolderGoes all l ts = Goes all ts ⊎ ((l' : Lock) × (rank l < rank l') × Holder l' all)

holder_thread :
    (all : List Thread) (l : Lock) (t : Thread) (ts : List Thread)
    → Holds l t.held
    → Next all t
    → HolderGoes all l (t ∷ ts)
holder_thread all l t ts holds (done empty _) = absurd (subst (Holds l) empty holds)
holder_thread all l t ts holds (moves m) = inl (_, first ts m)
holder_thread all l t ts holds (waits l' taken above) = inr (l', above l holds, taken)

holder_goes :
    (all : List Thread) (l : Lock) (ts : List Thread)
    → All FineThread ts
    → Holder l ts
    → HolderGoes all l ts
holder_goes all l [] f h = absurd h
holder_goes all l (t ∷ ts) f (inl holds) =
    holder_thread all l t ts holds (Next-of all t.held t.todo f.0)
holder_goes all l (t ∷ ts) f (inr there) = elim (holder_goes all l ts f.1 there) [
  | inl go ↦ inl (Goes-later all t ts go)
  | inr more ↦ inr more
]

rank-lt : (l : Lock) → rank l < 5
rank-lt session_mutex = omega arith
rank-lt receive_flows_mutex = omega arith
rank-lt buffer_mutex = omega arith
rank-lt (receive_flow_lock r) = omega arith
rank-lt (send_flow_lock r) = omega arith
rank-lt (stream_lock x) = omega arith
rank-lt send_flows_map = omega arith
rank-lt receive_flows_map = omega arith

-- Waiting goes up in rank, so that it ends at a goroutine that goes on.
held-Goes :
    (k : ℕ) (l : Lock) (all : List Thread)
    → 5 ≤ rank l + k
    → All FineThread all
    → Holder l all
    → Goes all all
held-Goes zero l all enough f h = absurd (omega (arith, rank-lt l))
held-Goes (suc k) l all enough f h = elim (holder_goes all l all f h) [
  | inl go ↦ go
  | inr (l', above, h') ↦ held-Goes k l' all (omega arith) f h'
]

-- All have returned, or one goes on, or one waits for a mutex that is held.
some_thread :
    (all ts : List Thread)
    → All FineThread ts
    → AllDone ts ⊎ (Goes all ts ⊎ ((l : Lock) × Holder l all))
some_thread all [] f = inl tt
some_thread all (t ∷ ts) f = elim (Next-of all t.held t.todo f.0) [
  | moves m ↦ inr (inl (_, first ts m))
  | waits l taken _ ↦ inr (inr (l, taken))
  | done _ finished ↦ elim (some_thread all ts f.1) [
    | inl rest ↦ inl (finished, rest)
    | inr (inl go) ↦ inr (inl (Goes-later all t ts go))
    | inr (inr waiting) ↦ inr (inr waiting)
  ]
]

-- Any number of goroutines run any sequences of calls of the library, each call on any of its paths, with
-- their critical sections interleaved in any order. Then they never deadlock: at every point all have
-- returned from all their calls, or one of them can take the mutex that it is at, or give one back.
-- Each such step leaves one action less to do, so that every run of them ends, and ends with all calls
-- returned. What a call does between its mutexes is taken to return.
pub locks_never_deadlock :
    (css : List (List Call)) (ts : List Thread)
    → Reach (start css) ts
    → (AllDone ts ⊎ ((ts' : List Thread) × Step ts ts'))
      × ((ts' : List Thread) → Step ts ts' → suc (work ts') ≡ work ts)
locks_never_deadlock css ts r =
    let f = Reach-Fine r (start-Fine css) in
    (
      elim (some_thread ts ts f) [
        | inl finished ↦ inl finished
        | inr (inl go) ↦ inr go
        | inr (inr (l, taken)) ↦ inr (held-Goes 5 l ts (omega arith) f taken)
      ],
      λ ts' st. StepOf-work st,
    )
