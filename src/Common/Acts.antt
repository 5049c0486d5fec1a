-- ===== src/Common/Acts.antt =====
-- How a program of examples/ runs: what it acquires and releases, in order, `defer`, and how it ends.
use roq.Common.{
  ℕ, ◌≡◌, refl, ap, sym, ◌&&◌, ◌∙◌, Bool, ◌||◌, true, false, Option, none, some, List, [], ◌∷◌,
  ◌++◌, ◌==◌, ==_refl, if◌then◌else◌,
}
use roq.Errors.{Error}

-- What has to be given back.
pub data Resource : Type 0 where
  key_log listener conn session flow process writer : Resource

pub data Act : Type 0 where
  acquires : Resource → Act
  releases : Resource → Act

-- `panics` is a call of `panic`, and `faults` a panic of Go itself.
pub data Outcome : Type 0 where
  returns : Option Error → Outcome
  panics : Error → Outcome
  faults : Outcome

pub record Run : Type 0 where
  pub acts : List Act
  pub outcome : Outcome

abbrev pub stops : Outcome → Run
stops o = record { acts = []; outcome = o }

abbrev pub acquired : Resource → Run → Run
acquired x rest = record rest { acts = acquires x ∷ rest.acts }

abbrev pub released : Resource → Run → Run
released x rest = record rest { acts = releases x ∷ rest.acts }

-- `defer`: the release comes after the rest, however that ends.
abbrev pub deferred : Resource → Run → Run
deferred x rest = record rest { acts = rest.acts ++ (releases x ∷ []) }

-- `if err != nil`, which ends the function, and then the rest.
abbrev pub checked : (Error → Outcome) → Option Error → Run → Run
checked fail (some e) rest = stops (fail e)
checked fail none rest = rest

-- `return err`
abbrev pub returns_error : Error → Outcome
returns_error e = returns (some e)

abbrev pub index : Resource → ℕ
index key_log = 0
index listener = 1
index conn = 2
index session = 3
index flow = 4
index process = 5
index writer = 6

abbrev after_own : Act → Bool → Option Bool
after_own (acquires y) false = some true
after_own (acquires y) true = none
after_own (releases y) true = some false
after_own (releases y) false = none

abbrev resource : Act → Resource
resource (acquires y) = y
resource (releases y) = y

abbrev after_act : Resource → Act → Option Bool → Option Bool
after_act x a none = none
after_act x a (some held) = if index x == index (resource a) then after_own a held else some held

-- Whether the program holds `x` after the acts; `none` where it acquired what it held, or released what it
-- did not hold.
abbrev pub held_after : Resource → Option Bool → List Act → Option Bool
held_after x held [] = held
held_after x held (a ∷ acts) = held_after x (after_act x a held) acts

abbrev acquires_it : Resource → Act → Bool
acquires_it x (acquires y) = index x == index y
acquires_it x (releases y) = false

abbrev pub is_acquired : Resource → List Act → Bool
is_acquired x [] = false
is_acquired x (a ∷ acts) = acquires_it x a || is_acquired x acts

is_acquired-append :
    (x y : Resource) (acts : List Act)
    → is_acquired x (acts ++ (releases y ∷ [])) ≡ is_acquired x acts
is_acquired-append x y [] = refl
is_acquired-append x y (a ∷ acts) = ap (λ b. acquires_it x a || b) (is_acquired-append x y acts)

and_false : (b : Bool) → (b && false) ≡ false
and_false true = refl
and_false false = refl

-- From `held` to `held'`.
unfoldable pub Leaves : Resource → Bool → Bool → Run → Type 0
Leaves x held held' r = held_after x (some held) r.acts ≡ some held'

pub checked-Leaves :
    (x : Resource) (h : Bool) (fail : Error → Outcome) (o : Option Error) (rest : Run)
    → Leaves x h h rest
    → Leaves x h h (checked fail o rest)
unfolding Leaves
checked-Leaves x h fail none rest k = k
checked-Leaves x h fail (some e) rest k = refl

held_after-append :
    (x : Resource) (h : Option Bool) (acts more : List Act)
    → held_after x h (acts ++ more) ≡ held_after x (held_after x h acts) more
held_after-append x h [] more = refl
held_after-append x h (a ∷ acts) more = held_after-append x (after_act x a h) acts more

-- A resource that is acquired, and released by a `defer`.
abbrev pub scoped : Resource → Run → Run
scoped x rest = acquired x (deferred x rest)

same-Leaves :
    (x y : Resource) (rest : Run)
    → (index x == index y) ≡ true
    → Leaves x true true rest
    → Leaves x false false (scoped y rest)
unfolding Leaves
same-Leaves x y rest e k =
    ap (λ b. held_after x (if b then some true else some false) (rest.acts ++ (releases y ∷ []))) e
    ∙ held_after-append x (some true) rest.acts (releases y ∷ [])
    ∙ ap (λ o. held_after x o (releases y ∷ [])) k
    ∙ ap (λ b. if b then some false else some true) e

pub other-Leaves :
    (x y : Resource) (h h' : Bool) (rest : Run)
    → (index x == index y) ≡ false
    → Leaves x h h' rest
    → Leaves x h h' (scoped y rest)
unfolding Leaves
other-Leaves x y h h' rest n k =
    ap
      (λ b.
        held_after x (if b then after_own (acquires y) h else some h)
          (rest.acts ++ (releases y ∷ [])))
      n
    ∙ held_after-append x (some h) rest.acts (releases y ∷ [])
    ∙ ap (λ o. held_after x o (releases y ∷ [])) k
    ∙ ap (λ b. if b then after_own (releases y) h' else some h') n

-- `defer session.Close()`, which closes the connection too.
abbrev pub session_scoped : Run → Run
session_scoped rest = acquired session (deferred conn (deferred session rest))

abbrev pub is_nil : Option Error → Bool
is_nil none = true
is_nil (some e) = false

-- Of `x` the run keeps what it has acquired, where it is one to be kept.
unfoldable pub Keeps : Resource → Bool → Run → Type 0
Keeps x kept run = Leaves x false (is_acquired x run.acts && kept) run

pub checked-Keeps :
    (x : Resource) (kept : Bool) (fail : Error → Outcome) (o : Option Error) (rest : Run)
    → Keeps x kept rest
    → Keeps x kept (checked fail o rest)
unfolding Keeps Leaves
checked-Keeps x kept fail none rest k = k
checked-Keeps x kept fail (some e) rest k = refl

pub same-Keeps :
    (x y : Resource) (rest : Run)
    → (index x == index y) ≡ true
    → Leaves x true true rest
    → Keeps x false (scoped y rest)
unfolding Keeps Leaves
same-Keeps x y rest e k =
    same-Leaves x y rest e k ∙ sym (ap some (and_false (is_acquired x (scoped y rest).acts)))

pub own-Keeps :
    (x : Resource) (rest : Run) → Leaves x true true rest → Keeps x false (scoped x rest)
own-Keeps x rest k = same-Keeps x x rest (==_refl (index x)) k

pub other-Keeps :
    (x y : Resource) (kept : Bool) (rest : Run)
    → (index x == index y) ≡ false
    → Keeps x kept rest
    → Keeps x kept (scoped y rest)
unfolding Keeps Leaves
other-Keeps x y kept rest n k =
    other-Leaves x y false _ rest n k
    ∙ sym (
        ap (λ b. some ((b || is_acquired x (rest.acts ++ (releases y ∷ []))) && kept)) n
        ∙ ap (λ b. some (b && kept)) (is_acquired-append x y rest.acts))

-- What is acquired around the run and not released.
pub acquired-Keeps :
    (x : Resource) (rest : Run) → Leaves x true true rest → Keeps x true (acquired x rest)
unfolding Keeps Leaves
acquired-Keeps x rest k =
    ap (λ b. held_after x (if b then some true else some false) rest.acts) (==_refl (index x))
    ∙ k
    ∙ sym (ap (λ b. some ((b || is_acquired x rest.acts) && true)) (==_refl (index x)))

pub acquired_other-Keeps :
    (x y : Resource) (kept : Bool) (rest : Run)
    → (index x == index y) ≡ false
    → Keeps x kept rest
    → Keeps x kept (acquired y rest)
unfolding Keeps Leaves
acquired_other-Keeps x y kept rest n k =
    ap (λ b. held_after x (if b then some true else some false) rest.acts) n
    ∙ k
    ∙ sym (ap (λ b. some ((b || is_acquired x rest.acts) && kept)) n)

pub acquired_other-Leaves :
    (x y : Resource) (h h' : Bool) (rest : Run)
    → (index x == index y) ≡ false
    → Leaves x h h' rest
    → Leaves x h h' (acquired y rest)
unfolding Leaves
acquired_other-Leaves x y h h' rest n k =
    ap (λ b. held_after x (if b then after_own (acquires y) h else some h) rest.acts) n ∙ k
