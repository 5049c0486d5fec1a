-- ===== src/Errors/Text.antt =====
-- errors.go: the text of a `SessionError`, as the code points of its characters.
mod Tests
use Prim.Native.Char.{code}
use Prim.Native.String.{String}
use roq.Common.{
  ℕ, zero, suc, ◌+◌, ◌-◌, ◌*◌, ◌/◌, ◌%◌, ◌^◌, ◌<◌, ◌≡◌, refl, ap, ◌∙◌, List, [], ◌∷◌, ◌++◌, arith,
  ltb, if◌then◌else◌, inl, inr, Bool-cases,
}
use roq.Errors.{SessionError}

abbrev pub codes : String → List ℕ
codes String.[] = []
codes (String.◌∷◌ c s) = code c ∷ codes s

-- A number in decimal, on fuel for its digits.
unfoldable pub decimal : ℕ → ℕ → List ℕ
decimal zero n = []
decimal (suc fuel) n =
    let front = decimal fuel (n / 10) in
    if ltb n 10 then (48 + n) ∷ [] else front ++ ((48 + n % 10) ∷ [])

-- `SessionError.Error`, whose code, a 64-bit number, has 20 digits at most.
unfoldable pub error : SessionError → List ℕ
error e = codes "roq session error " ++ (decimal 20 e.code ++ (codes ": " ++ codes e.reason))

-- The number that the digits write.
abbrev pub value : ℕ → List ℕ → ℕ
value acc [] = acc
value acc (d ∷ ds) = value (acc * 10 + (d - 48)) ds

value-append : (acc d : ℕ) (ds : List ℕ) → value acc (ds ++ (d ∷ [])) ≡ value acc ds * 10 + (d - 48)
value-append acc d [] = refl
value-append acc d (x ∷ ds) = value-append (acc * 10 + (x - 48)) d ds

-- The digits write the number, where there may be enough of them.
pub decimal-value : (fuel n : ℕ) → n < 10 ^ fuel → value 0 (decimal fuel n) ≡ n
unfolding decimal
decimal-value zero n h = omega (arith, h)
decimal-value (suc fuel) n h = elim (Bool-cases (ltb n 10)) [
  | inl small ↦ rw small (omega arith)
  | inr large ↦ rw large (
      value-append 0 (48 + n % 10) (decimal fuel (n / 10))
      ∙ ap (λ m. m * 10 + (48 + n % 10 - 48)) (decimal-value fuel (n / 10) (omega (arith, h)))
      ∙ omega arith)
]
