-- ===== src/Quicvarint/Rfc.antt =====
-- The encoding of RFC 9000, Section 16, as a value of the interface: it shows that the promises of
-- `IsQuicvarint` can be met together, and it runs in tests.
use roq.Common.{
  drop, Bool-cases, inl, inr, All, ℕ, zero, suc, ◌+◌, ◌-◌, ◌*◌, ◌/◌, ◌%◌, ◌^◌, ◌≤◌, ◌<◌, ◌≡◌, ◌≢◌,
  refl, ap, [], ◌∷◌, ◌++◌, Option, none, some, arith, length, take, ltb, leb, if◌then◌else◌,
  length-append, length-take, take-append_length,
}
use roq.Quicvarint.{Bytes, IsByte, Quicvarint, IsQuicvarint, varint_limit}

-- The lowest `k` bytes of `w`, highest first.
abbrev pub be : ℕ → ℕ → Bytes
be zero w = []
be (suc k) w = be k (w / 256) ++ (w % 256 ∷ [])

abbrev pub value_from : ℕ → Bytes → ℕ
value_from acc [] = acc
value_from acc (b ∷ bs) = value_from (acc * 256 + b) bs

length-be : (k w : ℕ) → length (be k w) ≡ k
length-be zero w = refl
length-be (suc k) w =
    omega (arith, length-be k (w / 256), length-append (be k (w / 256)) (w % 256 ∷ []))

value_from-append :
    (acc : ℕ) (bs : Bytes) (b : ℕ) → value_from acc (bs ++ (b ∷ [])) ≡ value_from acc bs * 256 + b
value_from-append acc [] b = refl
value_from-append acc (x ∷ bs) b = value_from-append (acc * 256 + x) bs b

value_from-be : (k w : ℕ) → w < 256 ^ k → value_from 0 (be k w) ≡ w
value_from-be zero w h = omega arith
value_from-be (suc k) w h = omega (
  arith,
  value_from-append 0 (be k (w / 256)) (w % 256),
  value_from-be k (w / 256) (omega (arith, pow_step k)),
)
  where
    pow_step : (k : ℕ) → 256 ^ suc k ≡ 256 * 256 ^ k
    pow_step k = omega arith

-- `2 ^ size` bytes, with `size` in the two upper bits.
abbrev encode_sized : ℕ → ℕ → Bytes
encode_sized size v = be (2 ^ size) (v + size * 2 ^ (8 * 2 ^ size - 2))

abbrev size_of : ℕ → ℕ
size_of v =
    if ltb v (2 ^ 6) then 0 else if ltb v (2 ^ 14) then 1 else if ltb v (2 ^ 30) then 2 else 3

unfoldable pub encode : ℕ → Bytes
encode v =
    if ltb v (2 ^ 6)
    then encode_sized 0 v
    else if ltb v (2 ^ 14)
    then encode_sized 1 v
    else if ltb v (2 ^ 30)
    then encode_sized 2 v
    else encode_sized 3 v

unfoldable pub encoded_len : ℕ → ℕ
encoded_len v = 2 ^ size_of v

take_sized : ℕ → Bytes → Option (ℕ × ℕ)
take_sized size bs =
    if leb (2 ^ size) (length bs)
    then some (value_from 0 (take (2 ^ size) bs) % 2 ^ (8 * 2 ^ size - 2), 2 ^ size)
    else none

unfoldable pub parse : Bytes → Option (ℕ × ℕ)
unfolding take_sized
parse [] = none
parse (b ∷ t) = take_sized (b / 64 % 4) (b ∷ t)

take-be : (k w : ℕ) (rest : Bytes) → take k (be k w ++ rest) ≡ be k w
take-be k w rest = rw (length-be k w) at (take-append_length (be k w) rest)

take-take : (k : ℕ) (bs : Bytes) → take k (take k bs) ≡ take k bs
take-take zero bs = refl
take-take (suc k) [] = refl
take-take (suc k) (b ∷ bs) = ap (◌∷◌ b) (take-take k bs)

take_sized-be :
    (size v w : ℕ) (rest : Bytes)
    → w < 256 ^ (2 ^ size)
    → w % 2 ^ (8 * 2 ^ size - 2) ≡ v
    → take_sized size (be (2 ^ size) w ++ rest) ≡ some (v, 2 ^ size)
unfolding take_sized
take_sized-be size v w rest h e = ground (
  arith,
  take-be (2 ^ size) w rest,
  value_from-be (2 ^ size) w h,
  length-append (be (2 ^ size) w) rest,
  length-be (2 ^ size) w,
)

parse-encode :
    (v : ℕ) (rest : Bytes) → v < varint_limit → parse (encode v ++ rest) ≡ some (v, encoded_len v)
unfolding encode encoded_len parse
parse-encode v rest h = ground (
  arith,
  take_sized-be 0 v v rest,
  take_sized-be 1 v (v + 2 ^ 14) rest,
  take_sized-be 2 v (v + 2 * 2 ^ 30) rest,
  take_sized-be 3 v (v + 3 * 2 ^ 62) rest,
)

length-encode : (v : ℕ) → length (encode v) ≡ encoded_len v
unfolding encode encoded_len
length-encode v = ground arith

size_cases : (b : ℕ) → b < 256 → b / 64 % 4 ≡ b / 64
size_cases b h = omega arith

parse_first :
    (b : ℕ) (t : Bytes) (v n : ℕ) → IsByte b → parse (b ∷ t) ≡ some (v, n) → n ≡ 2 ^ (b / 64)
unfolding parse
parse_first b t v n h e = ground (arith, size_cases b h)

parse_fits : (b : ℕ) (t : Bytes) → IsByte b → 2 ^ (b / 64) ≤ length (b ∷ t) → parse (b ∷ t) ≢ none
unfolding parse
parse_fits b t h l = rw (size_cases b h) (λ e. ground arith)

take_sized_bounds :
    (size v n : ℕ) (bs : Bytes)
    → size < 4
    → take_sized size bs ≡ some (v, n)
    → (v < varint_limit) × (1 ≤ n) × (n ≤ length bs)
unfolding take_sized
take_sized_bounds zero v n bs h e = ground arith
take_sized_bounds (suc zero) v n bs h e = ground arith
take_sized_bounds (suc (suc zero)) v n bs h e = ground arith
take_sized_bounds (suc (suc (suc zero))) v n bs h e = ground arith
take_sized_bounds (suc (suc (suc (suc size)))) v n bs h e = absurd (omega arith)

parse_bounds :
    (bs : Bytes) (v n : ℕ) → parse bs ≡ some (v, n) → (v < varint_limit) × (1 ≤ n) × (n ≤ length bs)
unfolding parse
parse_bounds [] v n e = cc
parse_bounds (b ∷ t) v n e = take_sized_bounds (b / 64 % 4) v n (b ∷ t) (omega arith) e

take_sized-take :
    (size : ℕ) (bs : Bytes) (v n : ℕ)
    → take_sized size bs ≡ some (v, n)
    → take_sized size (take n bs) ≡ some (v, n)
unfolding take_sized
take_sized-take size bs v n e = ground (arith, take-take (2 ^ size) bs, length-take (2 ^ size) bs)

parse-take : (bs : Bytes) (v n : ℕ) → parse bs ≡ some (v, n) → parse (take n bs) ≡ some (v, n)
unfolding parse
parse-take [] v n e = cc
parse-take (b ∷ t) v zero e = absurd (omega (arith, parse_bounds (b ∷ t) v 0 e))
parse-take (b ∷ t) v (suc n) e = take_sized-take (b / 64 % 4) (b ∷ t) v (suc n) e

All-append : (xs ys : Bytes) → All IsByte xs → All IsByte ys → All IsByte (xs ++ ys)
All-append [] ys hx hy = hy
All-append (x ∷ xs) ys hx hy = (hx.0, All-append xs ys hx.1 hy)

be-IsByte : (k w : ℕ) → All IsByte (be k w)
be-IsByte zero w = tt
be-IsByte (suc k) w =
    All-append (be k (w / 256)) (w % 256 ∷ []) (be-IsByte k (w / 256)) (omega arith)

encode-IsByte : (v : ℕ) → All IsByte (encode v)
unfolding encode
encode-IsByte v = elim (Bool-cases (ltb v (2 ^ 6))) [
  | inl one ↦ rw one (be-IsByte 1 (v + 0))
  | inr more ↦ rw more (elim (Bool-cases (ltb v (2 ^ 14))) [
    | inl two ↦ rw two (be-IsByte 2 (v + 2 ^ 14))
    | inr more ↦ rw more (elim (Bool-cases (ltb v (2 ^ 30))) [
      | inl four ↦ rw four (be-IsByte 4 (v + 2 * 2 ^ 30))
      | inr eight ↦ rw eight (be-IsByte 8 (v + 3 * 2 ^ 62))
    ])
  ])
]

pub read : Bytes → Option (ℕ × Bytes)
read bs = elim (parse bs) [ none ↦ none | some (v, n) ↦ some (v, drop n bs) ]

read-parse : (bs : Bytes) (v n : ℕ) → parse bs ≡ some (v, n) → read bs ≡ some (v, drop n bs)
unfolding read
read-parse bs v n e = rw (e, read)

read_fails : (bs : Bytes) → parse bs ≡ none → read bs ≡ none
unfolding read
read_fails bs e = rw (e, read)

abbrev pub rfc : Quicvarint
rfc = record { parse = parse; append = λ b v. b ++ encode v; len = encoded_len; read = read }

-- The promises hold of the encoding of the RFC.
pub rfc-IsQuicvarint : IsQuicvarint rfc
rfc-IsQuicvarint = record {
  append-nil = λ b v h. refl;
  length-append = λ v h. length-encode v;
  append_bytes = λ v h. encode-IsByte v;
  parse-append = parse-encode;
  parse-nil = unfold parse in refl;
  parse_first = parse_first;
  parse_fits = parse_fits;
  parse_bounds = parse_bounds;
  parse-take = parse-take;
  read-parse = read-parse;
  read_fails = read_fails;
}

-- Two bytes that stand for 5, which fits into one.
pub rfc_parse_long : (rfc.parse (64 ∷ 5 ∷ 7 ∷ []) ≡ some (5, 2)) × (rfc.len 5 < 2)
unfolding parse encoded_len
rfc_parse_long = (refl, omega arith)
