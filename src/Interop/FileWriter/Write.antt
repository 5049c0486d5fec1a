-- ===== src/Interop/FileWriter/Write.antt =====
-- `Write` of examples/interop/file_writer.go, over any jitter buffer that holds finitely many packets.
use mathlib.Core.Path.{subst}
use roq.Common.{
  ℕ, zero, suc, ◌<◌, ◌≤◌, ◌≡◌, ◌⊎◌, inl, inr, refl, sym, ap, Option, none, some, List, [], ◌∷◌,
  ◌++◌, length, arith, append-nil, append_assoc,
}
use roq.Errors.{Error}
use roq.Quicvarint.{Bytes}
use roq.Interop.Main.{ok}
use roq.Interop.FileWriter.{
  Popped, packet, nil, empty, Pion, FileWriter, WriteResult, or_error, on_pop, pop_loop,
  write_parsed, write,
}

module _ {P J R : Type 0} (n : Pion P J R) where
  abbrev after_pop : (J → List P) → J × Popped P → List P
  after_pop more (j, empty) = []
  after_pop more (j, nil) = more j
  after_pop more (j, packet p) = p ∷ more j

  -- The packets that the jitter buffer gives out until `Pop` fails, in at most so many calls.
  unfoldable pub all_popped : ℕ → J → List P
  all_popped zero j = []
  all_popped (suc fuel) j = after_pop (all_popped fuel) (n.pop j)

-- `Pop` takes something out of the buffer, unless it fails.
abbrev pub Smaller : {P J : Type 0} → (J → ℕ) → ℕ → J × Popped P → Type 0
Smaller size m (j, empty) = Unit
Smaller size m (j, nil) = size j < m
Smaller size m (j, packet p) = size j < m

module _ {P J R : Type 0} (n : Pion P J R) (size : J → ℕ)
    (shrinks : (j : J) → Smaller size (size j) (n.pop j)) where
  -- The result, by what the buffer gives out: all of it was passed on, or a first part and an error.
  abbrev pub Passed : Bytes → List P → Option (WriteResult P J R) → Type 0
  Passed buf popped o =
      (r : WriteResult P J R) × (o ≡ some r)
      × (r.count ≡ length buf)
      × (((r.err ≡ none) × (r.passed ≡ popped))
          ⊎ ((e : Error) × (rest : List P) × (r.err ≡ some e) × (popped ≡ r.passed ++ rest)))

  or_error-Passed :
      (w : FileWriter J R) (buf : Bytes) (passed rest : List P) (e : Option Error)
      (more : Option (WriteResult P J R))
      → Passed buf (passed ++ rest) more
      → Passed buf (passed ++ rest) (or_error n w buf passed e more)
  or_error-Passed w buf passed rest none more h = h
  or_error-Passed w buf passed rest (some e) more h = (_, refl, refl, inr (e, rest, refl, refl))

  on_pop-Passed :
      (fuel : ℕ) (buf : Bytes) (w : FileWriter J R) (passed : List P) (x : J × Popped P)
      → Smaller size fuel x
      → ((w : FileWriter J R) (passed : List P)
          → size w.buffer < fuel
          → Passed buf (passed ++ all_popped n fuel w.buffer) (pop_loop n fuel buf w passed))
      → Passed buf
          (passed ++ after_pop n (all_popped n fuel) x)
          (on_pop n (pop_loop n fuel buf) buf w passed x)
  on_pop-Passed fuel buf w passed (j, empty) less more =
      (_, refl, refl, inl (refl, sym (append-nil passed)))
  on_pop-Passed fuel buf w passed (j, nil) less more = more (record w { buffer = j }) passed less
  on_pop-Passed fuel buf w passed (j, packet p) less more =
      let (r, e) = n.write_rtp w.writer p in
      let w' : FileWriter J R = record { buffer = j; writer = r } in
      let next = pop_loop n fuel buf w' (passed ++ (p ∷ [])) in
      subst (λ l. Passed buf l (or_error n w' buf (passed ++ (p ∷ [])) e next))
        (append_assoc passed (p ∷ []) (all_popped n fuel j))
        (or_error-Passed w' buf (passed ++ (p ∷ [])) (all_popped n fuel j) e next
          (more w' (passed ++ (p ∷ [])) less))

  smaller_le : {m : ℕ} → (k : ℕ) (x : J × Popped P) → Smaller size m x → m ≤ k → Smaller size k x
  smaller_le k (j, empty) h l = tt
  smaller_le k (j, nil) h l = omega arith
  smaller_le k (j, packet p) h l = omega arith

  pop_loop-Passed :
      (fuel : ℕ) (buf : Bytes) (w : FileWriter J R) (passed : List P)
      → size w.buffer < fuel
      → Passed buf (passed ++ all_popped n fuel w.buffer) (pop_loop n fuel buf w passed)
  unfolding all_popped pop_loop
  pop_loop-Passed zero buf w passed h = absurd (omega arith)
  pop_loop-Passed (suc fuel) buf w passed h =
      on_pop-Passed fuel buf w passed (n.pop w.buffer)
        (smaller_le fuel (n.pop w.buffer) (shrinks w.buffer) (omega arith))
        (pop_loop-Passed fuel buf)

  -- For bytes that are a packet, and a jitter buffer of which each `Pop` that does not fail takes something
  -- out: `Write` returns. It passes on, in order, what the buffer with the packet gives out until `Pop`
  -- fails, and no error; or a first part of it, and the error of the codec's writer. The count is the
  -- number of the bytes.
  pub write-total :
      (fuel : ℕ) (w : FileWriter J R) (buf : Bytes) (p : P)
      → n.unmarshal buf ≡ ok p
      → size (n.push w.buffer p) < fuel
      → Passed buf (all_popped n fuel (n.push w.buffer p)) (write n fuel w buf)
  unfolding write
  write-total fuel w buf p parsed h =
      subst (Passed buf (all_popped n fuel (n.push w.buffer p)))
        (sym (ap (write_parsed n fuel buf w) parsed))
        (pop_loop-Passed fuel buf (record w { buffer = n.push w.buffer p }) [] h)
