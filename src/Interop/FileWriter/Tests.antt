-- ===== src/Interop/FileWriter/Tests.antt =====
-- examples/interop/file_writer.go with a buffer that gives packets out as they came, behind the first two.
use roq.Common.{ℕ, ◌≡◌, refl, none, some, List, [], ◌∷◌, ◌++◌, length, arith}
use roq.Errors.{closed}
use roq.Quicvarint.{Bytes}
use roq.Interop.Main.{Result, ok, fails}
use roq.Interop.FileWriter.{Popped, packet, empty, Pion, FileWriter, result, write, new_file_writer}
use roq.Interop.FileWriter.Write.{Smaller, all_popped, Passed, write-total}

abbrev take_front : List ℕ → List ℕ × Popped ℕ
take_front [] = ([], empty)
take_front (p ∷ []) = (p ∷ [], empty)
take_front (p ∷ r ∷ ps) = (r ∷ ps, packet p)

abbrev number : Bytes → Result ℕ
number [] = fails closed
number (b ∷ bs) = ok b

abbrev pion : Pion ℕ (List ℕ) (List ℕ)
pion = record {
  unmarshal = number;
  new_buffer = [];
  push = λ j p. j ++ (p ∷ []);
  pop = take_front;
  write_rtp = λ r p. (r ++ (p ∷ []), none);
  close = λ r. (r, none);
}

abbrev two_waiting : FileWriter (List ℕ) (List ℕ)
two_waiting = record { buffer = 4 ∷ 5 ∷ []; writer = [] }

take_front-Smaller : (j : List ℕ) → Smaller length (length j) (take_front j)
take_front-Smaller [] = tt
take_front-Smaller (p ∷ []) = tt
take_front-Smaller (p ∷ r ∷ ps) = omega arith

not_parsed : write pion 1 two_waiting [] ≡ result pion two_waiting [] (some closed) []
unfolding write
not_parsed = refl

unknown_codec : new_file_writer pion closed (λ f. ok []) (λ f. ok []) "out.ivf" "av1" ≡ fails closed
unfolding new_file_writer
unknown_codec = refl

write-total_example :
    Passed pion length take_front-Smaller
      (6 ∷ 0 ∷ [])
      (all_popped pion 4 (4 ∷ 5 ∷ 6 ∷ []))
      (write pion 4 two_waiting (6 ∷ 0 ∷ []))
write-total_example =
    write-total pion length take_front-Smaller 4 two_waiting (6 ∷ 0 ∷ []) 6 refl (omega arith)
