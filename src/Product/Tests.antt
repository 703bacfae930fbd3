-- ===== src/Product/Tests.antt =====
-- Lab2/Lab2.3_1.c and Lab2/Lab2.3_2.c with two rows, and numbers for `float`.
use system_device_programmin.Base.{ℕ, ◌+◌, ◌*◌, ◌≡◌, refl, [], ◌∷◌, some, arith}
use system_device_programmin.Product.{
  Float, System, row, sequential, computing, counting, Reach, start, next, result_loop, ended,
}
use system_device_programmin.Product.Threads.{printed-sequential}

abbrev numbers : Float
numbers = record { F = ℕ; nil = 0; plus = λ a b. a + b; times = λ a b. a * b }

abbrev entry : ℕ → ℕ → ℕ
entry i j = 10 * i + j

-- 1 * (0 + 1) * 1 + 2 * (10 + 11) * 2
in_turn : sequential numbers 2 (λ i. i + 1) (λ i. i + 1) entry 7 ≡ some 85
unfolding sequential
in_turn = refl

-- The second thread is the first to end.
abbrev both_ended : System numbers
both_ended = record {
  v = 1 ∷ 42 ∷ [];
  cnt = 0;
  printed = some 85 ∷ [];
  threads = ended ∷ ended ∷ [];
}

reached : Reach numbers 2 (λ i. i + 1) (λ i. i + 1) entry 7 both_ended
unfolding row result_loop
reached =
    next (next (next (next start (computing 1 refl)) (counting 1 refl)) (computing 0 refl))
      (counting 0 refl)

printed-sequential_example :
    (x : ℕ) × (sequential numbers 2 (λ i. i + 1) (λ i. i + 1) entry 7 ≡ some x)
    × (both_ended.printed ≡ some x ∷ [])
printed-sequential_example =
    printed-sequential numbers 2 (λ i. i + 1) (λ i. i + 1) entry 7 (omega arith) reached
