-- ===== src/Regions/Tests.antt =====
-- The program Lab4/Lab4_2.c on five numbers and two threads.
use system_device_programmin.Base.{
  int, ◌+◌, ◌^◌, ℕ, zero, suc, ◌≡◌, ◌<◌, ◌-◌, ◌*◌, true, ℕ_discrete, refl, List, [], ◌∷◌, some,
  get_elem?, pos, negsuc, arith,
}
use system_device_programmin.Regions.{Numbers, swap, sort_all, borders, rounds}
use system_device_programmin.Regions.Sorted.{IsOrder}
use system_device_programmin.Regions.Main.{
  File, divides_by_zero, ceil_log10, main, drawn, write_random,
}
use system_device_programmin.Regions.Main.Ends.{Right, main-Right, Printed, write_random-main}

abbrev file : Numbers
file = pos 9 ∷ pos 4 ∷ pos 7 ∷ negsuc 0 ∷ pos 2 ∷ []

-- The threads take turns to be first.
abbrev turns : ℕ → List ℕ
turns zero = 0 ∷ 1 ∷ []
turns (suc r) = 1 ∷ 0 ∷ []

sorts : rounds 2 5 turns 9 0 file ≡ some (negsuc 0 ∷ pos 2 ∷ pos 4 ∷ pos 7 ∷ pos 9 ∷ [])
unfolding rounds sort_all borders swap
sorts = refl

two_numbers : (a b p i : ℕ) → a < 2 → b < 2 → get_elem? (a ∷ b ∷ []) p ≡ some i → i < 2
two_numbers a b zero i la lb e = ground (arith, la)
two_numbers a b (suc zero) i la lb e = ground (arith, lb)
two_numbers a b (suc (suc p)) i la lb e = absurd (ground arith)

turns-IsOrder : (r : ℕ) → IsOrder 2 (turns r)
turns-IsOrder zero = record {
  threads = λ p i. two_numbers 0 1 p i (omega arith) (omega arith);
  all = λ i lt. (
    i,
    elim (ℕ_discrete i 0) [
      | yes e ↦ rw e refl
      | no ne ↦ let one : i ≡ 1 = omega arith in rw one refl
    ],
  );
}
turns-IsOrder (suc r) = record {
  threads = λ p i. two_numbers 1 0 p i (omega arith) (omega arith);
  all = λ i lt. (
    1 - i,
    elim (ℕ_discrete i 0) [
      | yes e ↦ rw e refl
      | no ne ↦ let one : i ≡ 1 = omega arith in rw one refl
    ],
  );
}

-- Twelve numbers, for two threads; they are written in descending order.
abbrev falling : ℕ → ℕ
falling k = 40 - 3 * k

generated :
    write_random falling true 3
    ≡ some (record { numbers = pos 40 ∷ pos 37 ∷ pos 34 ∷ []; rest = 0 })
unfolding write_random
generated = refl

a_second : ceil_log10 11 ≡ 2
unfolding ceil_log10
a_second = refl

-- The number of threads for one number.
no_thread :
    main (λ _. true) turns 9 true (some (record { numbers = pos 7 ∷ []; rest = 2 })) true true
    ≡ divides_by_zero
unfolding main int
no_thread = refl

twelve-IsOrder : (r : ℕ) → IsOrder (ceil_log10 12) (turns r)
unfolding ceil_log10
twelve-IsOrder r = turns-IsOrder r

write_random-main_example :
    Printed 12
      (drawn falling 12 0)
      (main (λ _. true) turns 99 true (write_random falling true 12) true true)
unfolding drawn
write_random-main_example =
    write_random-main (λ _. true) (λ i. refl) turns 99 falling 12 (omega arith) (omega arith)
      twelve-IsOrder (omega arith)

abbrev odd_file : File
odd_file = record { numbers = drawn falling 12 0; rest = 3 }

main-Right_example : Right odd_file (main (λ _. true) turns 99 true (some odd_file) true true)
unfolding drawn
main-Right_example =
    main-Right (λ _. true) (λ i. refl) turns 99 odd_file (omega arith) (omega arith) twelve-IsOrder
      (omega arith)

-- The size of a file of 2 ^ 30 + 1 numbers does not fit in `len`.
size_wraps : int (pos (4 * (2 ^ 30 + 1))) ≡ pos 4
unfolding int
size_wraps = refl
