-- ===== src/Regions/Program/Tests.antt =====
-- A run of the program Lab4/Lab4_2.c with three numbers and two threads.
use system_device_programmin.Base.{◌+◌, ◌*◌, ◌≤◌, ◌⊎◌, refl, [], ◌∷◌, Bool, pos, arith}
use mathlib.Core.List.{Perm}
use system_device_programmin.Regions.{Numbers, sort_region, borders}
use system_device_programmin.Regions.Swaps.{inversions}
use system_device_programmin.Regions.Sift.{Ascending}
use system_device_programmin.Regions.Barrier.{sorting, first_wait}
use system_device_programmin.Regions.Program.{
  Program, Step, sorts, swaps, passes, counts, goes, Ends, ends, Reach, start, next,
}
use system_device_programmin.Regions.Program.Prints.{prints-Sorted, few_steps, goes_on}

abbrev file : Numbers
file = pos 9 ∷ pos 4 ∷ pos 7 ∷ []

abbrev in_order : Numbers
in_order = pos 4 ∷ pos 7 ∷ pos 9 ∷ []

-- A border was swapped, and the second thread has passed both semaphores first.
abbrev next_round : Program
next_round = record {
  barrier = record { counter = 2; sem = 0; sem2 = 0; threads = sorting ∷ sorting ∷ [] };
  numbers = pos 4 ∷ pos 9 ∷ pos 7 ∷ [];
}

one_round : Reach 2 3 file 8 1 next_round
unfolding sort_region borders
one_round =
    next
      (next
        (next
          (next
            (next
              (next
                (next (next start (sorts 0 refl (omega arith) refl)) (swaps 1 refl refl refl refl))
                (passes 1 refl (omega arith)))
              (counts 1 refl))
            (passes 0 refl (omega arith)))
          (counts 0 refl))
        (goes 1 refl (omega arith)))
      (goes 0 refl (omega arith))

-- The second thread sorts first, and the first one prints.
abbrev last_left : Program
last_left = record {
  barrier = record { counter = 1; sem = 0; sem2 = 0; threads = sorting ∷ first_wait ∷ [] };
  numbers = in_order;
}

run : Reach 2 3 file 9 1 last_left
unfolding sort_region
run = next one_round (sorts 1 refl (omega arith) refl)

last_left-Ends : Ends 2 3 last_left in_order
unfolding sort_region borders
last_left-Ends = ends 0 refl refl refl refl

prints-Sorted_example : Ascending 0 3 in_order × Perm file in_order
prints-Sorted_example = prints-Sorted 2 3 (omega arith) (omega arith) file refl run last_left-Ends

few_steps_example : (1 ≤ inversions file) × (9 ≤ 4 * (2 * inversions file) + 2)
few_steps_example = few_steps 2 3 (omega arith) (omega arith) file refl run

goes_on_example :
    ((w : Numbers) × Ends 2 3 next_round w) ⊎ ((c : Bool) × (t : Program) × Step 2 3 next_round c t)
goes_on_example = goes_on 2 3 (omega arith) (omega arith) file refl one_round
