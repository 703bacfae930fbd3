-- ===== src/Regions/Program/Prints.antt =====
-- Whatever the order in which the threads of Lab4/Lab4_2.c run, the program ends, and what it prints
-- is the file in ascending order.
use system_device_programmin.Base.{
  ℕ, ◌+◌, ◌-◌, ◌*◌, ◌≤◌, ◌<◌, ◌≡◌, ◌⊎◌, inl, inr, refl, subst, ◌∙◌, Bool, true, false, some, Option,
  get_elem?, get_elem?-lt, length, arith, ℕ_discrete,
}
use native.Mathlib.Nat.{mul-le-mul_left}
use mathlib.Core.List.{Perm}
use system_device_programmin.Regions.{Numbers}
use system_device_programmin.Regions.Swaps.{
  inversions, Swaps-perm, Swaps-length, Swaps-append, Swaps-widen, Swaps-inversions,
}
use system_device_programmin.Regions.Sift.{Ascending}
use system_device_programmin.Regions.Borders.{Crossed, none_crossed, crossed, borders-Crossed}
use system_device_programmin.Regions.Round.{bounds, keeps}
use system_device_programmin.Regions.Sorted.{whole}
use system_device_programmin.Regions.Barrier.{first_wait, sorting, second_wait, between}
use system_device_programmin.Regions.Barrier as Barrier
use system_device_programmin.Regions.Barrier.Phases.{count-all, no_deadlock, alone_at_borders}
use system_device_programmin.Regions.Program.{
  Program, SortsTo, CrossesTo, Step, sorts, swaps, passes, counts, goes, Ends, ends, Reach,
}
use system_device_programmin.Regions.Program.Parts.{
  at_barrier, gathers, Ascends, sorted_region, region_result, not_swapped,
}
use system_device_programmin.Regions.Program.Kept.{length-numbers, Reach-Kept}

module _ (nthreads n : ℕ) (some_thread : 0 < nthreads) (enough : nthreads ≤ n) (v0 : Numbers)
    (size0 : length v0 ≡ n) where
  -- In any run of the threads on a file of `n` numbers, at least as many as there are threads, and at
  -- least one thread: what the last thread at the barrier prints are the numbers of the file, all
  -- ascending.
  pub prints-Sorted :
      {k r : ℕ} {s : Program} {w : Numbers}
      → Reach nthreads n v0 k r s
      → Ends nthreads n s w
      → Ascending 0 n w × Perm v0 w
  prints-Sorted {s = s} {w} run (ends i {v} e last sort cross) =
      let kept = Reach-Kept nthreads n some_thread enough v0 size0 run in
      let (c, sw, _) = kept.exchanged in
      let lt : i < nthreads = omega (arith, get_elem?-lt s.barrier.threads i e, kept.threads) in
      let size : length s.numbers ≡ n = Swaps-length sw ∙ size0 in
      let (c', sw', asc) = region_result nthreads n some_thread enough i s.numbers lt size sort in
      let size_v : length v ≡ n = Swaps-length sw' ∙ size in
      let room = (bounds nthreads n some_thread enough i lt).1 in
      let regions : (j : ℕ) → j < nthreads → Ascends nthreads n some_thread enough v j = λ j lj.
        elim (ℕ_discrete i j) [
          | yes same ↦ subst (λ x. Ascends nthreads n some_thread enough v x) same asc
          | no ne ↦ keeps nthreads n some_thread enough i j ne lt lj sw' (
              kept.ascend
                ((gathers nthreads n some_thread enough i
                  (at_barrier nthreads n some_thread enough run) e).0)
                j
                (alone_at_borders nthreads some_thread i j
                  (at_barrier nthreads n some_thread enough run) e last ne
                  (omega (arith, kept.threads, lj))))
        ] in
      let (same_numbers, in_order) =
        not_swapped nthreads n some_thread enough
          (borders-Crossed nthreads n some_thread enough (nthreads - 1) 1 false v size_v
            (omega arith) (omega arith))
          cross in
      subst (λ x. Ascending 0 n x × Perm v0 x) same_numbers
        (
          whole nthreads n some_thread enough v size_v regions in_order,
          Swaps-perm (Swaps-append sw (Swaps-widen (omega arith) room sw')),
        )

  -- Where there are as many numbers as threads and at least one thread, borders are swapped at most
  -- once for each pair of numbers of the file in the wrong order, and a run has at most so many steps:
  -- the threads cannot go on for ever.
  pub few_steps :
      {k r : ℕ} {s : Program}
      → Reach nthreads n v0 k r s
      → (r ≤ inversions v0) × (k ≤ 4 * (nthreads * inversions v0) + nthreads)
  few_steps {k} {r} {s} run =
      let kept = Reach-Kept nthreads n some_thread enough v0 size0 run in
      let (c, sw, le) = kept.exchanged in
      let few : r ≤ inversions v0 = omega (arith, Swaps-inversions sw, le) in
      let most = mul-le-mul_left nthreads few in
      (few, omega (arith, kept.spent, kept.threads, count-all s.barrier.threads, most))

  crosses :
      (v : Numbers) {o : Option (Numbers × Bool)}
      → Crossed nthreads n some_thread enough 1 (nthreads - 1) false v o
      → (w : Numbers) × (swapped : Bool) × (o ≡ some (w, swapped))
  crosses v (none_crossed _) = (v, false, refl)
  crosses v (crossed {w = w} _ _) = (w, true, refl)

  -- In every state of a run, where there are as many numbers as threads and at least one thread, the
  -- last thread at the barrier prints the numbers and ends the program, or a thread makes a step.
  pub goes_on :
      {k r : ℕ} {s : Program}
      → Reach nthreads n v0 k r s
      → ((w : Numbers) × Ends nthreads n s w) ⊎ ((c : Bool) × (t : Program) × Step nthreads n s c t)
  goes_on {s = s} run =
      go (no_deadlock nthreads some_thread (at_barrier nthreads n some_thread enough run))
    where
      last_sorts :
          (i : ℕ) (v w : Numbers) (swapped : Bool)
          → get_elem? s.barrier.threads i ≡ some sorting
          → s.barrier.counter ≡ 1
          → SortsTo nthreads n i s.numbers v
          → CrossesTo nthreads n v w swapped
          → ((w : Numbers) × Ends nthreads n s w)
            ⊎ ((c : Bool) × (t : Program) × Step nthreads n s c t)
      last_sorts i v w false e last sort cross = inl (w, ends i e last sort cross)
      last_sorts i v w true e last sort cross = inr (true, _, swaps i e last sort cross)

      go :
          (t : Barrier.Barrier) × Barrier.Step nthreads s.barrier t
          → ((w : Numbers) × Ends nthreads n s w)
            ⊎ ((c : Bool) × (t : Program) × Step nthreads n s c t)
      go (_, Barrier.arriving i e) =
          let kept = Reach-Kept nthreads n some_thread enough v0 size0 run in
          let lt : i < nthreads = omega (arith, get_elem?-lt s.barrier.threads i e, kept.threads) in
          let size = length-numbers nthreads n some_thread enough v0 size0 kept in
          let (_, v, sort, sw, _) =
            sorted_region nthreads n some_thread enough i s.numbers lt size in
          elim (ℕ_discrete s.barrier.counter 1) [
            | no not_last ↦ inr (false, _, sorts i e not_last sort)
            | yes last ↦
                let (w, swapped, cross) = crosses v (
                  borders-Crossed nthreads n some_thread enough (nthreads - 1) 1 false v
                    (Swaps-length sw ∙ size) (omega arith) (omega arith)) in
                last_sorts i v w swapped e last sort cross
          ]
      go (_, Barrier.passing i e some_sem) = inr (false, _, passes i e some_sem)
      go (_, Barrier.counting i e) = inr (false, _, counts i e)
      go (_, Barrier.going i e some_sem) = inr (false, _, goes i e some_sem)
