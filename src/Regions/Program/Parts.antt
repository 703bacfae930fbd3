-- ===== src/Regions/Program/Parts.antt =====
-- What a thread of Lab4/Lab4_2.c does with its region, and the last one with the borders.
use system_device_programmin.Base.{
  ℕ, ◌-◌, ◌≤◌, ◌<◌, ◌≡◌, subst, Bool, true, false, some, Option, get_elem?, length, count_pos,
  arith,
}
use system_device_programmin.Regions.{Numbers, region_left, region_right}
use system_device_programmin.Regions.Swaps.{Swaps}
use system_device_programmin.Regions.Sift.{sort_region-Ascending}
use system_device_programmin.Regions.Borders.{Crossed, none_crossed, crossed, InOrder}
use system_device_programmin.Regions.Round.{RegionAscends, bounds, region_end}
use system_device_programmin.Regions.Barrier.{
  Barrier, Place, sorting, first_wait, between, second_wait, arrive, pass, count_up, go_on, initial,
}
use system_device_programmin.Regions.Barrier as Barrier
use system_device_programmin.Regions.Barrier.Phases.{
  code, Phase, gathering, letting_on, Reach-Phase,
}
use system_device_programmin.Regions.Program.{
  Program, SortsTo, sorts, swaps, passes, counts, goes, Reach, start, next,
}

module _ (nthreads n : ℕ) (some_thread : 0 < nthreads) (enough : nthreads ≤ n) where
  pub gathers :
      {s : Barrier} (i : ℕ)
      → Barrier.Reach nthreads s
      → get_elem? s.threads i ≡ some sorting
      → (s.sem ≡ 0) × (0 < s.counter)
  gathers {s} i run e = go (Reach-Phase nthreads some_thread run)
    where
      go : Phase nthreads s → (s.sem ≡ 0) × (0 < s.counter)
      go (gathering _ _ no_sem _ _ some_left) = (no_sem, some_left)
      go (letting_on _ none_sorting _ _ _ _) =
          absurd (omega (arith, count_pos code sorting s.threads i e))

  -- As far as the barrier goes, the threads are those of `Barrier`.
  pub at_barrier :
      {v : Numbers} {k r : ℕ} {s : Program}
      → Reach nthreads n v k r s
      → Barrier.Reach nthreads s.barrier
  at_barrier start = Barrier.start
  at_barrier (next run (sorts i e _ _)) = Barrier.next (at_barrier run) (Barrier.arriving i e)
  at_barrier (next run (swaps i e _ _ _)) = Barrier.next (at_barrier run) (Barrier.arriving i e)
  at_barrier (next run (passes i e lt)) = Barrier.next (at_barrier run) (Barrier.passing i e lt)
  at_barrier (next run (counts i e)) = Barrier.next (at_barrier run) (Barrier.counting i e)
  at_barrier (next run (goes i e lt)) = Barrier.next (at_barrier run) (Barrier.going i e lt)

  abbrev pub Ascends : Numbers → ℕ → Type 0
  Ascends = RegionAscends nthreads n some_thread enough

  -- The sort of a region, which is inside the file.
  pub sorted_region :
      (i : ℕ) (v : Numbers)
      → i < nthreads
      → length v ≡ n
      → (k : ℕ) × (w : Numbers) × SortsTo nthreads n i v w
        × Swaps (region_left nthreads n i) (region_end nthreads n some_thread enough i) k v w
        × Ascends w i
  sorted_region i v lt size =
      let (le, room) = bounds nthreads n some_thread enough i lt in
      sort_region-Ascending (region_left nthreads n i) (region_right nthreads n i) v le
        (omega arith)

  pub region_result :
      (i : ℕ) (v : Numbers) {w : Numbers}
      → i < nthreads
      → length v ≡ n
      → SortsTo nthreads n i v w
      → (k : ℕ) × Swaps
          (region_left nthreads n i)
          (region_end nthreads n some_thread enough i)
          k
          v
          w
        × Ascends w i
  region_result i v {w} lt size e =
      let (k, u, e', s, asc) = sorted_region i v lt size in
      let same_numbers : u ≡ w = ground (arith, e, e') in
      (
        k,
        subst
            (λ x.
              Swaps (region_left nthreads n i) (region_end nthreads n some_thread enough i) k v x)
            same_numbers s,
        subst (λ x. Ascends x i) same_numbers asc,
      )

  -- Borders are swapped, or all are in order.
  pub not_swapped :
      {v w : Numbers} {o : Option (Numbers × Bool)}
      → Crossed nthreads n some_thread enough 1 (nthreads - 1) false v o
      → o ≡ some (w, false)
      → (v ≡ w) × ((j : ℕ) → 1 ≤ j → j < nthreads → InOrder nthreads n some_thread enough v j)
  not_swapped (none_crossed h) e = (ground (arith, e), λ j lo hi. h j lo (omega arith))
  not_swapped (crossed _ _) e = absurd (ground (arith, e))

  pub was_swapped :
      {v w : Numbers} {o : Option (Numbers × Bool)}
      → Crossed nthreads n some_thread enough 1 (nthreads - 1) false v o
      → o ≡ some (w, true)
      → (c : ℕ) × (0 < c) × Swaps 0 n c v w
  was_swapped (none_crossed h) e = absurd (ground (arith, e))
  was_swapped {v} {w} (crossed {c} {w = u} pos_c s) e =
      let same_numbers : u ≡ w = ground (arith, e) in
      (c, pos_c, subst (λ x. Swaps 0 n c v x) same_numbers s)
