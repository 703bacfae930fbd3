-- ===== src/Regions/Program/Kept.antt =====
-- What the threads of Lab4/Lab4_2.c keep: the numbers of the file, and the order in each region that
-- was sorted.
use system_device_programmin.Base.{
  ℕ, suc, ◌+◌, ◌-◌, ◌*◌, ◌≤◌, ◌<◌, ◌≡◌, ◌≢◌, ap, subst, ◌∙◌, true, false, some, inl, inr, List,
  get_elem?, get_elem?-lt, get_elem?-set_cases, get_elem?-set_self, set, length, count, count_pos,
  arith, replicate,
}
use native.Mathlib.Nat.{mul-suc}
use system_device_programmin.Regions.{Numbers}
use system_device_programmin.Regions.Swaps.{Swaps, same, Swaps-length, Swaps-append, Swaps-widen}
use system_device_programmin.Regions.Borders.{borders-Crossed}
use system_device_programmin.Regions.Round.{bounds, keeps}
use system_device_programmin.Regions.Barrier.{
  Barrier, Place, sorting, first_wait, between, second_wait, arrive, pass, count_up, go_on, initial,
}
use system_device_programmin.Regions.Barrier as Barrier
use system_device_programmin.Regions.Barrier.Phases.{
  code, count-all, Phase, gathering, letting_on, moved, Reach-Phase, initial_counts,
}
use system_device_programmin.Regions.Program.{
  Program, SortsTo, CrossesTo, sorts, swaps, passes, counts, goes, Reach, start, next,
}
use system_device_programmin.Regions.Program.Parts.{
  gathers, at_barrier, Ascends, region_result, was_swapped,
}

-- A place other than the first semaphore is left out.
still_waits :
    (l : List Place) (i j : ℕ) (p : Place)
    → code p ≢ code first_wait
    → get_elem? (set l i p) j ≡ some first_wait
    → get_elem? l j ≡ some first_wait
still_waits l i j p ne at = elim (get_elem?-set_cases l i j p at) [
  | inl q ↦ absurd (ne (ap code q.1))
  | inr q ↦ q.1
]

module _ (nthreads n : ℕ) (some_thread : 0 < nthreads) (enough : nthreads ≤ n) where
  module _ (v0 : Numbers) (size0 : length v0 ≡ n) where
    -- After `k` steps and `r` swaps of borders.
    pub record Kept (k r : ℕ) (s : Program) : Type 0 where
      pub threads : length s.barrier.threads ≡ nthreads
      pub exchanged : (c : ℕ) × Swaps 0 n c v0 s.numbers × (r ≤ c)
      pub ascend :
          s.barrier.sem ≡ 0
          → (j : ℕ) → get_elem? s.barrier.threads j ≡ some first_wait
          → Ascends nthreads n some_thread enough s.numbers j
      pub spent :
          k
            + count code second_wait s.barrier.threads
            + 2 * count code between s.barrier.threads
            + 4 * s.barrier.sem
          ≡ 4 * (nthreads * r) + count code first_wait s.barrier.threads

    pub length-numbers : {k r : ℕ} {s : Program} → Kept k r s → length s.numbers ≡ n
    length-numbers v = Swaps-length (v.exchanged.1) ∙ size0

    sorts-Kept :
        {k r : ℕ} {s : Program} (i : ℕ) {v : Numbers}
        → Kept k r s
        → get_elem? s.barrier.threads i ≡ some sorting
        → s.barrier.counter ≢ 1
        → Barrier.Reach nthreads s.barrier
        → SortsTo nthreads n i s.numbers v
        → Kept (suc k) r (record { barrier = arrive nthreads i s.barrier; numbers = v })
    sorts-Kept {k} {r} {s} i {v} kept e not_last run sort =
        let lt : i < nthreads = omega (arith, get_elem?-lt s.barrier.threads i e, kept.threads) in
        let (c, sw, le) = kept.exchanged in
        let (c', sw', asc) =
          region_result nthreads n some_thread enough i s.numbers lt (length-numbers kept) sort in
        let room = (bounds nthreads n some_thread enough i lt).1 in
        let (no_sem, some_left) = gathers nthreads n some_thread enough i run e in
        let (sorting', first', between', second', size) = moved s.barrier.threads i first_wait e in
        record {
          threads = omega (arith, kept.threads, size);
          exchanged =
              (c + c', Swaps-append sw (Swaps-widen (omega arith) room sw'), omega (arith, le));
          ascend = λ _ j at. elim (get_elem?-set_cases s.barrier.threads i j first_wait at) [
            | inl p ↦ subst (λ x. Ascends nthreads n some_thread enough v x) (p.0) asc
            | inr p ↦
                keeps nthreads n some_thread enough i j (p.0) lt
                  (omega (arith, get_elem?-lt s.barrier.threads j (p.1), kept.threads)) sw'
                  (kept.ascend no_sem j (p.1))
          ];
          spent = ground (arith, kept.spent, first', between', second', not_last, some_left);
        }

    swaps-Kept :
        {k r : ℕ} {s : Program} (i : ℕ) {v w : Numbers}
        → Kept k r s
        → get_elem? s.barrier.threads i ≡ some sorting
        → s.barrier.counter ≡ 1
        → SortsTo nthreads n i s.numbers v
        → CrossesTo nthreads n v w true
        → Kept (suc k) (suc r) (record { barrier = arrive nthreads i s.barrier; numbers = w })
    swaps-Kept {k} {r} {s} i {v} {w} kept e last sort cross =
        let lt : i < nthreads = omega (arith, get_elem?-lt s.barrier.threads i e, kept.threads) in
        let (c, sw, le) = kept.exchanged in
        let (c', sw', asc) =
          region_result nthreads n some_thread enough i s.numbers lt (length-numbers kept) sort in
        let room = (bounds nthreads n some_thread enough i lt).1 in
        let size_v : length v ≡ n = Swaps-length sw' ∙ length-numbers kept in
        let (c'', pos_c, sw'') =
          was_swapped nthreads n some_thread enough
            (borders-Crossed nthreads n some_thread enough (nthreads - 1) 1 false v size_v
              (omega arith) (omega arith))
            cross in
        let (sorting', first', between', second', size) = moved s.barrier.threads i first_wait e in
        record {
          threads = omega (arith, kept.threads, size);
          exchanged = (
            (c + c') + c'',
            Swaps-append (Swaps-append sw (Swaps-widen (omega arith) room sw')) sw'',
            omega (arith, le, pos_c),
          );
          ascend = λ none_posted j at. absurd (ground (arith, last, none_posted));
          spent = ground (arith, kept.spent, first', between', second', last, mul-suc nthreads r);
        }

    -- The other steps leave the numbers as they are.
    passes-Kept :
        {k r : ℕ} {s : Program} (i : ℕ)
        → Kept k r s
        → get_elem? s.barrier.threads i ≡ some first_wait
        → 0 < s.barrier.sem
        → Barrier.Reach nthreads (pass nthreads i s.barrier)
        → Kept (suc k) r (record s { barrier = pass nthreads i s.barrier })
    passes-Kept {s = s} i kept e some_sem run =
        let (sorting', first', between', second', size) = moved s.barrier.threads i between e in
        record {
          threads = omega (arith, kept.threads, size);
          exchanged = kept.exchanged;
          ascend =
              λ none_left j at. absurd (go (Reach-Phase nthreads some_thread run) none_left j at);
          spent = ground (arith, kept.spent, first', between', second', some_sem);
        }
      where
        go :
            Phase nthreads (pass nthreads i s.barrier)
            → s.barrier.sem - 1 ≡ 0
            → (j : ℕ) → get_elem? (set s.barrier.threads i between) j ≡ some first_wait
            → ⊥
        go (gathering _ none_between _ _ _ _) none_left j at = omega (
          arith,
          none_between,
          count_pos code between (set s.barrier.threads i between) i
              (get_elem?-set_self s.barrier.threads i between (get_elem?-lt s.barrier.threads i e)),
        )
        go (letting_on _ _ _ sem _ _) none_left j at =
            omega (arith, sem, count_pos code first_wait (set s.barrier.threads i between) j at)

    counts-Kept :
        {k r : ℕ} {s : Program} (i : ℕ)
        → Kept k r s
        → get_elem? s.barrier.threads i ≡ some between
        → Kept (suc k) r (record s { barrier = count_up nthreads i s.barrier })
    counts-Kept {s = s} i kept e =
        let (sorting', first', between', second', size) = moved s.barrier.threads i second_wait e in
        record {
          threads = omega (arith, kept.threads, size);
          exchanged = kept.exchanged;
          ascend = λ no_sem j at.
              kept.ascend no_sem j (still_waits s.barrier.threads i j second_wait (omega arith) at);
          spent = ground (arith, kept.spent, first', between', second');
        }

    goes-Kept :
        {k r : ℕ} {s : Program} (i : ℕ)
        → Kept k r s
        → get_elem? s.barrier.threads i ≡ some second_wait
        → Kept (suc k) r (record s { barrier = go_on nthreads i s.barrier })
    goes-Kept {s = s} i kept e =
        let (sorting', first', between', second', size) = moved s.barrier.threads i sorting e in
        record {
          threads = omega (arith, kept.threads, size);
          exchanged = kept.exchanged;
          ascend = λ no_sem j at.
              kept.ascend no_sem j (still_waits s.barrier.threads i j sorting (omega arith) at);
          spent = ground (arith, kept.spent, first', between', second');
        }

    pub Reach-Kept : {k r : ℕ} {s : Program} → Reach nthreads n v0 k r s → Kept k r s
    Reach-Kept start =
        let (size, all) = initial_counts nthreads in
        let total = count-all (replicate nthreads sorting) in
        record {
          threads = size;
          exchanged = (0, same, omega arith);
          ascend = λ _ j at. absurd (
              omega (
                arith,
                size,
                all,
                total,
                count_pos code first_wait (replicate nthreads sorting) j at,
              ));
          spent = omega (arith, size, all, total);
        }
    Reach-Kept (next run (sorts i e not_last sort)) =
        sorts-Kept i (Reach-Kept run) e not_last (at_barrier nthreads n some_thread enough run) sort
    Reach-Kept (next run (swaps i e last sort cross)) =
        swaps-Kept i (Reach-Kept run) e last sort cross
    Reach-Kept (next run (passes i e some_sem)) =
        passes-Kept i (Reach-Kept run) e some_sem (
          Barrier.next (at_barrier nthreads n some_thread enough run)
            (Barrier.passing i e some_sem))
    Reach-Kept (next run (counts i e)) = counts-Kept i (Reach-Kept run) e
    Reach-Kept (next run (goes i e some_sem)) = goes-Kept i (Reach-Kept run) e
