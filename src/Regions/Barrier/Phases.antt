-- ===== src/Regions/Barrier/Phases.antt =====
-- Where the threads of Lab4/Lab4_2.c stand at their barrier: its two phases.
use system_device_programmin.Base.{
  ℕ, zero, suc, ◌+◌, ◌-◌, ◌<◌, ◌≡◌, ◌≢◌, refl, ap, count, same_place, count-set, count_pos,
  count_found, List, [], ◌∷◌, some, get_elem?, set, length, length-set, replicate, get_elem?-set_ne,
  get_elem?_total, ◌∙◌, dec_lt, arith, ℕ_discrete,
}
use system_device_programmin.Regions.Barrier.{
  Place, sorting, first_wait, between, second_wait, Barrier, arrive, pass, count_up, go_on, Step,
  arriving, passing, counting, going, Reach, start, next,
}

abbrev pub code : Place → ℕ
code sorting = 0
code first_wait = 1
code between = 2
code second_wait = 3

-- Every thread is somewhere.
pub count-all :
    (l : List Place)
    → count code sorting l
        + count code first_wait l
        + count code between l
        + count code second_wait l
      ≡ length l
unfolding count
count-all [] = omega arith
count-all (sorting ∷ l) = omega (arith, count-all l)
count-all (first_wait ∷ l) = omega (arith, count-all l)
count-all (between ∷ l) = omega (arith, count-all l)
count-all (second_wait ∷ l) = omega (arith, count-all l)

-- The threads gather in front of the first semaphore, or they are let on to the second one.
pub data Phase (nthreads : ℕ) (s : Barrier) : Type 0 where
  gathering :
      length s.threads ≡ nthreads
      → count code between s.threads ≡ 0
      → s.sem ≡ 0
      → s.sem2 ≡ count code second_wait s.threads
      → s.counter ≡ count code sorting s.threads + count code second_wait s.threads
      → 0 < s.counter
      → Phase nthreads s
  letting_on :
      length s.threads ≡ nthreads
      → count code sorting s.threads ≡ 0
      → s.sem2 ≡ 0
      → s.sem ≡ count code first_wait s.threads
      → s.counter ≡ count code second_wait s.threads
      → s.counter < nthreads
      → Phase nthreads s

module _ (l : List Place) (i : ℕ) {old : Place} (new : Place) (e : get_elem? l i ≡ some old) where
  -- A thread that moves is counted elsewhere.
  pub moved :
      (count code sorting (set l i new) + same_place code sorting old
        ≡ count code sorting l + same_place code sorting new)
      × (count code first_wait (set l i new) + same_place code first_wait old
          ≡ count code first_wait l + same_place code first_wait new)
      × (count code between (set l i new) + same_place code between old
          ≡ count code between l + same_place code between new)
      × (count code second_wait (set l i new) + same_place code second_wait old
          ≡ count code second_wait l + same_place code second_wait new)
      × (length (set l i new) ≡ length l)
  moved = (
    count-set code sorting new l i e,
    count-set code first_wait new l i e,
    count-set code between new l i e,
    count-set code second_wait new l i e,
    length-set l i new,
  )

module _ (nthreads : ℕ) (s : Barrier) (i : ℕ) where
  arrive-Phase :
      get_elem? s.threads i ≡ some sorting → Phase nthreads s → Phase nthreads (arrive nthreads i s)
  arrive-Phase e (gathering size none_between no_sem sem2 counter some_left) =
      let (a, b, c, d, size') = moved s.threads i first_wait e in
      let total = count-all (set s.threads i first_wait) in
      elim (ℕ_discrete (s.counter - 1) 0) [
        | yes last ↦
            letting_on (omega arith) (omega arith) (omega arith) (ground arith) (omega arith)
              (omega arith)
        | no more ↦
            gathering (omega arith) (omega arith) (ground arith) (omega arith) (omega arith)
              (omega arith)
      ]
  arrive-Phase e (letting_on size none_sorting _ _ _ _) =
      let (a, _, _, _, _) = moved s.threads i first_wait e in absurd (omega arith)

  pass-Phase :
      get_elem? s.threads i ≡ some first_wait
      → 0 < s.sem
      → Phase nthreads s
      → Phase nthreads (pass nthreads i s)
  pass-Phase e some_sem (gathering _ _ no_sem _ _ _) = absurd (omega arith)
  pass-Phase e some_sem (letting_on size none_sorting sem2 sem counter below) =
      let (a, b, c, d, size') = moved s.threads i between e in
      letting_on (omega arith) (omega arith) (omega arith) (omega arith) (omega arith) (omega arith)

  count_up-Phase :
      get_elem? s.threads i ≡ some between
      → Phase nthreads s
      → Phase nthreads (count_up nthreads i s)
  count_up-Phase e (gathering size none_between _ _ _ _) =
      let (a, b, c, _, _) = moved s.threads i second_wait e in absurd (omega arith)
  count_up-Phase e (letting_on size none_sorting sem2 sem counter below) =
      let (a, b, c, d, size') = moved s.threads i second_wait e in
      let total = count-all (set s.threads i second_wait) in
      elim (ℕ_discrete (s.counter + 1) nthreads) [
        | yes last ↦
            gathering (omega arith) (omega arith) (omega arith) (ground arith) (omega arith)
              (omega arith)
        | no more ↦
            letting_on (omega arith) (omega arith) (ground arith) (omega arith) (omega arith)
              (omega arith)
      ]

  go_on-Phase :
      get_elem? s.threads i ≡ some second_wait
      → 0 < s.sem2
      → Phase nthreads s
      → Phase nthreads (go_on nthreads i s)
  go_on-Phase e some_sem (letting_on _ _ no_sem _ _ _) = absurd (omega arith)
  go_on-Phase e some_sem (gathering size none_between no_sem sem2 counter some_left) =
      let (a, b, c, d, size') = moved s.threads i sorting e in
      gathering (omega arith) (omega arith) (omega arith) (omega arith) (omega arith) (omega arith)

apart : (p q : Place) → code p ≡ code q → q ≡ p
apart sorting sorting e = refl
apart sorting first_wait e = absurd (omega arith)
apart sorting between e = absurd (omega arith)
apart sorting second_wait e = absurd (omega arith)
apart first_wait sorting e = absurd (omega arith)
apart first_wait first_wait e = refl
apart first_wait between e = absurd (omega arith)
apart first_wait second_wait e = absurd (omega arith)
apart between sorting e = absurd (omega arith)
apart between first_wait e = absurd (omega arith)
apart between between e = refl
apart between second_wait e = absurd (omega arith)
apart second_wait sorting e = absurd (omega arith)
apart second_wait first_wait e = absurd (omega arith)
apart second_wait between e = absurd (omega arith)
apart second_wait second_wait e = refl

pub initial_counts :
    (n : ℕ) → (length (replicate n sorting) ≡ n) × (count code sorting (replicate n sorting) ≡ n)
unfolding count
initial_counts zero = (refl, refl)
initial_counts (suc n) = (omega (arith, (initial_counts n).0), omega (arith, (initial_counts n).1))

module _ (nthreads : ℕ) (some_thread : 0 < nthreads) where
  pub Reach-Phase : {s : Barrier} → Reach nthreads s → Phase nthreads s
  Reach-Phase start =
      let total = count-all (replicate nthreads sorting) in
      let (size, all) = initial_counts nthreads in
      gathering size (omega arith) refl (omega arith) (omega arith) some_thread
  Reach-Phase {s = t} (next {s} r (arriving i e)) = arrive-Phase nthreads s i e (Reach-Phase r)
  Reach-Phase {s = t} (next {s} r (passing i e some_sem)) =
      pass-Phase nthreads s i e some_sem (Reach-Phase r)
  Reach-Phase {s = t} (next {s} r (counting i e)) = count_up-Phase nthreads s i e (Reach-Phase r)
  Reach-Phase {s = t} (next {s} r (going i e some_sem)) =
      go_on-Phase nthreads s i e some_sem (Reach-Phase r)

  -- In every reachable state some thread can go on.
  pub no_deadlock : {s : Barrier} → Reach nthreads s → (t : Barrier) × Step nthreads s t
  no_deadlock {s} r = go (Reach-Phase r)
    where
      go : Phase nthreads s → (t : Barrier) × Step nthreads s t
      go (gathering _ _ _ sem2 counter some_left) = elim (dec_lt 0 (count code sorting s.threads)) [
        | yes some_there ↦
            let (i, e) = count_found code apart sorting s.threads some_there in (_, arriving i e)
        | no none_there ↦
            let (i, e) = count_found code apart second_wait s.threads (omega arith) in
            (_, going i e (omega arith))
      ]
      go (letting_on size none_sorting _ sem counter below) =
          elim (dec_lt 0 (count code first_wait s.threads)) [
            | yes some_there ↦
                let (i, e) = count_found code apart first_wait s.threads some_there in
                (_, passing i e (omega arith))
            | no none_there ↦
                let total = count-all s.threads in
                let (i, e) = count_found code apart between s.threads (omega arith) in
                (_, counting i e)
          ]

  -- When a thread counts down to 0, and then swaps the borders, every other thread waits in front of
  -- the first semaphore, so that none is sorting.
  pub alone_at_borders :
      {s : Barrier} (i j : ℕ)
      → Reach nthreads s
      → get_elem? s.threads i ≡ some sorting
      → s.counter ≡ 1
      → i ≢ j
      → j < length s.threads
      → get_elem? s.threads j ≡ some first_wait
  alone_at_borders {s} i j r e last ne lt =
      let (p, at_j) = get_elem?_total s.threads j lt in
      at_j ∙ ap some (go p (Reach-Phase r) (get_elem?-set_ne s.threads first_wait ne ∙ at_j))
    where
      go :
          (q : Place)
          → Phase nthreads s
          → get_elem? (set s.threads i first_wait) j ≡ some q
          → q ≡ first_wait
      go first_wait h at = refl
      go sorting (gathering _ _ _ sem2 counter _) at =
          let (a, _, _, _, _) = moved s.threads i first_wait e in
          absurd (omega (arith, count_pos code sorting (set s.threads i first_wait) j at))
      go between (gathering _ none_between _ _ _ _) at =
          let (_, _, c, _, _) = moved s.threads i first_wait e in
          absurd (omega (arith, count_pos code between (set s.threads i first_wait) j at))
      go second_wait (gathering _ _ _ sem2 counter _) at =
          let (a, _, _, d, _) = moved s.threads i first_wait e in
          absurd (
            omega (
              arith,
              count_pos code second_wait (set s.threads i first_wait) j at,
              count_pos code sorting s.threads i e,
            ))
      go q (letting_on _ none_sorting _ _ _ _) at =
          absurd (omega (arith, count_pos code sorting s.threads i e))
