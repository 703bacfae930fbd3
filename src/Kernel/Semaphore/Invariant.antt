-- ===== src/Kernel/Semaphore/Invariant.antt =====
-- What the operations keep of the semaphore table of Lab6/xv6-semaphores/file.c: the locks are
-- given back, and no process sleeps on a semaphore whose count is not negative.
use system_device_programmin.Base.{
  ℕ, suc, ◌^◌, ◌≤◌, ◌<◌, Bool-cases, ==_false, ◌≡◌, ◌∙◌, subst, inl, inr, true, false, some, length,
  length-set, get_elem?, get_elem?_total, set, get_elem?-set_cases, ℤ, pos, negsuc, pos_part,
  neg_part, ◌+ℤ◌, ltb_ℤ, int, int_of_IsInt, arith,
}
use system_device_programmin.Kernel.Sched.{
  Sched, sem_q, sleepers, sleepers-sleep_self, sleepers-sleep_other, sleepers-wakeup,
  sleepers-wakeup_self,
}
use system_device_programmin.Kernel.Outcome.{
  Outcome, done, sleeping, spinning, fault, panicked, Ends,
}
use system_device_programmin.Kernel.Semaphore.{
  nsem_max, Semaphore, SemTable, sem_destroy, sem_wait, sem_wait_woken, sem_post,
}
use system_device_programmin.Kernel.Semaphore.Steps.{
  sem_destroy_lem, sem_wait_lem, sem_wait_woken_lem, sem_post_lem,
}

-- A count one lower, and one higher.
pub record Down (z c : ℤ) : Type 0 where
  pub exact : int (z +ℤ negsuc 0) ≡ c
  pub above : pos_part c ≤ pos_part z
  pub below : neg_part c ≤ suc (neg_part z)
  pub sleeps : ltb_ℤ c (pos 0) ≡ true → neg_part c ≡ suc (neg_part z)
  pub passes : ltb_ℤ c (pos 0) ≡ false → neg_part z ≡ 0

pub record Up (z c : ℤ) : Type 0 where
  pub exact : int (z +ℤ pos 1) ≡ c
  pub above : pos_part c ≤ suc (pos_part z)
  pub below : neg_part c ≤ neg_part z
  pub none_waits : ltb_ℤ (pos 0) c ≡ true → neg_part z ≡ 0

module _ {b : ℕ} (small : suc b < 2 ^ 31) where
  pub down : (z : ℤ) → pos_part z ≤ b → neg_part z ≤ b → Down z (z +ℤ negsuc 0)
  down z hp hn = record {
    exact = int_of_IsInt (z +ℤ negsuc 0) (ground arith);
    above = ground arith;
    below = ground arith;
    sleeps = λ h. ground arith;
    passes = λ h. ground arith;
  }

  pub up : (z : ℤ) → pos_part z ≤ b → neg_part z ≤ b → Up z (z +ℤ pos 1)
  up z hp hn = record {
    exact = int_of_IsInt (z +ℤ pos 1) (ground arith);
    above = ground arith;
    below = ground arith;
    none_waits = λ h. ground arith;
  }

module _ (sc : Sched) (n : ℕ) where
  pub record IsSound (b : ℕ) (q : sc.Procs) (j : ℕ) (s : Semaphore) : Type 0 where
    pub unlocked : s.lock ≡ false
    pub above : pos_part s.count ≤ b
    pub below : neg_part s.count ≤ b
    pub covered : sleepers sc n (sem_q j) q ≤ neg_part s.count

  -- The counts lie between `-b` and `b`.
  pub record IsValid (b : ℕ) (t : SemTable sc.Procs) : Type 0 where
    pub size : length t.semaphore ≡ nsem_max
    pub table_unlocked : t.lock ≡ false
    pub entries : (j : ℕ) (s : Semaphore) → get_elem? t.semaphore j ≡ some s → IsSound b t.procs j s

  pub entry :
      {b : ℕ} {t : SemTable sc.Procs} (i : ℕ)
      → IsValid b t
      → i < nsem_max
      → (s : Semaphore) × (get_elem? t.semaphore i ≡ some s) × IsSound b t.procs i s
  entry {t = t} i v lt =
      let (s, e) = get_elem?_total t.semaphore i (omega (arith, v.size)) in (s, e, v.entries i s e)

  -- A write at one entry, and a change of the processes that wakes some or puts one to sleep there.
  pub store-IsValid :
      {b c : ℕ} {t : SemTable sc.Procs} (i : ℕ) (s : Semaphore) (q : sc.Procs)
      → IsValid b t
      → b ≤ c
      → IsSound c q i s
      → ((j : ℕ) → (i ≡ j → ⊥) → sleepers sc n (sem_q j) q ≤ sleepers sc n (sem_q j) t.procs)
      → IsValid c (record t { semaphore = set t.semaphore i s; procs = q })
  store-IsValid {b} {c} {t} i s q v le new rest = record {
    size = length-set t.semaphore i s ∙ v.size;
    table_unlocked = v.table_unlocked;
    entries = λ j u e. elim (get_elem?-set_cases t.semaphore i j s e) [
      | inl p ↦ subst (λ k. IsSound c q k u) p.0 (subst (IsSound c q i) p.1 new)
      | inr p ↦
          let old = v.entries j u p.1 in
          record {
            unlocked = old.unlocked;
            above = omega (arith, old.above);
            below = omega (arith, old.below);
            covered = omega (arith, old.covered, rest j p.0);
          }
    ];
  }

  pub IsValid-le : {b : ℕ} {t : SemTable sc.Procs} → IsValid b t → IsValid (suc b) t
  IsValid-le v = record {
    size = v.size;
    table_unlocked = v.table_unlocked;
    entries = λ j s e.
        let old = v.entries j s e in
        record {
          unlocked = old.unlocked;
          above = omega (arith, old.above);
          below = omega (arith, old.below);
          covered = old.covered;
        };
  }

  pub IsValid-le_Ends :
      (b : ℕ) (o : Outcome (SemTable sc.Procs) ℤ) → Ends (IsValid b) o → Ends (IsValid (suc b)) o
  IsValid-le_Ends b (done a s) v = IsValid-le v
  IsValid-le_Ends b (sleeping r s) v = IsValid-le v
  IsValid-le_Ends b spinning v = v
  IsValid-le_Ends b fault v = v
  IsValid-le_Ends b panicked v = v

  module _ {b : ℕ} {t : SemTable sc.Procs} (v : IsValid b t) where
    module _ (i : ℕ) (lt : i < nsem_max) where
      abbrev s : Semaphore
      s = (entry i v lt).0

      at_i : get_elem? t.semaphore i ≡ some s
      at_i = (entry i v lt).1

      old : IsSound b t.procs i s
      old = (entry i v lt).2

      pub sem_destroy-IsValid : Ends (IsValid b) (sem_destroy sc (pos i) t)
      sem_destroy-IsValid = rw (sem_destroy_lem sc i t lt at_i old.unlocked) (
          store-IsValid i _ _ v (omega arith)
            (record {
              unlocked = old.unlocked;
              above = old.above;
              below = old.below;
              covered = old.covered;
            })
            (λ j ne. omega arith))

      pub sem_wait_woken-IsValid : Ends (IsValid b) (sem_wait_woken sc i t)
      sem_wait_woken-IsValid =
          rw (sem_wait_woken_lem sc i t lt at_i old.unlocked)
            (store-IsValid i _ _ v (omega arith) old (λ j ne. omega arith))

      pub sem_wait-IsValid :
          (p : ℕ) → suc b < 2 ^ 31 → Ends (IsValid (suc b)) (sem_wait sc p (pos i) t)
      sem_wait-IsValid p small =
          let c = s.count +ℤ negsuc 0 in
          let d = down small s.count old.above old.below in
          rw (sem_wait_lem sc i t lt at_i old.unlocked p c d.exact)
            (elim (Bool-cases (ltb_ℤ c (pos 0))) [
              | inl neg ↦ rw neg (
                  store-IsValid i (record s { count = c }) _ v (omega arith)
                    (record {
                      unlocked = old.unlocked;
                      above = omega (arith, d.above, old.above);
                      below = omega (arith, d.below, old.below);
                      covered = omega (
                        arith,
                        d.sleeps neg,
                        old.covered,
                        sleepers-sleep_self sc n p (sem_q i) t.procs,
                      );
                    })
                    (λ j ne.
                      sleepers-sleep_other sc n p (sem_q j) (sem_q i) t.procs (==_false i j ne)))
              | inr nonneg ↦ rw nonneg (
                  store-IsValid i (record s { count = c }) _ v (omega arith)
                    (record {
                      unlocked = old.unlocked;
                      above = omega (arith, d.above, old.above);
                      below = omega (arith, d.below, old.below);
                      covered = omega (arith, d.passes nonneg, old.covered);
                    })
                    (λ j ne. omega arith))
            ])

      pub sem_post-IsValid : suc b < 2 ^ 31 → Ends (IsValid (suc b)) (sem_post sc (pos i) t)
      sem_post-IsValid small =
          let c = s.count +ℤ pos 1 in
          let d = up small s.count old.above old.below in
          rw (sem_post_lem sc i t lt at_i old.unlocked c d.exact)
            (elim (Bool-cases (ltb_ℤ (pos 0) c)) [
              | inl free ↦ rw free (
                  store-IsValid i (record s { count = c }) _ v (omega arith)
                    (record {
                      unlocked = old.unlocked;
                      above = omega (arith, d.above, old.above);
                      below = omega (arith, d.below, old.below);
                      covered = omega (arith, d.none_waits free, old.covered);
                    })
                    (λ j ne. omega arith))
              | inr waited ↦ rw waited (
                  store-IsValid i (record s { count = c }) _ v (omega arith)
                    (record {
                      unlocked = old.unlocked;
                      above = omega (arith, d.above, old.above);
                      below = omega (arith, d.below, old.below);
                      covered = omega (arith, sleepers-wakeup_self sc n (sem_q i) t.procs);
                    })
                    (λ j ne. sleepers-wakeup sc n (sem_q j) (sem_q i) t.procs))
            ])
