-- ===== src/Kernel/Cond/Alloc.antt =====
-- `cond_alloc` of Lab6/xv6-semaphores/file.c looks at every second entry only.
use system_device_programmin.Base.{
  ℕ, zero, suc, ◌+◌, ◌≤◌, ◌<◌, ◌≡◌, ◌≢◌, inl, inr, subst, List, true, false, some, ltb, ◌==◌,
  Bool-cases, ℕ_discrete, length, get_elem?, get_elem?_total, set, ℤ, pos, negsuc, arith,
}
use system_device_programmin.Kernel.Sched.{Sched}
use system_device_programmin.Kernel.Outcome.{Outcome, done}
use system_device_programmin.Kernel.Cond.{
  ncond_max, Mutex, Condition, CondTable, alloc_loop, cond_alloc,
}

-- The entries below `n` with an even number are in use.
abbrev pub EvenInUse : List Condition → ℕ → Type 0
EvenInUse l n = (j : ℕ) (c : Condition) → j + j < n → get_elem? l (j + j) ≡ some c → c.ref ≢ 0

EvenInUse-next :
    (l : List Condition) (k : ℕ) (c : Condition)
    → EvenInUse l (k + k)
    → get_elem? l (k + k) ≡ some c
    → c.ref ≢ 0
    → EvenInUse l (k + 1 + (k + 1))
EvenInUse-next l k c used at_k busy j u lt at_j = elim (ℕ_discrete j k) [
  | yes e ↦ λ free.
      let at_k' : get_elem? l (k + k) ≡ some u = subst (λ x. get_elem? l (x + x) ≡ some u) e at_j in
      busy (ground arith)
  | no ne ↦ used j u (omega arith) at_j
]

-- What `CondTable` is between two calls.
pub record IsIdle {Q : Type 0} (t : CondTable Q) : Type 0 where
  pub mutexes : length t.mutex ≡ ncond_max
  pub conditions : length t.condition ≡ ncond_max
  pub mutex_unlocked : t.mutex_lock ≡ false
  pub condition_unlocked : t.condition_lock ≡ false

module _ (sc : Sched) where
  pub data Allocated (t : CondTable sc.Procs) (o : Outcome (CondTable sc.Procs) ℤ) : Type 0 where
    taken :
        (k : ℕ) (c : Condition) (m : Mutex)
        → get_elem? t.condition (k + k) ≡ some c
        → get_elem? t.mutex (k + k) ≡ some m
        → c.ref ≡ 0
        → EvenInUse t.condition (k + k)
        → o
          ≡ done (pos (k + k)) (record t {
            condition = set t.condition (k + k) (record c { ref = 1 });
            mutex = set t.mutex (k + k) (record m { locked = 1 });
          })
        → Allocated t o
    full : EvenInUse t.condition ncond_max → o ≡ done (negsuc 0) t → Allocated t o

  abbrev held : CondTable sc.Procs → CondTable sc.Procs
  held t = record t { condition_lock = true; mutex_lock = true }

  alloc_loop-Allocated :
      (n k : ℕ) (t : CondTable sc.Procs)
      → IsIdle t
      → ncond_max ≤ k + k + n
      → EvenInUse t.condition (k + k)
      → Allocated t (alloc_loop sc n (k + k) (held t))
  unfolding alloc_loop
  alloc_loop-Allocated zero k t v e used = full (λ j c lt. used j c (omega arith)) (ground arith)
  alloc_loop-Allocated (suc n) k t v e used = elim (Bool-cases (ltb (k + k) ncond_max)) [
    | inr over ↦ full (λ j c lt. used j c (ground arith)) (ground arith)
    | inl below ↦
        let (c, at_c) = get_elem?_total t.condition (k + k) (ground arith) in
        let (m, at_m) = get_elem?_total t.mutex (k + k) (ground arith) in
        elim (Bool-cases (c.ref == 0)) [
          | inl free ↦ taken k c m at_c at_m (ground arith) used (ground arith)
          | inr busy ↦
              let twice : k + 1 + (k + 1) ≡ k + k + 1 + 1 = omega arith in
              let rest =
                alloc_loop-Allocated n (k + 1) t v (omega arith)
                  (EvenInUse-next t.condition k c used at_c (ground arith)) in
              subst (Allocated t) (ground (arith, twice)) rest
        ]
  ]

  -- `cond_alloc` takes the first free entry among those with an even number: it returns that number,
  -- marks the entry as used and its mutex as free. It returns -1 with nothing changed exactly when
  -- all entries with an even number are in use, so the other half of the table is never handed out.
  pub cond_alloc-Allocated : (t : CondTable sc.Procs) → IsIdle t → Allocated t (cond_alloc sc t)
  unfolding cond_alloc
  cond_alloc-Allocated t v =
      subst (Allocated t) (ground arith)
        (alloc_loop-Allocated ncond_max 0 t v (omega arith) (λ j c lt. elim lt [ ]))
