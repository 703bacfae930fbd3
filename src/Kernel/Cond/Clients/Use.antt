-- ===== src/Kernel/Cond/Clients/Use.antt =====
-- A condition of Lab6/xv6-semaphores/file.c stays in use, and its mutex as it is, while others are
-- allocated and released.
use system_device_programmin.Base.{
  ℕ, zero, suc, ◌+◌, ◌≡◌, ◌≢◌, refl, none, some, if◌then◌else◌, ◌==◌, get_elem?, get_elem?-set_self,
  get_elem?-set_ne, get_elem?-lt, set, Option-cases, inl, inr, true, false, ℤ, arith, ℕ_discrete,
  Bool-cases,
}
use system_device_programmin.Kernel.Sched.{Sched, alarm_clock}
use system_device_programmin.Kernel.Outcome.{
  Outcome, done, sleeping, spinning, fault, panicked, Resume, After, ◌>>=◌, ◌>>◌, in_cond_lock,
  in_cond_wait, in_cond_wait_lock,
}
use system_device_programmin.Kernel.Cond
use system_device_programmin.Kernel.Cond.{CondTable}
use system_device_programmin.Kernel.Cond.Clients.Mutex.{free}

module _ (sc : Sched) (i : ℕ) where
  abbrev State : Type 0
  State = CondTable sc.Procs

  -- Whether the condition is in use.
  abbrev pub in_use : State → ℕ
  in_use t = elim (get_elem? t.condition i) [ none ↦ 0 | some c ↦ if c.ref == 0 then 0 else 1 ]

  abbrev pub Used : State → Type 0
  Used t = in_use t ≡ 1

  then-After :
      {A B : Type 0} (P : State → Type 0) (m : State → Outcome State A)
      (f : A → State → Outcome State B) (t : State)
      → After P (m t)
      → ((a : A) (t' : State) → P t' → After P (f a t'))
      → After P ((m >>= f) t)
  then-After {A} {B} P m f t h k = go (m t) h
    where
      go :
          (o : Outcome State A)
          → After P o
          → After P (elim o [
            | done a s' ↦ f a s'
            | sleeping r s' ↦ sleeping r s'
            | spinning ↦ spinning
            | fault ↦ fault
            | panicked ↦ panicked
          ])
      go (done a s') h' = k a s' h'
      go (sleeping r s') h' = h'
      go spinning h' = tt
      go fault h' = tt
      go panicked h' = tt

  changed :
      (c c' : Cond.Condition) (t : State)
      → get_elem? t.condition i ≡ some c
      → get_elem? (set t.condition i c') i ≡ some c'
  changed c c' t e = get_elem?-set_self t.condition i c' (get_elem?-lt t.condition i e)

  acquire_mutex-Used : (t : State) → Used t → After Used (Cond.acquire_mutex sc i t)
  acquire_mutex-Used t u = unfold Cond.acquire_mutex in ground (arith, u)

  acquire_condition-Used : (t : State) → Used t → After Used (Cond.acquire_condition sc i t)
  acquire_condition-Used t u =
      unfold Cond.acquire_condition in
      elim (Option-cases (get_elem? t.condition i)) [
        | inl no_entry ↦ ground (arith, no_entry)
        | inr (c, e) ↦ ground (arith, u, e, changed c (record c { lock = true }) t e)
      ]

  release_condition-Used : (t : State) → Used t → After Used (Cond.release_condition sc i t)
  release_condition-Used t u =
      unfold Cond.release_condition in
      elim (Option-cases (get_elem? t.condition i)) [
        | inl no_entry ↦ ground (arith, no_entry)
        | inr (c, e) ↦ ground (arith, u, e, changed c (record c { lock = false }) t e)
      ]

  lock_loop-Used :
      (at : Resume) (p : ℕ) (t : State) → Used t → After Used (Cond.lock_loop sc at p i t)
  lock_loop-Used at p t u = unfold Cond.lock_loop in ground (arith, u)

  lock_at-Used : (at : Resume) (p : ℕ) (t : State) → Used t → After Used (Cond.lock_at sc at p i t)
  lock_at-Used at p t u =
      unfold Cond.lock_at in
      then-After Used (Cond.acquire_mutex sc i) (λ _. Cond.lock_loop sc at p i) t
        (acquire_mutex-Used t u) (λ _. lock_loop-Used at p)

  pub cond_lock-Used : (p : ℕ) (t : State) → Used t → After Used (Cond.cond_lock sc p i t)
  cond_lock-Used p t u = unfold Cond.cond_lock in lock_at-Used (in_cond_lock i) p t u

  pub cond_unlock-Used : (t : State) → Used t → After Used (Cond.cond_unlock sc i t)
  cond_unlock-Used t u = unfold Cond.cond_unlock in ground (arith, u)

  pub cond_wait_lock_woken-Used :
      (p : ℕ) (t : State) → Used t → After Used (Cond.cond_wait_lock_woken sc p i t)
  cond_wait_lock_woken-Used p t u =
      unfold Cond.cond_wait_lock_woken in
      then-After Used (Cond.lock_at sc (in_cond_wait_lock i) p i) (λ _. Cond.release_condition sc i)
        t (lock_at-Used (in_cond_wait_lock i) p t u) (λ _. release_condition-Used)

  pub cond_wait_woken-Used :
      (p : ℕ) (t : State) → Used t → After Used (Cond.cond_wait_woken sc p i t)
  cond_wait_woken-Used p t u =
      unfold Cond.cond_wait_woken Cond.cond_wait_lock_woken in
      then-After Used (Cond.acquire_condition sc i) (λ _. Cond.cond_wait_lock_woken sc p i) t
        (acquire_condition-Used t u) (λ _. cond_wait_lock_woken-Used p)

  pub cond_wait-Used : (p : ℕ) (t : State) → Used t → After Used (Cond.cond_wait sc p i t)
  cond_wait-Used p t u =
      unfold Cond.cond_wait in
      let rest : State → Outcome State (Unit {0}) =
        λ v. sleeping (in_cond_wait i) (record v { procs = sc.sleep p (alarm_clock i) v.procs }) in
      then-After Used (Cond.acquire_condition sc i)
        (λ _. Cond.cond_unlock sc i >> (Cond.release_condition sc i >> rest)) t
        (acquire_condition-Used t u)
        (λ _ t1 u1.
          then-After Used (Cond.cond_unlock sc i) (λ _. Cond.release_condition sc i >> rest) t1
            (cond_unlock-Used t1 u1)
            (λ _ t2 u2.
              then-After Used (Cond.release_condition sc i) (λ _. rest) t2
                (release_condition-Used t2 u2) (λ _ t3 u3. u3)))

  pub cond_set-Used : (val : ℤ) (t : State) → Used t → After Used (Cond.cond_set sc i val t)
  cond_set-Used val t u =
      unfold Cond.cond_set in
      elim (Option-cases (get_elem? t.condition i)) [
        | inl no_entry ↦ ground (arith, no_entry)
        | inr (c, e) ↦
            let c1 : Cond.Condition = record c { lock = true } in
            let t1 : State = record t { condition = set t.condition i c1 } in
            let e1 = changed c c1 t e in
            let c2 : Cond.Condition = record c1 { value = val } in
            let t2 : State = record t1 { condition = set t1.condition i c2 } in
            let e2 = changed c1 c2 t1 e1 in
            ground (arith, u, e, e1, e2, changed c2 (record c2 { lock = false }) t2 e2)
      ]

  pub cond_signal-Used : (t : State) → Used t → After Used (Cond.cond_signal sc i t)
  cond_signal-Used t u = unfold Cond.cond_signal in u

  pub cond_broadcast-Used : (t : State) → Used t → After Used (Cond.cond_broadcast sc i t)
  cond_broadcast-Used t u = unfold Cond.cond_broadcast in u

  -- The condition and its mutex, as they were.
  abbrev pub Untouched : State → State → Type 0
  Untouched t t' = (free sc i t' ≡ free sc i t) × (in_use t' ≡ in_use t)

  pub cond_destroy-Untouched :
      (j : ℕ) (t : State) → j ≢ i → After (Untouched t) (Cond.cond_destroy sc j t)
  cond_destroy-Untouched j t ne =
      unfold Cond.cond_destroy in
      elim (Option-cases (get_elem? t.condition j)) [
        | inl no_entry ↦ ground (arith, no_entry)
        | inr (c, e) ↦ ground (arith, e, get_elem?-set_ne t.condition (record c { ref = 0 }) ne)
      ]

  alloc_loop-Untouched :
      (n k : ℕ) (t : State) → Used t → After (Untouched t) (Cond.alloc_loop sc n k t)
  unfolding Cond.alloc_loop
  alloc_loop-Untouched zero k t u = (refl, refl)
  alloc_loop-Untouched (suc n) k t u =
      let rest = alloc_loop-Untouched n (k + 1 + 1) t u in
      elim (Option-cases (get_elem? t.condition k)) [
        | inl no_entry ↦ ground (arith, no_entry, rest)
        | inr (c, e) ↦ elim (Option-cases (get_elem? t.mutex k)) [
          | inl no_entry ↦ ground (arith, no_entry, e, rest)
          | inr (m, e') ↦ elim (ℕ_discrete k i) [
            | no ne ↦ ground (
              arith,
              e,
              e',
              rest,
              get_elem?-set_ne t.condition (record c { ref = 1 }) ne,
              get_elem?-set_ne t.mutex (record m { locked = 1 }) ne,
            )
            | yes same ↦ ground (arith, e, e', rest, u, same)
          ]
        ]
      ]

  pub cond_alloc-Untouched : (t : State) → Used t → After (Untouched t) (Cond.cond_alloc sc t)
  unfolding Cond.cond_alloc
  cond_alloc-Untouched t u = elim (Bool-cases t.condition_lock) [
    | inl held ↦ rw held tt
    | inr free_lock ↦ elim (Bool-cases t.mutex_lock) [
      | inl held ↦ rw (free_lock, held) tt
      | inr free_too ↦
          rw (free_lock, free_too)
            (alloc_loop-Untouched Cond.ncond_max 0
              (record t { condition_lock = true; mutex_lock = true }) u)
    ]
  ]
