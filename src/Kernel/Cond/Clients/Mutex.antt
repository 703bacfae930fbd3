-- ===== src/Kernel/Cond/Clients/Mutex.antt =====
-- What the operations on conditions of Lab6/xv6-semaphores/file.c do to the mutex.
use system_device_programmin.Base.{
  ◌∙◌, ℕ, ◌≡◌, refl, sym, none, some, if◌then◌else◌, ◌==◌, get_elem?, get_elem?-set_self,
  get_elem?-lt, set, Option-cases, inl, inr, true, false, ℤ, arith,
}
use system_device_programmin.Kernel.Sched.{Sched, alarm_clock}
use system_device_programmin.Kernel.Outcome.{
  Outcome, done, sleeping, spinning, fault, panicked, Resume, ◌>>=◌, ◌>>◌, in_cond_lock,
  in_cond_wait, in_cond_wait_lock,
}
use system_device_programmin.Kernel.Cond
use system_device_programmin.Kernel.Cond.{CondTable, cond_lock, cond_unlock}

module _ (sc : Sched) (i : ℕ) where
  abbrev State : Type 0
  State = CondTable sc.Procs

  -- Whether the mutex is free.
  abbrev pub free : State → ℕ
  free t = elim (get_elem? t.mutex i) [ none ↦ 0 | some m ↦ if m.locked == 0 then 0 else 1 ]

  -- What an operation leaves behind where it returns, and where it sleeps.
  abbrev pub Leaves : {A : Type 0} → (State → Type 0) → (State → Type 0) → Outcome State A → Type 0
  Leaves D S (done a t) = D t
  Leaves D S (sleeping r t) = S t
  Leaves D S _ = Unit

  -- As before; it has taken the mutex.
  abbrev pub Same : State → State → Type 0
  Same t t' = free t' ≡ free t

  abbrev pub Taken : State → State → Type 0
  Taken t t' = (free t ≡ 1) × (free t' ≡ 0)

  abbrev pub Free : State → Type 0
  Free t = free t ≡ 1

  then-Leaves :
      {A B : Type 0} (D D' S : State → Type 0) (m : State → Outcome State A)
      (f : A → State → Outcome State B) (t : State)
      → Leaves D S (m t)
      → ((a : A) (t' : State) → D t' → Leaves D' S (f a t'))
      → Leaves D' S ((m >>= f) t)
  then-Leaves {A} {B} D D' S m f t h k = go (m t) h
    where
      go :
          (o : Outcome State A)
          → Leaves D S o
          → Leaves D' S (elim o [
            | done a s' ↦ f a s'
            | sleeping r s' ↦ sleeping r s'
            | spinning ↦ spinning
            | fault ↦ fault
            | panicked ↦ panicked
          ])
      go (done a s') h' = k a s' h'
      go (sleeping r s') h' = h'
      go spinning h' = tt
      go fault h' = tt
      go panicked h' = tt

  stored :
      (m m' : Cond.Mutex) (t : State)
      → get_elem? t.mutex i ≡ some m
      → get_elem? (set t.mutex i m') i ≡ some m'
  stored m m' t e = get_elem?-set_self t.mutex i m' (get_elem?-lt t.mutex i e)

  module _ (S : State → Type 0) (t : State) where
    acquire_mutex-Same : Leaves (Same t) S (Cond.acquire_mutex sc i t)
    acquire_mutex-Same =
        unfold Cond.acquire_mutex in
        elim (Option-cases (get_elem? t.mutex i)) [
          | inl no_entry ↦ ground (arith, no_entry)
          | inr (m, e) ↦ ground (arith, e, stored m (record m { lock = true }) t e)
        ]

    acquire_condition-Same : Leaves (Same t) S (Cond.acquire_condition sc i t)
    acquire_condition-Same = unfold Cond.acquire_condition in ground arith

    release_condition-Same : Leaves (Same t) S (Cond.release_condition sc i t)
    release_condition-Same = unfold Cond.release_condition in ground arith

    pub cond_set-Same : (val : ℤ) → Leaves (Same t) S (Cond.cond_set sc i val t)
    cond_set-Same val = unfold Cond.cond_set in ground arith

  lock_loop-Taken :
      (at : Resume) (p : ℕ) (t : State) → Leaves (Taken t) (Same t) (Cond.lock_loop sc at p i t)
  lock_loop-Taken at p t =
      unfold Cond.lock_loop in
      elim (Option-cases (get_elem? t.mutex i)) [
        | inl no_entry ↦ ground (arith, no_entry)
        | inr (m, e) ↦ ground (
          arith,
          e,
          stored m (record m { lock = false }) t e,
          stored m (record m { locked = 0 }) t e,
          stored (record m { locked = 0 }) (record m { locked = 0; lock = false })
              (record t { mutex = set t.mutex i (record m { locked = 0 }) })
              (stored m (record m { locked = 0 }) t e),
        )
      ]

  pub cond_unlock-Free : (t : State) → Leaves Free Free (Cond.cond_unlock sc i t)
  cond_unlock-Free t =
      unfold Cond.cond_unlock in
      elim (Option-cases (get_elem? t.mutex i)) [
        | inl no_entry ↦ ground (arith, no_entry)
        | inr (m, e) ↦
            let m1 : Cond.Mutex = record m { lock = true } in
            let t1 : State = record t { mutex = set t.mutex i m1 } in
            let e1 = stored m m1 t e in
            let m2 : Cond.Mutex = record m1 { locked = 1 } in
            let t2 : State = record t1 { mutex = set t1.mutex i m2 } in
            let e2 = stored m1 m2 t1 e1 in
            ground (arith, e, e1, e2, stored m2 (record m2 { lock = false }) t2 e2)
      ]

  weaken :
      {A : Type 0} {D D' S S' : State → Type 0} (o : Outcome State A)
      → ((t : State) → D t → D' t)
      → ((t : State) → S t → S' t)
      → Leaves D S o
      → Leaves D' S' o
  weaken (done a t) f g h = f t h
  weaken (sleeping r t) f g h = g t h
  weaken spinning f g h = tt
  weaken fault f g h = tt
  weaken panicked f g h = tt

  -- `Taken` and `Same` look at the state they start from through `free` alone.
  from_Same :
      {A : Type 0} (o : Outcome State A) (t t' : State)
      → Same t t'
      → Leaves (Taken t') (Same t') o
      → Leaves (Taken t) (Same t) o
  from_Same o t t' e =
      weaken {D = Taken t'} {D' = Taken t} {S = Same t'} {S' = Same t} o (λ u h. (sym e ∙ h.0, h.1))
        (λ u h. h ∙ e)

  lock_at-Taken :
      (at : Resume) (p : ℕ) (t : State) → Leaves (Taken t) (Same t) (Cond.lock_at sc at p i t)
  lock_at-Taken at p t =
      unfold Cond.lock_at in
      then-Leaves (Same t) (Taken t) (Same t) (Cond.acquire_mutex sc i)
        (λ _. Cond.lock_loop sc at p i) t (acquire_mutex-Same (Same t) t)
        (λ a t' e. from_Same (Cond.lock_loop sc at p i t') t t' e (lock_loop-Taken at p t'))

  pub cond_lock-Taken : (p : ℕ) (t : State) → Leaves (Taken t) (Same t) (Cond.cond_lock sc p i t)
  cond_lock-Taken p t = unfold Cond.cond_lock in lock_at-Taken (in_cond_lock i) p t

  -- The lock of the condition is given back when the mutex is taken.
  then_release :
      (at : Resume) (p : ℕ) (t : State)
      → Leaves (Taken t) (Same t) ((Cond.lock_at sc at p i >> Cond.release_condition sc i) t)
  then_release at p t =
      then-Leaves (Taken t) (Taken t) (Same t) (Cond.lock_at sc at p i)
        (λ _. Cond.release_condition sc i) t (lock_at-Taken at p t)
        (λ a t' h.
          weaken {D = Same t'} {D' = Taken t} {S = Same t} {S' = Same t}
            (Cond.release_condition sc i t') (λ u e. (h.0, e ∙ h.1)) (λ u e. e)
            (release_condition-Same (Same t) t'))

  pub cond_wait_woken-Taken :
      (p : ℕ) (t : State) → Leaves (Taken t) (Same t) (Cond.cond_wait_woken sc p i t)
  cond_wait_woken-Taken p t =
      unfold Cond.cond_wait_woken in
      then-Leaves (Same t) (Taken t) (Same t) (Cond.acquire_condition sc i)
        (λ _. Cond.lock_at sc (in_cond_wait_lock i) p i >> Cond.release_condition sc i) t
        (acquire_condition-Same (Same t) t)
        (λ a t' e.
          from_Same ((Cond.lock_at sc (in_cond_wait_lock i) p i >> Cond.release_condition sc i) t')
            t t' e (then_release (in_cond_wait_lock i) p t'))

  pub cond_wait_lock_woken-Taken :
      (p : ℕ) (t : State) → Leaves (Taken t) (Same t) (Cond.cond_wait_lock_woken sc p i t)
  cond_wait_lock_woken-Taken p t =
      unfold Cond.cond_wait_lock_woken in then_release (in_cond_wait_lock i) p t

  pub cond_signal-Same : (t : State) → Leaves (Same t) (Same t) (Cond.cond_signal sc i t)
  cond_signal-Same t = unfold Cond.cond_signal in refl

  pub cond_broadcast-Same : (t : State) → Leaves (Same t) (Same t) (Cond.cond_broadcast sc i t)
  cond_broadcast-Same t = unfold Cond.cond_broadcast in refl

  pub cond_wait-Free : (p : ℕ) (t : State) → Leaves Free Free (Cond.cond_wait sc p i t)
  cond_wait-Free p t =
      unfold Cond.cond_wait in
      let rest : State → Outcome State (Unit {0}) =
        λ u. sleeping (in_cond_wait i) (record u { procs = sc.sleep p (alarm_clock i) u.procs }) in
      then-Leaves (Same t) Free Free (Cond.acquire_condition sc i)
        (λ _. Cond.cond_unlock sc i >> (Cond.release_condition sc i >> rest)) t
        (acquire_condition-Same Free t)
        (λ a t1 e1.
          then-Leaves Free Free Free (Cond.cond_unlock sc i)
            (λ _. Cond.release_condition sc i >> rest) t1 (cond_unlock-Free t1)
            (λ b t2 e2.
              then-Leaves (Same t2) Free Free (Cond.release_condition sc i) (λ _. rest) t2
                (release_condition-Same Free t2) (λ c t3 e3. e3 ∙ e2)))
