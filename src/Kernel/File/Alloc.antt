-- ===== src/Kernel/File/Alloc.antt =====
-- `filealloc` of Lab6/xv6-semaphores/file.c takes the first free entry.
use system_device_programmin.Base.{
  ℕ, zero, suc, ◌+◌, ◌<◌, ◌≡◌, ◌≢◌, inl, inr, List, true, false, Option, none, some, Bool-cases,
  length, get_elem?, get_elem?_total, subst, set, pos, arith, ℕ_discrete,
}
use system_device_programmin.Kernel.Outcome.{Outcome, done}
use system_device_programmin.Kernel.File.{nfile, File, Ftable, is_zero, alloc_loop, filealloc}

-- The entries below `k` have references.
abbrev pub InUse : List File → ℕ → Type 0
InUse l k = (j : ℕ) (u : File) → j < k → get_elem? l j ≡ some u → u.ref ≢ pos 0

InUse-next :
    (l : List File) (k : ℕ) (f : File)
    → InUse l k
    → get_elem? l k ≡ some f
    → is_zero f.ref ≡ false
    → InUse l (k + 1)
InUse-next l k f used at_k busy j u lt at_j = elim (ℕ_discrete j k) [
  | yes e ↦ λ free. absurd (ground arith)
  | no ne ↦ used j u (omega arith) at_j
]

is_zero_lem : (f : File) → is_zero f.ref ≡ true → f.ref ≡ pos 0
is_zero_lem f h = ground arith

-- The entry `k` is the first without references, and gets one; or there is none.
pub data Allocated (t : Ftable) (o : Outcome Ftable (Option ℕ)) : Type 0 where
  taken :
      (k : ℕ) (f : File)
      → get_elem? t.file k ≡ some f
      → f.ref ≡ pos 0
      → InUse t.file k
      → o ≡ done (some k) (record t { file = set t.file k (record f { ref = pos 1 }) })
      → Allocated t o
  full : InUse t.file nfile → o ≡ done none t → Allocated t o

alloc_loop-Allocated :
    (n k : ℕ) (t : Ftable)
    → k + n ≡ nfile
    → length t.file ≡ nfile
    → t.lock ≡ false
    → InUse t.file k
    → Allocated t (alloc_loop n k (record t { lock = true }))
unfolding alloc_loop
alloc_loop-Allocated zero k t e size open_lock used =
    full (λ j u lt. used j u (omega arith)) (ground arith)
alloc_loop-Allocated (suc n) k t e size open_lock used =
    let (f, at_k) = get_elem?_total t.file k (omega arith) in
    elim (Bool-cases (is_zero f.ref)) [
      | inl free ↦ taken k f at_k (is_zero_lem f free) used (ground arith)
      | inr busy ↦ subst (Allocated t) (ground arith) (
          alloc_loop-Allocated n (k + 1) t (omega arith) size open_lock
            (InUse-next t.file k f used at_k busy))
    ]

-- `filealloc` returns the first entry without references, which it gives one, or a null pointer
-- if all have some; it changes nothing else and gives the lock of the table back.
pub filealloc-Allocated :
    (t : Ftable) → length t.file ≡ nfile → t.lock ≡ false → Allocated t (filealloc t)
unfolding filealloc
filealloc-Allocated t size open_lock =
    subst (Allocated t) (ground arith)
      (alloc_loop-Allocated nfile 0 t (omega arith) size open_lock (λ j u lt. elim lt [ ]))
