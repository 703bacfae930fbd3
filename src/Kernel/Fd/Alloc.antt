-- ===== src/Kernel/Fd/Alloc.antt =====
-- `argfd` and `fdalloc` of Lab6/xv6-semaphores/sysfile.c: which descriptor they yield.
use system_device_programmin.Base.{
  ℕ, zero, suc, ◌+◌, ◌<◌, ◌≡◌, ◌≢◌, ◌↔◌, refl, Option, none, some, Option-cases, inl, inr, subst,
  length, get_elem?, get_elem?_total, set, ℤ, pos, negsuc, arith, ℕ_discrete,
}
use system_device_programmin.Kernel.Fd.{nofile, Ofile, argfd, fd_loop, fdalloc}

-- `argfd` accepts a number exactly when it is a descriptor of the process that is open.
pub argfd_iff :
    (a : Option ℤ) (o : Ofile) (fd f : ℕ)
    → (argfd a o ≡ some (fd, f))
      ↔ ((a ≡ some (pos fd)) × (fd < nofile) × (get_elem? o fd ≡ some (some f)))
unfolding argfd
argfd_iff none o fd f = (λ h. absurd (ground arith), λ h. absurd (ground arith))
argfd_iff (some (negsuc n)) o fd f = (λ h. absurd (ground arith), λ h. absurd (ground arith))
argfd_iff (some (pos k)) o fd f = (λ h. ground arith, λ h. ground arith)

-- The descriptors below `k` are in use.
abbrev pub InUse : Ofile → ℕ → Type 0
InUse o k = (j : ℕ) → j < k → get_elem? o j ≢ some none

-- The first free descriptor now refers to `f`, or none was free.
pub data Allocated (f : ℕ) (o : Ofile) (r : Option (ℕ × Ofile)) : Type 0 where
  taken :
      (fd : ℕ)
      → fd < nofile
      → get_elem? o fd ≡ some none
      → InUse o fd
      → r ≡ some (fd, set o fd (some f))
      → Allocated f o r
  full : InUse o nofile → r ≡ none → Allocated f o r

InUse-next : (o : Ofile) (k : ℕ) → InUse o k → get_elem? o k ≢ some none → InUse o (k + 1)
InUse-next o k used busy j lt = elim (ℕ_discrete j k) [
  | yes e ↦ rw e busy
  | no ne ↦ used j (omega arith)
]

fd_loop-Allocated :
    (f n k : ℕ) (o : Ofile)
    → k + n ≡ nofile
    → length o ≡ nofile
    → InUse o k
    → Allocated f o (fd_loop n k f o)
unfolding fd_loop
fd_loop-Allocated f zero k o e size used = full (λ j lt. used j (omega arith)) refl
fd_loop-Allocated f (suc n) k o e size used =
    let (p, at_k) = get_elem?_total o k (omega arith) in
    elim (Option-cases p) [
      | inl free ↦ taken k (omega arith) (ground arith) used (ground arith)
      | inr (g, busy) ↦ subst (Allocated f o) (ground arith) (
          fd_loop-Allocated f n (k + 1) o (omega arith) size
            (InUse-next o k used (λ h. ground arith)))
    ]

-- `fdalloc` yields the lowest descriptor that is free, and makes it refer to the file; it fails
-- exactly when none is free.
pub fdalloc-Allocated : (f : ℕ) (o : Ofile) → length o ≡ nofile → Allocated f o (fdalloc f o)
unfolding fdalloc
fdalloc-Allocated f o size = fd_loop-Allocated f nofile 0 o (omega arith) size (λ j lt. elim lt [ ])
