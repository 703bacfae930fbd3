-- ===== src/Kernel/Args.antt =====
-- Lab6/xv6-semaphores/syscall.c: how the kernel reads the arguments of a system call.
pub mod Bounds
mod Tests
use system_device_programmin.Base.{
  ℕ, zero, suc, ◌+◌, ◌-◌, ◌*◌, ◌%◌, ◌^◌, Bool, Option, none, some, ◌||◌, ltb, leb, ◌==◌,
  if◌then◌else◌, ℤ, pos, signed32, unsigned32,
}

-- What syscall.c reads of `proc`: `proc->sz`, `proc->tf->esp` and the bytes of its memory.
pub record Proc : Type 0 where
  pub sz : ℕ
  pub esp : ℕ
  pub mem : ℕ → ℕ

-- `uint` arithmetic
abbrev pub uint : ℕ → ℕ
uint n = n % 2 ^ 32

-- `*(int*)(addr)` on x86: four bytes, the lowest first.
abbrev pub load_int : (ℕ → ℕ) → ℕ → ℤ
load_int mem a =
    signed32 (uint (mem a + 256 * mem (a + 1) + 65536 * mem (a + 2) + 16777216 * mem (a + 3)))

-- `none` is the return value -1; what goes through `ip` otherwise.
unfoldable pub fetchint : Proc → ℕ → Option ℤ
fetchint p addr =
    if leb p.sz addr || ltb p.sz (uint (addr + 4)) then none else some (load_int p.mem addr)

-- The `for` of `fetchstr`, with `n` bytes left up to `ep` and `s - *pp` equal to `k`.
str_loop : (ℕ → ℕ) → ℕ → ℕ → ℕ → Option ℕ
str_loop mem addr zero k = none
str_loop mem addr (suc n) k =
    let rest = str_loop mem addr n (k + 1) in if mem (addr + k) == 0 then some k else rest

-- The length that is returned; `*pp` is `addr`.
unfoldable pub fetchstr : Proc → ℕ → Option ℕ
unfolding str_loop
fetchstr p addr = if leb p.sz addr then none else str_loop p.mem addr (p.sz - addr) 0

unfoldable pub argint : Proc → ℕ → Option ℤ
unfolding fetchint
argint p n = fetchint p (uint (p.esp + 4 + 4 * n))

-- The pointer that goes through `pp`.
unfoldable pub argptr : Proc → ℕ → ℤ → Option ℕ
argptr p n size = elim (argint p n) [
  | none ↦ none
  | some i ↦
      if leb p.sz (unsigned32 i) || ltb p.sz (uint (unsigned32 i + unsigned32 size))
      then none
      else some (unsigned32 i)
]

-- The pointer that goes through `pp`, and the length that is returned.
unfoldable pub argstr : Proc → ℕ → Option (ℕ × ℕ)
unfolding argint fetchstr
argstr p n = elim (argint p n) [
  | none ↦ none
  | some a ↦ elim (fetchstr p (unsigned32 a)) [ none ↦ none | some k ↦ some (unsigned32 a, k) ]
]
