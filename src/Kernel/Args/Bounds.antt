-- ===== src/Kernel/Args/Bounds.antt =====
-- What a caller of the functions of Lab6/xv6-semaphores/syscall.c may rely on: what they accept
-- lies in the memory of the process.
use system_device_programmin.Base.{
  ℕ, zero, suc, ◌+◌, ◌-◌, ◌^◌, ◌≤◌, ◌<◌, ◌≡◌, ◌≢◌, ◌↔◌, some, ℤ, pos, negsuc, arith, Bool-cases,
  ◌==◌, inl, inr, subst, ℕ_discrete,
}
use system_device_programmin.Kernel.Args.{
  Proc, load_int, fetchint, str_loop, fetchstr, argint, argptr,
}

-- `fetchint` accepts an address exactly when all four bytes lie in the process, and yields the
-- number that they hold.
pub fetchint_iff :
    (p : Proc) (addr : ℕ) (v : ℤ)
    → p.sz + 4 ≤ 2 ^ 32
    → addr < 2 ^ 32
    → (fetchint p addr ≡ some v) ↔ ((addr + 4 ≤ p.sz) × (load_int p.mem addr ≡ v))
unfolding fetchint
fetchint_iff p addr v small word = ground arith

-- No byte of the string before `k` is nul.
abbrev pub NoNul : (ℕ → ℕ) → ℕ → ℕ → Type 0
NoNul mem addr k = (j : ℕ) → j < k → mem (addr + j) ≢ 0

-- The first nul byte of the process from `addr` on is at `addr + k`.
pub record FirstNul (p : Proc) (addr k : ℕ) : Type 0 where
  pub inside : addr + k < p.sz
  pub nul : p.mem (addr + k) ≡ 0
  pub first : NoNul p.mem addr k

NoNul-next :
    (mem : ℕ → ℕ) (addr k : ℕ) → NoNul mem addr k → mem (addr + k) ≢ 0 → NoNul mem addr (k + 1)
NoNul-next mem addr k before ne j lt = elim (ℕ_discrete j k) [
  | yes e ↦ λ z. ne (ground arith)
  | no other ↦ before j (omega arith)
]

str_loop→FirstNul :
    (p : Proc) (addr n k r : ℕ)
    → addr + k + n ≤ p.sz
    → NoNul p.mem addr k
    → str_loop p.mem addr n k ≡ some r
    → FirstNul p addr r
unfolding str_loop
str_loop→FirstNul p addr zero k r le before h = absurd (ground arith)
str_loop→FirstNul p addr (suc n) k r le before h = elim (Bool-cases (p.mem (addr + k) == 0)) [
  | inl nul ↦
      let e : k ≡ r = ground arith in
      subst (FirstNul p addr) e
        (record { inside = omega arith; nul = ground arith; first = before })
  | inr other ↦
      str_loop→FirstNul p addr n (k + 1) r (omega arith)
        (NoNul-next p.mem addr k before (ground arith)) (ground arith)
]

FirstNul→str_loop :
    (p : Proc) (addr n k r : ℕ)
    → r < k + n
    → k ≤ r
    → FirstNul p addr r
    → str_loop p.mem addr n k ≡ some r
unfolding str_loop
FirstNul→str_loop p addr zero k r lt le f = absurd (omega arith)
FirstNul→str_loop p addr (suc n) k r lt le f = elim (ℕ_discrete k r) [
  | yes e ↦ ground (arith, f.nul)
  | no ne ↦
      let rest = FirstNul→str_loop p addr n (k + 1) r (omega arith) (omega arith) f in
      ground (arith, f.first k (omega arith))
]

-- `fetchstr` returns the length of the nul-terminated string at an address: it returns `k` exactly
-- when the first nul byte from there on is `k` bytes further, inside the process.
pub fetchstr_iff : (p : Proc) (addr k : ℕ) → (fetchstr p addr ≡ some k) ↔ FirstNul p addr k
unfolding fetchstr
fetchstr_iff p addr k = (to, from)
  where
    to : fetchstr p addr ≡ some k → FirstNul p addr k
    to h =
        str_loop→FirstNul p addr (p.sz - addr) 0 k (ground arith) (λ j lt. elim lt [ ])
          (ground arith)

    from : FirstNul p addr k → fetchstr p addr ≡ some k
    from f = ground (
      arith,
      f.inside,
      FirstNul→str_loop p addr (p.sz - addr) 0 k (omega (arith, f.inside)) (omega arith) f,
    )

-- With a size that is not negative, the block that `argptr` accepts lies in the process.
pub argptr-within :
    (p : Proc) (n size a : ℕ)
    → p.sz ≤ 2 ^ 31
    → size < 2 ^ 31
    → argptr p n (pos size) ≡ some a
    → a + size ≤ p.sz
unfolding argptr
argptr-within p n size a small word h = ground arith

-- With a negative size `- (k + 1)` the check passes for every pointer into the process that is not
-- below `k + 1`.
pub argptr_negative :
    (p : Proc) (n k a : ℕ)
    → p.sz ≤ 2 ^ 31
    → argint p n ≡ some (pos a)
    → a < p.sz
    → k < a
    → argptr p n (negsuc k) ≡ some a
unfolding argptr
argptr_negative p n k a small h inside le = ground arith
