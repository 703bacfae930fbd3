-- ===== src/Kernel/Fd/Io/Within.antt =====
-- `sys_write` of Lab6/xv6-semaphores/sysfile.c hands on only memory of the process.
use system_device_programmin.Base.{
  ℕ, ◌+◌, ◌≤◌, ◌<◌, ◌^◌, ◌≡◌, List, [], ◌∷◌, ◌++◌, true, some, get_elem?, set, ℤ, pos, negsuc,
  arith,
}
use system_device_programmin.Kernel.Outcome.{done}
use system_device_programmin.Kernel.Args.{Proc, argint, argptr}
use system_device_programmin.Kernel.Args.Bounds.{argptr-within}
use system_device_programmin.Kernel.File.{fd_inode, File, Extern, writei}
use system_device_programmin.Kernel.File.Io.Write.{
  Writes, whole, failed, next, AllOrNothing, filewrite-Writes,
}
use system_device_programmin.Kernel.Fd.{State, argfd}
use system_device_programmin.Kernel.Fd.Io.{sys_write}

-- The block that a call of `writei` reads lies in a process of size `sz`.
abbrev pub ReadsWithin : ℕ → Extern → Type 0
ReadsWithin sz (writei ip a off (pos m)) = a + m ≤ sz
ReadsWithin sz (writei ip a off (negsuc m)) = ⊥
ReadsWithin sz _ = Unit

abbrev pub AllWithin : ℕ → List Extern → Type 0
AllWithin sz [] = Unit
AllWithin sz (e ∷ es) = ReadsWithin sz e × AllWithin sz es

Writes-AllWithin :
    {ip addr n i off off' sz : ℕ} {es : List Extern} {r : ℤ}
    → addr + n ≤ sz
    → sz ≤ 2 ^ 31
    → Writes ip addr n i off es off' r
    → AllWithin sz es
Writes-AllWithin within small (whole e) = tt
Writes-AllWithin within small (failed i off m ge le fits) =
    (tt, (tt, (omega arith, (tt, (tt, tt)))))
Writes-AllWithin within small (next m ge le fits w) =
    (tt, (tt, (omega arith, (tt, (tt, Writes-AllWithin within small w)))))

module _ (answer : List Extern → ℤ) (all : AllOrNothing answer) (p : Proc)
    (small : p.sz ≤ 2 ^ 31) where
  -- `sys_write` to a descriptor of a file on disk that is open for writing, of `n` bytes from an
  -- address that `argptr` accepts, always returns. The bytes are written in order, in transactions
  -- of at most 1536, up to the first that fails, and every call of `writei` reads inside the process.
  pub sys_write-Writes :
      (s : State) (fd k n addr ip : ℕ) (f : File)
      → argfd (argint p 0) s.ofile ≡ some (fd, k)
      → argint p 2 ≡ some (pos n)
      → n < 2 ^ 31
      → argptr p 1 (pos n) ≡ some addr
      → get_elem? s.table.file k ≡ some f
      → f.writable ≡ true
      → f.kind ≡ fd_inode ip
      → (es : List Extern) × (off : ℕ) × (r : ℤ) × Writes ip addr n 0 f.off es off r
        × AllWithin p.sz es
        × (sys_write answer p s
            ≡ done r (record s {
              table = record s.table {
                file = set s.table.file k (record f { off = off });
                calls = s.table.calls ++ es;
              };
            }))
  unfolding sys_write
  sys_write-Writes s fd k n addr ip f is_open count word buffer at_k writable inode =
      let (es, off, r, w, e) =
        filewrite-Writes answer all ip k addr n s.table f at_k writable inode in
      (
        es,
        off,
        r,
        w,
        Writes-AllWithin (argptr-within p 1 n addr small word buffer) small w,
        ground (arith, e, is_open, count, buffer),
      )
