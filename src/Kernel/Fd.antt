-- ===== src/Kernel/Fd.antt =====
-- The descriptors of a process, Lab6/xv6-semaphores/sysfile.c: `argfd`, `fdalloc`, `sys_dup`,
-- `sys_close`.
pub mod Count
pub mod Alloc
pub mod Counted
pub mod Calls
pub mod Runs
pub mod Io
pub mod Pipe
mod Tests
use system_device_programmin.Base.{
  ℕ, zero, suc, ◌+◌, List, Option, none, some, leb, if◌then◌else◌, get_elem?, set, ℤ, pos, negsuc,
}
use system_device_programmin.Kernel.Outcome.{Outcome, done, sleeping, spinning, fault, panicked}
use system_device_programmin.Kernel.File.{Ftable, filedup, fileclose}

-- `NOFILE`
abbrev pub nofile : ℕ
nofile = 16

-- `proc->ofile`: the index of a file, or a null pointer.
abbrev pub Ofile : Type 0
Ofile = List (Option ℕ)

pub record State : Type 0 where
  pub table : Ftable
  pub ofile : Ofile

-- What goes through `pfd` and `pf`; the argument is what `argint` yields.
pub argfd : Option ℤ → Ofile → Option (ℕ × ℕ)
argfd none o = none
argfd (some (negsuc n)) o = none
argfd (some (pos fd)) o = if leb nofile fd then none else elim (get_elem? o fd) [
  | none ↦ none
  | some p ↦ elim p [ none ↦ none | some f ↦ some (fd, f) ]
]

-- The `for` of `fdalloc`: `n` descriptors are left, from `fd` on.
fd_loop : ℕ → ℕ → ℕ → Ofile → Option (ℕ × Ofile)
fd_loop zero fd f o = none
fd_loop (suc n) fd f o =
    let rest = fd_loop n (fd + 1) f o in
    elim (get_elem? o fd) [
      | none ↦ rest
      | some p ↦ elim p [ none ↦ some (fd, set o fd (some f)) | some _ ↦ rest ]
    ]

unfoldable pub fdalloc : ℕ → Ofile → Option (ℕ × Ofile)
unfolding fd_loop
fdalloc f o = fd_loop nofile 0 f o

-- A call into file.c, after which a system call returns `r`.
on_table : {A : Type 0} → (Ftable → Outcome Ftable A) → ℤ → State → Outcome State ℤ
on_table m r s = elim (m s.table) [
  | done _ t ↦ done r (record s { table = t })
  | sleeping at t ↦ sleeping at (record s { table = t })
  | spinning ↦ spinning
  | fault ↦ fault
  | panicked ↦ panicked
]

pub sys_dup : Option ℤ → State → Outcome State ℤ
unfolding on_table
sys_dup a s = elim (argfd a s.ofile) [
  | none ↦ done (negsuc 0) s
  | some (_, f) ↦ elim (fdalloc f s.ofile) [
    | none ↦ done (negsuc 0) s
    | some (fd, o) ↦ on_table (filedup f) (pos fd) (record s { ofile = o })
  ]
]

pub sys_close : Option ℤ → State → Outcome State ℤ
unfolding on_table
sys_close a s = elim (argfd a s.ofile) [
  | none ↦ done (negsuc 0) s
  | some (fd, f) ↦ on_table (fileclose f) (pos 0) (record s { ofile = set s.ofile fd none })
]
