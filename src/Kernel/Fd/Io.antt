-- ===== src/Kernel/Fd/Io.antt =====
-- Reading and writing by descriptor, Lab6/xv6-semaphores/sysfile.c: `sys_read`, `sys_write`,
-- `sys_fstat`.
pub mod Within
mod Tests
use system_device_programmin.Base.{ℕ, List, none, some, ℤ, pos, negsuc}
use system_device_programmin.Kernel.Outcome.{Outcome, done, sleeping, spinning, fault, panicked}
use system_device_programmin.Kernel.Args.{Proc, argint, argptr}
use system_device_programmin.Kernel.File.{Extern, Ftable}
use system_device_programmin.Kernel.File.Io.{filestat, fileread, filewrite}
use system_device_programmin.Kernel.Fd.{State, argfd}

-- A call into file.c whose result the system call returns.
io : (Ftable → Outcome Ftable ℤ) → State → Outcome State ℤ
io m s = elim (m s.table) [
  | done r t ↦ done r (record s { table = t })
  | sleeping at t ↦ sleeping at (record s { table = t })
  | spinning ↦ spinning
  | fault ↦ fault
  | panicked ↦ panicked
]

module _ (answer : List Extern → ℤ) (p : Proc) where
  pub sys_read : State → Outcome State ℤ
  unfolding io
  sys_read s = elim (argfd (argint p 0) s.ofile) [
    | none ↦ done (negsuc 0) s
    | some (_, f) ↦ elim (argint p 2) [
      | none ↦ done (negsuc 0) s
      | some n ↦ elim (argptr p 1 n) [
        | none ↦ done (negsuc 0) s
        | some addr ↦ io (fileread answer f addr n) s
      ]
    ]
  ]

  pub sys_write : State → Outcome State ℤ
  unfolding io
  sys_write s = elim (argfd (argint p 0) s.ofile) [
    | none ↦ done (negsuc 0) s
    | some (_, f) ↦ elim (argint p 2) [
      | none ↦ done (negsuc 0) s
      | some n ↦ elim (argptr p 1 n) [
        | none ↦ done (negsuc 0) s
        | some addr ↦ io (filewrite answer f addr n) s
      ]
    ]
  ]

  -- `size` is `sizeof(struct stat)`.
  pub sys_fstat : ℤ → State → Outcome State ℤ
  unfolding io
  sys_fstat size s = elim (argfd (argint p 0) s.ofile) [
    | none ↦ done (negsuc 0) s
    | some (_, f) ↦ elim (argptr p 1 size) [
      | none ↦ done (negsuc 0) s
      | some st ↦ io (filestat answer f st) s
    ]
  ]
