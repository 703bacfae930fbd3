-- ===== src/Kernel/Fs/Open.antt =====
-- Lab6/xv6-semaphores/sysfile.c: `sys_open`, which works on inodes and on open files.
pub mod Slot
pub mod Opened
mod Tests
use system_device_programmin.Base.{
  ℕ, Bool, not, ◌&&◌, ◌||◌, Option, none, some, ℤ, pos, negsuc, get_elem?, set,
}
use system_device_programmin.Kernel.Outcome
use system_device_programmin.Kernel.Outcome.{Outcome, done, sleeping, spinning, fault, panicked}
use system_device_programmin.Kernel.Args.{Proc, argstr, argint}
use system_device_programmin.Kernel.File.{Ftable, fd_inode, filealloc, fileclose}
use system_device_programmin.Kernel.Fd.{State, fdalloc}
use system_device_programmin.Kernel.Fs.{
  namei, t_file, ◌>>=◌, ◌>>◌, ret, branch, is_dir, Ctx, World, M, begin, commit, lock, unlock,
  unlock_put, find, load,
}
use system_device_programmin.Kernel.Fs.Create.{create}

-- What a system call works on.
pub record Sys : Type 0 where
  pub fs : Ctx
  pub fds : State

-- A step on a part of the state.
abbrev pub on_part : {S T A : Type 0} → (S → T) → (T → S → S) → (T → Outcome T A) → S → Outcome S A
on_part get put m s = elim (m (get s)) [
  | done a t ↦ done a (put t s)
  | sleeping at t ↦ sleeping at (put t s)
  | spinning ↦ spinning
  | fault ↦ fault
  | panicked ↦ panicked
]

abbrev pub on_fs : {A : Type 0} → M A → Sys → Outcome Sys A
on_fs m = on_part (λ s. s.fs) (λ t s. record s { fs = t }) m

abbrev pub on_fds : {A : Type 0} → (State → Outcome State A) → Sys → Outcome Sys A
on_fds m = on_part (λ s. s.fds) (λ t s. record s { fds = t }) m

abbrev pub on_table : {A : Type 0} → (Ftable → Outcome Ftable A) → State → Outcome State A
on_table m = on_part (λ s. s.table) (λ t s. record s { table = t }) m

-- Behind `filealloc`: `fdalloc`, or `fileclose` if that fails.
slot_fd : Option ℕ → State → Outcome State (Option (ℕ × ℕ))
slot_fd none s = done none s
slot_fd (some f) s = elim (fdalloc f s.ofile) [
  | none ↦ Outcome.◌>>◌ (on_table (fileclose f)) (Outcome.ret none) s
  | some (fd, o) ↦ done (some (f, fd)) (record s { ofile = o })
]

-- A file and a descriptor that refers to it.
pub slot : State → Outcome State (Option (ℕ × ℕ))
unfolding slot_fd
slot = Outcome.◌>>=◌ (on_table filealloc) slot_fd

-- fcntl.h is not in the repository: what `omode & O_CREATE`, `omode != O_RDONLY`,
-- `omode & O_WRONLY` and `omode & O_RDWR` say.
pub record Flags : Type 0 where
  pub creates : ℤ → Bool
  pub more_than_reads : ℤ → Bool
  pub write_only : ℤ → Bool
  pub read_write : ℤ → Bool

module _ (flags : Flags) where
  -- The fields of the file.
  pub fill : ℕ → ℕ → ℤ → State → Outcome State (Unit {0})
  fill f ip omode s = elim (get_elem? s.table.file f) [
    | none ↦ fault
    | some e ↦ done tt (record s {
      table = record s.table {
        file = set s.table.file f (record e {
          kind = fd_inode ip;
          off = 0;
          readable = not (flags.write_only omode);
          writable = flags.write_only omode || flags.read_write omode;
        });
      };
    })
  ]

module _ (w : World) (flags : Flags) where
  -- Behind `create`.
  open_created : Option ℕ → M (Option ℕ)
  open_created o = do commit; ret o

  -- Behind `namei`.
  open_named : ℤ → Option ℕ → M (Option ℕ)
  open_named omode none = ret none
  open_named omode (some ip) = do
    lock ip
    i ← load w ip
    branch (is_dir i.type && flags.more_than_reads omode) (do unlock_put ip; ret none)
        (ret (some ip))

  -- The inode that is opened, locked.
  pub open_inode : ℕ → ℤ → M (Option ℕ)
  unfolding open_created open_named create
  open_inode path omode =
      branch (flags.creates omode) (do begin; create w path t_file (pos 0) (pos 0) >>= open_created)
        (find w (namei path) >>= open_named omode)

  open_slot : ℕ → ℤ → Option (ℕ × ℕ) → Sys → Outcome Sys ℤ
  unfolding fill
  open_slot ip omode none = Outcome.◌>>◌ (on_fs (unlock_put ip)) (Outcome.ret (negsuc 0))
  open_slot ip omode (some (f, fd)) =
      Outcome.◌>>◌ (on_fs (unlock ip))
        (Outcome.◌>>◌ (on_fds (fill flags f ip omode)) (Outcome.ret (pos fd)))

  open_file : ℤ → Option ℕ → Sys → Outcome Sys ℤ
  unfolding slot open_slot
  open_file omode none = Outcome.ret (negsuc 0)
  open_file omode (some ip) = Outcome.◌>>=◌ (on_fds slot) (open_slot ip omode)

  -- Behind `argstr` and `argint`.
  open_path : Option (ℕ × ℕ) → Option ℤ → Sys → Outcome Sys ℤ
  unfolding open_inode open_file
  open_path none omode = Outcome.ret (negsuc 0)
  open_path (some path) none = Outcome.ret (negsuc 0)
  open_path (some (path, _)) (some omode) =
      Outcome.◌>>=◌ (on_fs (open_inode path omode)) (open_file omode)

  unfoldable pub sys_open : Proc → Sys → Outcome Sys ℤ
  unfolding open_path
  sys_open p = open_path (argstr p 0) (argint p 1)
