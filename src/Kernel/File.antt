-- ===== src/Kernel/File.antt =====
-- The table of open files of Lab6/xv6-semaphores/file.c: `filealloc`, `filedup`, `fileclose`.
pub mod Steps
pub mod Alloc
pub mod Io
use system_device_programmin.Base.{
  ℕ, zero, suc, ◌+◌, List, [], ◌∷◌, ◌++◌, Bool, true, false, Option, none, some, ltb, ◌==◌,
  get_elem?, set, ℤ, pos, negsuc, ◌+ℤ◌, ltb_ℤ, int,
}
use system_device_programmin.Kernel.Outcome.{
  Outcome, done, fault, ◌>>=◌, ◌>>◌, ret, branch, spin, stray, panic,
}

-- `NFILE`
abbrev pub nfile : ℕ
nfile = 100

-- The `type` of a `struct file`, with the pointer that belongs to it: `pipe` or `ip`.
pub data Kind : Type 0 where
  fd_none : Kind
  fd_pipe : ℕ → Kind
  fd_inode : ℕ → Kind

pub record File : Type 0 where
  pub kind : Kind
  pub ref : ℤ
  pub readable : Bool
  pub writable : Bool
  pub off : ℕ

-- The calls that file.c makes of pipe.c, log.c and fs.c, which the repository does not hold.
pub data Extern : Type 0 where
  pipeclose : ℕ → Bool → Extern
  begin_trans : Extern
  iput : ℕ → Extern
  commit_trans : Extern
  ilock : ℕ → Extern
  iunlock : ℕ → Extern
  stati : ℕ → ℕ → Extern
  piperead : ℕ → ℕ → ℤ → Extern
  pipewrite : ℕ → ℕ → ℤ → Extern
  readi : ℕ → ℕ → ℕ → ℤ → Extern
  writei : ℕ → ℕ → ℕ → ℤ → Extern

-- `ftable`, and the calls that were made, the last one last.
pub record Ftable : Type 0 where
  pub lock : Bool
  pub file : List File
  pub calls : List Extern

-- `f->ref == 0`
abbrev pub is_zero : ℤ → Bool
is_zero (pos n) = n == 0
is_zero (negsuc n) = false

abbrev pub M : Type 0 → Type 0
M A = Ftable → Outcome Ftable A

-- `acquire(&ftable.lock)`
acquire : M (Unit {0})
acquire t = branch t.lock spin (ret tt) (record t { lock = true })

release : M (Unit {0})
release t = done tt (record t { lock = false })

load : ℕ → M File
load i t = elim (get_elem? t.file i) [ none ↦ fault | some f ↦ done f t ]

store : ℕ → File → M (Unit {0})
store i f t = done tt (record t { file = set t.file i f })

call : Extern → M (Unit {0})
call e t = done tt (record t { calls = t.calls ++ e ∷ [] })

-- The `for` of `filealloc`: `n` entries are left, from `k` on.
alloc_loop : ℕ → ℕ → M (Option ℕ)
unfolding load store release
alloc_loop zero k = do release; ret none
alloc_loop (suc n) k =
    let rest = alloc_loop n (k + 1) in
    do
      f ← load k
      branch (is_zero f.ref) (do store k (record f { ref = pos 1 }); release; ret (some k)) rest

-- A file is the index of its entry; `none` is the null pointer.
unfoldable pub filealloc : M (Option ℕ)
unfolding acquire alloc_loop
filealloc = do acquire; alloc_loop nfile 0

unfoldable pub filedup : ℕ → M ℕ
unfolding acquire load store release
filedup i = do
  acquire
  f ← load i
  branch (ltb_ℤ f.ref (pos 1)) panic
      (do store i (record f { ref = int (f.ref +ℤ pos 1) }); release; ret i)

-- The end of `fileclose`, on the copy `ff` of the closed entry.
unfoldable pub close_object : Kind → Bool → M (Unit {0})
unfolding call
close_object fd_none w = ret tt
close_object (fd_pipe p) w = call (pipeclose p w)
close_object (fd_inode ip) w = do call begin_trans; call (iput ip); call commit_trans

unfoldable pub fileclose : ℕ → M (Unit {0})
unfolding acquire load store release
fileclose i = do
  acquire
  f ← load i
  branch (ltb_ℤ f.ref (pos 1)) panic (do
    store i (record f { ref = int (f.ref +ℤ negsuc 0) })
    ff ← load i
    branch (ltb_ℤ (pos 0) ff.ref) release (do
      store i (record ff { ref = pos 0; kind = fd_none })
      release
      close_object ff.kind ff.writable))
