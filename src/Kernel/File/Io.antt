-- ===== src/Kernel/File/Io.antt =====
-- Reading and writing open files, Lab6/xv6-semaphores/file.c: `filestat`, `fileread`, `filewrite`.
pub mod Read
pub mod Write
use system_device_programmin.Base.{
  ℕ, zero, suc, ◌+◌, ◌-◌, ◌*◌, ◌/◌, ◌%◌, ◌^◌, List, [], ◌∷◌, ◌++◌, Bool, ltb, ◌==◌, false,
  if◌then◌else◌, ℤ, pos, negsuc, pos_part, ltb_ℤ,
}
use system_device_programmin.Kernel.Outcome.{done, ◌>>=◌, ◌>>◌, ret, branch, spin, panic}
use system_device_programmin.Kernel.File.{
  Kind, fd_none, fd_pipe, fd_inode, File, Extern, begin_trans, commit_trans, ilock, iunlock, stati,
  piperead, pipewrite, readi, writei, M, load, store, call,
}

-- `LOGSIZE`
abbrev pub logsize : ℕ
logsize = 10

-- `r == n`
abbrev pub eq_ℤ : ℤ → ℤ → Bool
eq_ℤ (pos a) (pos b) = a == b
eq_ℤ (negsuc a) (negsuc b) = a == b
eq_ℤ _ _ = false

-- `f->off` is a `uint`, and so is an address.
abbrev pub uint : ℕ → ℕ
uint n = n % 2 ^ 32

-- `max` of `filewrite`
abbrev pub max_write : ℕ
max_write = (logsize - 1 - 1 - 2) / 2 * 512

-- What the calls return is given by `answer`, from all calls so far: the last one is the one that
-- is answered.
module _ (answer : List Extern → ℤ) where
  ask : Extern → M ℤ
  ask e t = done (answer (t.calls ++ e ∷ [])) (record t { calls = t.calls ++ e ∷ [] })

  stat_kind : Kind → ℕ → M ℤ
  unfolding call
  stat_kind (fd_inode ip) st = do
    call (ilock ip)
    call (stati ip st)
    call (iunlock ip)
    ret (pos 0)
  stat_kind _ st = ret (negsuc 0)

  pub filestat : ℕ → ℕ → M ℤ
  unfolding load stat_kind
  filestat k st = do f ← load k; stat_kind f.kind st

  -- `if (r > 0) f->off += r`
  advance : ℕ → ℤ → M (Unit {0})
  unfolding load store
  advance k r =
      branch (ltb_ℤ (pos 0) r)
        (do f ← load k; store k (record f { off = uint (f.off + pos_part r) })) (ret tt)

  read_kind : Kind → ℕ → ℕ → ℤ → M ℤ
  unfolding load call ask advance
  read_kind fd_none k addr n = panic
  read_kind (fd_pipe p) k addr n = ask (piperead p addr n)
  read_kind (fd_inode ip) k addr n = do
    call (ilock ip)
    f ← load k
    r ← ask (readi ip addr f.off n)
    advance k r
    call (iunlock ip)
    ret r

  unfoldable pub fileread : ℕ → ℕ → ℤ → M ℤ
  unfolding load read_kind
  fileread k addr n = do f ← load k; branch f.readable (read_kind f.kind k addr n) (ret (negsuc 0))

  -- `return i == n ? n : -1`
  finish : ℤ → ℕ → M ℤ
  finish n i = ret (if eq_ℤ (pos i) n then n else negsuc 0)

  -- `n1`, for `i < n`
  abbrev chunk : ℤ → ℕ → ℕ
  chunk n i = if ltb max_write (pos_part n - i) then max_write else pos_part n - i

  -- The `while` of `filewrite`, with fuel; without it the loop would go on for ever.
  write_loop : ℕ → ℕ → ℕ → ℕ → ℤ → ℕ → M ℤ
  unfolding load call ask advance finish
  write_loop zero ip k addr n i = branch (ltb_ℤ (pos i) n) spin (finish n i)
  write_loop (suc fuel) ip k addr n i =
      let rest = write_loop fuel ip k addr n (i + chunk n i) in
      branch (ltb_ℤ (pos i) n)
        (do
          call begin_trans
          call (ilock ip)
          f ← load k
          r ← ask (writei ip (uint (addr + i)) f.off (pos (chunk n i)))
          advance k r
          call (iunlock ip)
          call commit_trans
          branch (ltb_ℤ r (pos 0)) (finish n i) (branch (eq_ℤ r (pos (chunk n i))) rest panic))
        (finish n i)

  write_kind : Kind → ℕ → ℕ → ℤ → M ℤ
  unfolding ask write_loop
  write_kind fd_none k addr n = panic
  write_kind (fd_pipe p) k addr n = ask (pipewrite p addr n)
  write_kind (fd_inode ip) k addr n = write_loop (pos_part n) ip k addr n 0

  unfoldable pub filewrite : ℕ → ℕ → ℤ → M ℤ
  unfolding load write_kind
  filewrite k addr n = do
    f ← load k
    branch f.writable (write_kind f.kind k addr n) (ret (negsuc 0))
