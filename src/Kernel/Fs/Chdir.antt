-- ===== src/Kernel/Fs/Chdir.antt =====
-- Lab6/xv6-semaphores/sysfile.c: `sys_chdir`.
use system_device_programmin.Base.{
  ℕ, List, [], ◌∷◌, ◌≡◌, ◌≢◌, refl, false, Option, none, some, ℤ, pos, negsuc,
}
use system_device_programmin.Kernel.Args.{Proc, argstr}
use system_device_programmin.Kernel.Fs.{
  namei, ◌>>=◌, ◌>>◌, ret, branch, is_dir, World, M, lock, unlock, put, unlock_put, find, load, Ctx,
}
use system_device_programmin.Kernel.Fs.Clean.{
  Clean, At, Runs, Runs-ret, Runs-branch, Runs-lock, Runs-unlock, Runs-put_second, Runs-unlock_put,
}
use system_device_programmin.Kernel.Fs.Answers.{Runs-find, Runs-load}

-- The directory that the process now has is owned in place of the one that it had, or it is
-- that one.
abbrev pub Moved : ℕ → List ℕ → ℤ × ℕ → Ctx → Type 0
Moved cwd r (c, dir) s = At false [] (dir ∷ r) s × (c ≢ pos 0 → dir ≡ cwd)

module _ (w : World) where
  -- Behind `namei`. The result is the value returned and `proc->cwd`.
  chdir_inode : ℕ → Option ℕ → M (ℤ × ℕ)
  chdir_inode cwd none = ret (negsuc 0, cwd)
  chdir_inode cwd (some ip) = do
    lock ip
    i ← load w ip
    branch (is_dir i.type) (do unlock ip; put cwd; ret (pos 0, ip))
        (do unlock_put ip; ret (negsuc 0, cwd))

  -- Behind `argstr`.
  chdir_path : ℕ → Option (ℕ × ℕ) → M (ℤ × ℕ)
  unfolding chdir_inode
  chdir_path cwd none = ret (negsuc 0, cwd)
  chdir_path cwd (some (path, _)) = find w (namei path) >>= chdir_inode cwd

  unfoldable pub sys_chdir : Proc → ℕ → M (ℤ × ℕ)
  unfolding chdir_path
  sys_chdir p cwd = chdir_path cwd (argstr p 0)

  module _ {r : List ℕ} where
    chdir_inode-Runs :
        (cwd ip : ℕ) → Runs false [] (ip ∷ cwd ∷ r) (Moved cwd r) (chdir_inode cwd (some ip))
    unfolding chdir_inode
    chdir_inode-Runs cwd ip = Runs-lock refl (
        Runs-load w _ _ (λ i _.
          Runs-branch
            (λ _. Runs-unlock (Runs-put_second (Runs-ret _ (λ s at. (at, λ ne. absurd (ne refl))))))
            (λ _. Runs-unlock_put (Runs-ret _ (λ s at. (at, λ _. refl))))))

    chdir_path-Runs :
        (cwd : ℕ) (path : Option (ℕ × ℕ))
        → Runs false [] (cwd ∷ r) (Moved cwd r) (chdir_path cwd path)
    unfolding chdir_path chdir_inode
    chdir_path-Runs cwd none = Runs-ret _ (λ s at. (at, λ _. refl))
    chdir_path-Runs cwd (some (path, _)) =
        Runs-find w (namei path) (chdir_inode cwd) (Runs-ret _ (λ s at. (at, λ _. refl)))
          (λ ip. chdir_inode-Runs cwd ip)

  -- Wherever `sys_chdir` starts with no inode locked, it ends so; the process then owns the directory
  -- that it is in, and beside it what it owned before; where the call fails, that directory has not
  -- changed.
  pub sys_chdir-Clean :
      (p : Proc) (cwd : ℕ) (r : List ℕ) (s : Ctx)
      → At false [] (cwd ∷ r) s
      → Clean (Moved cwd r) (sys_chdir p cwd s)
  unfolding sys_chdir
  sys_chdir-Clean p cwd r = (chdir_path-Runs cwd (argstr p 0)).runs
