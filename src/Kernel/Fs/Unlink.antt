-- ===== src/Kernel/Fs/Unlink.antt =====
-- Lab6/xv6-semaphores/sysfile.c: `isdirempty` and `sys_unlink`.
use system_device_programmin.Base.{
  ℕ, zero, suc, List, [], ◌∷◌, ◌≡◌, ◌≢◌, refl, Bool, true, false, Option, none, some, ◌==◌, ◌+◌,
  ◌*◌, ◌<◌, ◌≤◌, ◌%◌, ◌^◌, ltb, ℤ, pos, negsuc, ◌+ℤ◌, short, ltb_ℤ, arith,
}
use system_device_programmin.Kernel.Args.{Proc, argstr}
use system_device_programmin.Kernel.Fs.{
  Name, set_nlink, ◌>>=◌, ◌>>◌, ret, branch, wait, panic, equals, iupdate, namecmp, writei, is_dir,
  World, M, begin, commit, lock, unlock_put, find_parent, lookup, ask, read_dirent, load, store,
  Ctx, dot, dotdot,
}
use system_device_programmin.Kernel.Fs.Clean.{
  Clean, At, Leaves, Runs, Runs-branch, Runs-answer, Runs-begin, Runs-lock, Runs-unlock_put_second,
  statements,
}
use system_device_programmin.Kernel.Fs.Answers.{
  Runs-find_parent, Runs-lookup, Runs-namecmp, Runs-ask, Runs-load, Runs-read_dirent,
}

-- The comparisons have told the two names apart.
differs : {c : ℤ} → equals c 0 ≡ false → c ≢ pos 0
differs {c = pos n} unequal same = ground arith
differs {c = negsuc n} unequal same = ground arith

module _ (w : World) where
  -- Behind `readi`, with what follows in the loop.
  empty_entry : M Bool → ℤ × ℕ → M Bool
  empty_entry rest (n, inum) = branch (equals n 16) (branch (inum == 0) rest (ret false)) panic

  -- The loop of `isdirempty`, on fuel. `off` is compared as a `uint`.
  empty_from : ℕ → ℕ → ℕ → M Bool
  unfolding empty_entry
  empty_from zero dp off = wait
  empty_from (suc fuel) dp off = do
    i ← load w dp
    branch (ltb off i.size)
        (read_dirent w dp off >>= empty_entry (empty_from fuel dp ((off + 16) % 2 ^ 32))) (ret true)

  -- A round for each entry that a directory can have.
  isdirempty : ℕ → M Bool
  unfolding empty_from
  isdirempty dp = empty_from 4480 dp 32

  -- `bad:`
  unlink_bad : ℕ → M ℤ
  unlink_bad dp = do unlock_put dp; commit; ret (negsuc 0)

  -- From `iunlockput(dp)` on.
  unlink_done : ℕ → ℕ → M ℤ
  unlink_done dp ip = do
    unlock_put dp
    i ← load w ip
    store (set_nlink ip (short (i.nlink +ℤ negsuc 0)))
    store (iupdate ip)
    unlock_put ip
    commit
    ret (pos 0)

  -- From `memset` on.
  unlink_entry : ℕ → ℕ → ℕ → M ℤ
  unfolding unlink_done
  unlink_entry dp ip off = do
    n ← ask w (writei dp off 16)
    branch (equals n 16)
        (do
          i ← load w ip
          branch (is_dir i.type)
              (do
                d ← load w dp
                store (set_nlink dp (short (d.nlink +ℤ negsuc 0)))
                store (iupdate dp)
                unlink_done dp ip)
              (unlink_done dp ip))
        panic

  -- Behind `isdirempty`.
  unlink_dir : ℕ → ℕ → ℕ → Bool → M ℤ
  unfolding unlink_entry unlink_bad
  unlink_dir dp ip off empty =
      branch empty (unlink_entry dp ip off) (do unlock_put ip; unlink_bad dp)

  -- Behind `dirlookup`.
  unlink_found : ℕ → Option ℕ × ℕ → M ℤ
  unfolding unlink_dir isdirempty
  unlink_found dp (none, off) = unlink_bad dp
  unlink_found dp (some ip, off) = do
    lock ip
    i ← load w ip
    branch (ltb_ℤ i.nlink (pos 1)) panic
        (branch (is_dir i.type) (isdirempty ip >>= unlink_dir dp ip off) (unlink_entry dp ip off))

  unlink_named : ℕ → Name → M ℤ
  unfolding unlink_found
  unlink_named dp name = do
    c ← ask w (namecmp name dot)
    branch (equals c 0) (unlink_bad dp) (do
      c ← ask w (namecmp name dotdot)
      branch (equals c 0) (unlink_bad dp) (lookup w dp name >>= unlink_found dp))

  -- Behind `nameiparent`.
  unlink_parent : Option ℕ × Name → M ℤ
  unfolding unlink_named
  unlink_parent (none, name) = ret (negsuc 0)
  unlink_parent (some dp, name) = do begin; lock dp; unlink_named dp name

  -- Behind `argstr`.
  unlink_path : Option (ℕ × ℕ) → M ℤ
  unfolding unlink_parent
  unlink_path none = ret (negsuc 0)
  unlink_path (some (path, _)) = find_parent w path >>= unlink_parent

  unfoldable pub sys_unlink : Proc → M ℤ
  unfolding unlink_path
  sys_unlink p = unlink_path (argstr p 0)

  module _ {t : Bool} {h r : List ℕ} where
    empty_entry-Runs :
        (rest : M Bool) (n : ℤ) (inum : ℕ)
        → Runs t h r (Leaves t h r) rest
        → Runs t h r (Leaves t h r) (empty_entry rest (n, inum))
    unfolding empty_entry
    empty_entry-Runs rest n inum next =
        Runs-branch (λ _. Runs-branch (λ _. next) (λ _. search (statements)))
          (λ _. search (statements))

    -- There are rounds for the entries left.
    empty_from-Runs :
        (fuel dp off : ℕ)
        → off < 71696
        → 71696 ≤ off + 16 * fuel
        → Runs t h r (Leaves t h r) (empty_from fuel dp off)
    unfolding empty_from
    empty_from-Runs zero dp off below enough = absurd (omega arith)
    empty_from-Runs (suc fuel) dp off below enough = Runs-load w _ _ (λ i small.
        Runs-branch
          (λ inside. Runs-read_dirent w dp off _ (λ n inum.
            empty_entry-Runs _ n inum
              (empty_from-Runs fuel dp ((off + 16) % 2 ^ 32) (ground arith) (ground arith))))
          (λ _. search (statements)))

    -- `isdirempty` ends, whatever the directory holds.
    isdirempty-Runs : (dp : ℕ) → Runs t h r (Leaves t h r) (isdirempty dp)
    unfolding isdirempty
    isdirempty-Runs dp = empty_from-Runs 4480 dp 32 (omega arith) (omega arith)

  module _ {r : List ℕ} where
    unlink_bad-Runs : {dp : ℕ} → Runs true (dp ∷ []) (dp ∷ r) (Leaves false [] r) (unlink_bad dp)
    unfolding unlink_bad
    unlink_bad-Runs = search (statements)

    unlink_done-Runs :
        {ip dp : ℕ} → Runs true (ip ∷ dp ∷ []) (ip ∷ dp ∷ r) (Leaves false [] r) (unlink_done dp ip)
    unfolding unlink_done
    unlink_done-Runs = Runs-unlock_put_second (Runs-load w _ _ (λ i _. search (statements)))

    unlink_entry-Runs :
        {ip dp : ℕ} (off : ℕ)
        → Runs true (ip ∷ dp ∷ []) (ip ∷ dp ∷ r) (Leaves false [] r) (unlink_entry dp ip off)
    unfolding unlink_entry
    unlink_entry-Runs off = Runs-ask w _ _ (λ n.
        Runs-branch
          (λ _. Runs-load w _ _ (λ i _.
            Runs-branch (λ _. Runs-load w _ _ (λ d _. search (statements, unlink_done-Runs)))
              (λ _. unlink_done-Runs)))
          (λ _. search (statements)))

    unlink_dir-Runs :
        {ip dp : ℕ} (off : ℕ) (empty : Bool)
        → Runs true (ip ∷ dp ∷ []) (ip ∷ dp ∷ r) (Leaves false [] r) (unlink_dir dp ip off empty)
    unfolding unlink_dir
    unlink_dir-Runs off empty =
        Runs-branch (λ _. unlink_entry-Runs off) (λ _. search (statements, unlink_bad-Runs))

    unlink_found-Runs :
        {ip dp : ℕ} (off : ℕ)
        → ip ≢ dp
        → Runs true (dp ∷ []) (ip ∷ dp ∷ r) (Leaves false [] r) (unlink_found dp (some ip, off))
    unfolding unlink_found
    unlink_found-Runs {ip} {dp} off other = Runs-lock (ground arith) (
        Runs-load w _ _ (λ i _.
          Runs-branch (λ _. search (statements))
            (λ _.
              Runs-branch
                (λ _. Runs-answer (unlink_dir dp ip off) (isdirempty-Runs ip) (unlink_dir-Runs off))
                (λ _. unlink_entry-Runs off))))

    unlink_named-Runs :
        {dp : ℕ} (name : Name)
        → Runs true (dp ∷ []) (dp ∷ r) (Leaves false [] r) (unlink_named dp name)
    unfolding unlink_named unlink_found
    unlink_named-Runs {dp} name = Runs-namecmp w name dot _ (λ c is_dot.
        Runs-branch (λ _. unlink_bad-Runs)
          (λ first. Runs-namecmp w name dotdot _ (λ c' is_dotdot.
            Runs-branch (λ _. unlink_bad-Runs)
              (λ second.
                Runs-lookup w dp name (unlink_found dp) (λ _. unlink_bad-Runs)
                  (λ ip off apart.
                    unlink_found-Runs off (
                      apart (λ e. differs first (is_dot e))
                        (λ e. differs second (is_dotdot e))))))))

    unlink_path-Runs :
        (path : Option (ℕ × ℕ)) → Runs false [] r (Leaves false [] r) (unlink_path path)
    unfolding unlink_path unlink_parent
    unlink_path-Runs none = search (statements)
    unlink_path-Runs (some (path, _)) =
        Runs-find_parent w path unlink_parent (λ _. search (statements))
          (λ dp name. Runs-begin (Runs-lock refl (unlink_named-Runs name)))

  -- Wherever `sys_unlink` starts with no transaction open and no inode locked, it ends, and so on each
  -- of its paths, with the references that the process had, or it panics where the code says so: the
  -- loop of `isdirempty` ends, and the process never waits for an inode that it has locked itself.
  pub sys_unlink-Clean :
      (p : Proc) (r : List ℕ) (s : Ctx)
      → At false [] r s
      → Clean (Leaves false [] r) (sys_unlink p s)
  unfolding sys_unlink
  sys_unlink-Clean p r = (unlink_path-Runs (argstr p 0)).runs
