-- ===== src/Kernel/Fs/Create.antt =====
-- Lab6/xv6-semaphores/sysfile.c: `create`, and the calls `sys_mkdir` and `sys_mknod` that use it.
use system_device_programmin.Base.{
  ℕ, List, [], ◌∷◌, ◌≡◌, refl, Bool, true, false, Option, none, some, ◌&&◌, ℤ, pos, negsuc, ◌+ℤ◌,
  short, ltb_ℤ,
}
use system_device_programmin.Kernel.Args.{Proc, argstr, argint}
use system_device_programmin.Kernel.Fs.{
  Name, InodeType, t_dir, t_dev, set_nlink, set_device, ◌>>=◌, ◌>>◌, ret, branch, panic, iupdate,
  dirlink, ialloc, is_dir, is_file, World, M, begin, commit, lock, unlock_put, find, find_parent,
  lookup, ask, load, store, Ctx, contains, dot, dotdot,
}
use system_device_programmin.Kernel.Fs.Clean.{
  Clean, At, Leaves, Runs, Runs-branch, Runs-store, Runs-begin, Runs-lock, Runs-unlock_put_second,
  Runs-unlock_put_below, Runs-answered, Locked, statements,
}
use system_device_programmin.Kernel.Fs.Answers.{
  Runs-find_parent, Runs-lookup, Runs-ialloc, Runs-ask, Runs-load,
}

module _ (w : World) where
  -- From the last `dirlink` on.
  create_link : ℕ → ℕ → Name → M (Option ℕ)
  create_link dp ip name = do
    i ← load w ip
    r ← ask w (dirlink dp name i.inum)
    branch (ltb_ℤ r (pos 0)) panic (do unlock_put dp; ret (some ip))

  -- The entries `.` and `..`.
  create_dots : ℕ → ℕ → Name → M (Option ℕ)
  unfolding create_link
  create_dots dp ip name = do
    i ← load w ip
    r ← ask w (dirlink ip dot i.inum)
    branch (ltb_ℤ r (pos 0)) panic (do
      d ← load w dp
      r ← ask w (dirlink ip dotdot d.inum)
      branch (ltb_ℤ r (pos 0)) panic (create_link dp ip name))

  -- Behind `ialloc`.
  create_new : InodeType → ℤ → ℤ → ℕ → Name → Option ℕ → M (Option ℕ)
  unfolding create_dots create_link
  create_new type major minor dp name none = panic
  create_new type major minor dp name (some ip) = do
    lock ip
    store (set_device ip major minor)
    store (set_nlink ip (pos 1))
    store (iupdate ip)
    branch (is_dir type)
        (do
          d ← load w dp
          store (set_nlink dp (short (d.nlink +ℤ pos 1)))
          store (iupdate dp)
          create_dots dp ip name)
        (create_link dp ip name)

  -- Behind `dirlookup`.
  create_entry : InodeType → ℤ → ℤ → ℕ → Name → Option ℕ × ℕ → M (Option ℕ)
  unfolding create_new
  create_entry type major minor dp name (none, off) = do
    d ← load w dp
    find w (ialloc d.dev type) >>= create_new type major minor dp name
  create_entry type major minor dp name (some ip, off) = do
    unlock_put dp
    lock ip
    i ← load w ip
    branch (is_file type && is_file i.type) (ret (some ip)) (do unlock_put ip; ret none)

  -- Behind `nameiparent`.
  create_parent : InodeType → ℤ → ℤ → Option ℕ × Name → M (Option ℕ)
  unfolding create_entry
  create_parent type major minor (none, name) = ret none
  create_parent type major minor (some dp, name) = do
    lock dp
    lookup w dp name >>= create_entry type major minor dp name

  unfoldable pub create : ℕ → InodeType → ℤ → ℤ → M (Option ℕ)
  unfolding create_parent
  create path type major minor = find_parent w path >>= create_parent type major minor

  -- Behind `create`, in `sys_mkdir` and in `sys_mknod`.
  created : Option ℕ → M ℤ
  created none = do commit; ret (negsuc 0)
  created (some ip) = do unlock_put ip; commit; ret (pos 0)

  -- Behind `argstr`.
  mkdir_path : Option (ℕ × ℕ) → M ℤ
  unfolding created create
  mkdir_path none = created none
  mkdir_path (some (path, _)) = create path t_dir (pos 0) (pos 0) >>= created

  unfoldable pub sys_mkdir : Proc → M ℤ
  unfolding mkdir_path
  sys_mkdir p = do begin; mkdir_path (argstr p 0)

  -- Behind `argstr` and `argint`. The numbers are passed as `short`.
  mknod_path : Option (ℕ × ℕ) → Option ℤ → Option ℤ → M ℤ
  unfolding created create
  mknod_path none major minor = created none
  mknod_path (some path) none minor = created none
  mknod_path (some path) (some major) none = created none
  mknod_path (some (path, _)) (some major) (some minor) =
      create path t_dev (short major) (short minor) >>= created

  unfoldable pub sys_mknod : Proc → M ℤ
  unfolding mknod_path
  sys_mknod p = do begin; mknod_path (argstr p 0) (argint p 1) (argint p 2)

  module _ {t : Bool} {r : List ℕ} where
    create_link-Runs :
        {ip dp : ℕ} (name : Name)
        → Runs t (ip ∷ dp ∷ []) (ip ∷ dp ∷ r) (Locked t [] r) (create_link dp ip name)
    unfolding create_link
    create_link-Runs name = Runs-load w _ _ (λ i _. Runs-ask w _ _ (λ c.
        Runs-branch (λ _. search (statements)) (λ _. Runs-unlock_put_second (search (statements)))))

    create_dots-Runs :
        {ip dp : ℕ} (name : Name)
        → Runs t (ip ∷ dp ∷ []) (ip ∷ dp ∷ r) (Locked t [] r) (create_dots dp ip name)
    unfolding create_dots
    create_dots-Runs name = Runs-load w _ _ (λ i _. Runs-ask w _ _ (λ c.
        Runs-branch (λ _. search (statements))
          (λ _. Runs-load w _ _ (λ d _.
            Runs-ask w _ _
              (λ c. Runs-branch (λ _. search (statements)) (λ _. create_link-Runs name))))))

    create_new-Runs :
        {ip dp : ℕ} (type : InodeType) (major minor : ℤ) (name : Name)
        → contains ip (dp ∷ []) ≡ false
        → Runs t
            (dp ∷ [])
            (ip ∷ dp ∷ r)
            (Locked t [] r)
            (create_new type major minor dp name (some ip))
    unfolding create_new
    create_new-Runs type major minor name out = Runs-lock out (
        Runs-store _ (
          Runs-store _ (
            Runs-store _ (
              Runs-branch (λ _. Runs-load w _ _ (λ d _. search (statements, create_dots-Runs)))
                (λ _. create_link-Runs name)))))

    create_found-Runs :
        {ip dp : ℕ} (type : InodeType) (major minor : ℤ) (name : Name) (off : ℕ)
        → Runs t
            (dp ∷ [])
            (ip ∷ dp ∷ r)
            (Locked t [] r)
            (create_entry type major minor dp name (some ip, off))
    unfolding create_entry
    create_found-Runs type major minor name off = Runs-unlock_put_below (
        Runs-lock refl (
          Runs-load w _ _
            (λ i _. Runs-branch (λ _. search (statements)) (λ _. search (statements)))))

    create_entry-Runs :
        {dp : ℕ} (type : InodeType) (major minor : ℤ) (name : Name) (off : ℕ)
        → Runs t
            (dp ∷ [])
            (dp ∷ r)
            (Locked t [] r)
            (create_entry type major minor dp name (none, off))
    unfolding create_entry create_new
    create_entry-Runs {dp} type major minor name off = Runs-load w _ _ (λ d _.
        Runs-ialloc w d.dev type (create_new type major minor dp name) (search (statements))
          (λ ip out. create_new-Runs type major minor name out))

    pub create-Runs :
        (path : ℕ) (type : InodeType) (major minor : ℤ)
        → Runs t [] r (Locked t [] r) (create path type major minor)
    unfolding create create_parent
    create-Runs path type major minor =
        Runs-find_parent w path (create_parent type major minor) (λ _. search (statements))
          (λ dp name. Runs-lock refl (
            Runs-lookup w dp name (create_entry type major minor dp name)
              (λ off. create_entry-Runs type major minor name off)
              (λ ip off _. create_found-Runs type major minor name off)))

  module _ {r : List ℕ} where
    found-Runs : {ip : ℕ} → Runs true (ip ∷ []) (ip ∷ r) (Leaves false [] r) (created (some ip))
    unfolding created
    found-Runs = search (statements)

    missing-Runs : Runs true [] r (Leaves false [] r) (created none)
    unfolding created
    missing-Runs = search (statements)

    created-Runs :
        (path : ℕ) (type : InodeType) (major minor : ℤ)
        → Runs true [] r (Leaves false [] r) (create path type major minor >>= created)
    created-Runs path type major minor =
        Runs-answered created (create-Runs path type major minor) missing-Runs (λ ip. found-Runs)

    mkdir_path-Runs : (path : Option (ℕ × ℕ)) → Runs true [] r (Leaves false [] r) (mkdir_path path)
    unfolding mkdir_path
    mkdir_path-Runs none = missing-Runs
    mkdir_path-Runs (some (path, _)) = created-Runs path t_dir (pos 0) (pos 0)

    mknod_path-Runs :
        (path : Option (ℕ × ℕ)) (major minor : Option ℤ)
        → Runs true [] r (Leaves false [] r) (mknod_path path major minor)
    unfolding mknod_path
    mknod_path-Runs none major minor = missing-Runs
    mknod_path-Runs (some path) none minor = missing-Runs
    mknod_path-Runs (some path) (some major) none = missing-Runs
    mknod_path-Runs (some (path, _)) (some major) (some minor) =
        created-Runs path t_dev (short major) (short minor)

  module _ (p : Proc) (r : List ℕ) (s : Ctx) where
    -- Wherever `sys_mkdir` starts with no transaction open and no inode locked, it ends so on each of
    -- its paths, with the references that the process had, or it panics where `create` says so.
    pub sys_mkdir-Clean : At false [] r s → Clean (Leaves false [] r) (sys_mkdir p s)
    unfolding sys_mkdir
    sys_mkdir-Clean = (Runs-begin (mkdir_path-Runs (argstr p 0))).runs s

    -- Wherever `sys_mknod` starts with no transaction open and no inode locked, it ends so on each of
    -- its paths, a missing argument among them, with the references that the process had, or it panics
    -- where `create` says so.
    pub sys_mknod-Clean : At false [] r s → Clean (Leaves false [] r) (sys_mknod p s)
    unfolding sys_mknod
    sys_mknod-Clean = (Runs-begin (mknod_path-Runs (argstr p 0) (argint p 1) (argint p 2))).runs s
