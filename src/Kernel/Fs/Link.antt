-- ===== src/Kernel/Fs/Link.antt =====
-- Lab6/xv6-semaphores/sysfile.c: `sys_link`.
use system_device_programmin.Base.{
  ℕ, List, [], ◌∷◌, refl, true, false, Option, none, some, ◌==◌, ℤ, pos, negsuc, ◌+ℤ◌, short, ltb_ℤ,
}
use system_device_programmin.Kernel.Args.{Proc, argstr}
use system_device_programmin.Kernel.Fs.{
  Name, set_nlink, ◌>>=◌, ◌>>◌, ret, branch, iupdate, namei, dirlink, is_dir, World, M, begin,
  commit, lock, unlock, put, unlock_put, find, find_parent, ask, load, store, Ctx,
}
use system_device_programmin.Kernel.Fs.Clean.{
  Clean, At, Leaves, Runs, Runs-branch, Runs-begin, Runs-lock, statements,
}
use system_device_programmin.Kernel.Fs.Answers.{Runs-find, Runs-find_parent, Runs-ask, Runs-load}

module _ (w : World) where
  -- `bad:`
  link_bad : ℕ → M ℤ
  link_bad ip = do
    lock ip
    i ← load w ip
    store (set_nlink ip (short (i.nlink +ℤ negsuc 0)))
    store (iupdate ip)
    unlock_put ip
    commit
    ret (negsuc 0)

  -- Behind `nameiparent`.
  link_in : ℕ → Option ℕ × Name → M ℤ
  unfolding link_bad
  link_in ip (none, name) = link_bad ip
  link_in ip (some dp, name) = do
    lock dp
    d ← load w dp
    i ← load w ip
    branch (d.dev == i.dev)
        (do
          r ← ask w (dirlink dp name i.inum)
          branch (ltb_ℤ r (pos 0)) (do unlock_put dp; link_bad ip)
              (do unlock_put dp; put ip; commit; ret (pos 0)))
        (do unlock_put dp; link_bad ip)

  link_parent : ℕ → ℕ → M ℤ
  unfolding link_in
  link_parent new ip = find_parent w new >>= link_in ip

  -- From `ip->nlink++`.
  link_counted : ℕ → ℕ → ℤ → M ℤ
  unfolding link_parent
  link_counted new ip nlink = do
    store (set_nlink ip nlink)
    store (iupdate ip)
    unlock ip
    link_parent new ip

  -- Behind `namei`.
  link_inode : ℕ → Option ℕ → M ℤ
  unfolding link_counted
  link_inode new none = ret (negsuc 0)
  link_inode new (some ip) = do
    begin
    lock ip
    i ← load w ip
    branch (is_dir i.type) (do unlock_put ip; commit; ret (negsuc 0))
        (do link_counted new ip (short (i.nlink +ℤ pos 1)))

  -- Behind `argstr`.
  link_paths : Option (ℕ × ℕ) → Option (ℕ × ℕ) → M ℤ
  unfolding link_inode
  link_paths none new = ret (negsuc 0)
  link_paths (some old) none = ret (negsuc 0)
  link_paths (some (old, _)) (some (new, _)) = find w (namei old) >>= link_inode new

  unfoldable pub sys_link : Proc → M ℤ
  unfolding link_paths
  sys_link p = link_paths (argstr p 0) (argstr p 1)

  module _ {r : List ℕ} where
    link_bad-Runs : {ip : ℕ} → Runs true [] (ip ∷ r) (Leaves false [] r) (link_bad ip)
    unfolding link_bad
    link_bad-Runs = Runs-lock refl (Runs-load w _ _ (λ i _. search (statements)))

    link_in-Runs :
        {ip dp : ℕ} (name : Name)
        → Runs true [] (dp ∷ ip ∷ r) (Leaves false [] r) (link_in ip (some dp, name))
    unfolding link_in
    link_in-Runs name = Runs-lock refl (
        Runs-load w _ _ (λ d _. Runs-load w _ _ (λ i _.
          Runs-branch
            (λ _. Runs-ask w _ _ (λ c.
              Runs-branch (λ _. search (statements, link_bad-Runs)) (λ _. search (statements))))
            (λ _. search (statements, link_bad-Runs)))))

    link_parent-Runs :
        {ip : ℕ} (new : ℕ) → Runs true [] (ip ∷ r) (Leaves false [] r) (link_parent new ip)
    unfolding link_parent link_in
    link_parent-Runs {ip} new =
        Runs-find_parent w new (link_in ip) (λ _. link_bad-Runs) (λ dp name. link_in-Runs name)

    link_inode-Runs :
        {ip : ℕ} (new : ℕ) → Runs false [] (ip ∷ r) (Leaves false [] r) (link_inode new (some ip))
    unfolding link_inode link_counted
    link_inode-Runs new = Runs-begin (
        Runs-lock refl (
          Runs-load w _ _ (λ i _.
            Runs-branch (λ _. search (statements)) (λ _. search (statements, link_parent-Runs)))))

    link_paths-Runs :
        (old new : Option (ℕ × ℕ)) → Runs false [] r (Leaves false [] r) (link_paths old new)
    unfolding link_paths link_inode
    link_paths-Runs none new = search (statements)
    link_paths-Runs (some old) none = search (statements)
    link_paths-Runs (some (old, _)) (some (new, _)) =
        Runs-find w (namei old) (link_inode new) (search (statements)) (λ ip. link_inode-Runs new)

  -- Wherever `sys_link` starts with no transaction open and no inode locked, it ends so on each of
  -- its paths, with the references that the process had: it never waits for itself, and commits,
  -- unlocks and gives back only what it has.
  pub sys_link-Clean :
      (p : Proc) (r : List ℕ) (s : Ctx) → At false [] r s → Clean (Leaves false [] r) (sys_link p s)
  unfolding sys_link
  sys_link-Clean p r = (link_paths-Runs (argstr p 0) (argstr p 1)).runs
