-- ===== src/Kernel/Fd/Calls.antt =====
-- `sys_dup` and `sys_close` of Lab6/xv6-semaphores/sysfile.c keep the reference counts of file.c
-- exact, and undo each other.
use system_device_programmin.Base.{
  ℕ, suc, ◌+◌, ◌^◌, ◌<◌, ◌≡◌, refl, ◌++◌, Option, none, some, Option-cases, inl, inr, subst, ◌==◌,
  if◌then◌else◌, get_elem?, get_elem?-lt, get_elem?-set_self, set, set-set, set_same, ap, ℤ, pos,
  negsuc, arith,
}
use system_device_programmin.Kernel.Outcome.{Outcome, done, Ends}
use system_device_programmin.Kernel.File.{nfile, File}
use system_device_programmin.Kernel.File.Steps.{closing, fileclose_lem}
use system_device_programmin.Kernel.Fd.{nofile, State, argfd, fdalloc, sys_dup, sys_close}
use system_device_programmin.Kernel.Fd.Count.{count}
use system_device_programmin.Kernel.Fd.Alloc.{
  InUse, Allocated, taken, full, argfd_iff, fdalloc-Allocated,
}
use system_device_programmin.Kernel.Fd.Counted.{
  IsCounted, open_fd, write-IsCounted, grow, at_fd, dup_done, dup_full, close_done,
  closed-IsCounted,
}

dup_refused : (a : Option ℤ) (s : State) → argfd a s.ofile ≡ none → sys_dup a s ≡ done (negsuc 0) s
unfolding sys_dup
dup_refused a s e = ground (arith, e)

close_refused :
    (a : Option ℤ) (s : State) → argfd a s.ofile ≡ none → sys_close a s ≡ done (negsuc 0) s
unfolding sys_close
close_refused a s e = ground (arith, e)

-- `others i` references to the file `i` are held by the rest of the system.
module _ (others : ℕ → ℕ) where
  -- What `sys_dup` does, with its two ways to fail.
  pub data Duplicated (a : Option ℤ) (s : State) : Outcome State ℤ → Type 0 where
    not_open : argfd a s.ofile ≡ none → Duplicated a s (done (negsuc 0) s)
    no_room : InUse s.ofile nofile → Duplicated a s (done (negsuc 0) s)
    copied :
        (fd i new : ℕ) (f : File) (r : ℕ)
        → argfd a s.ofile ≡ some (fd, i)
        → new < nofile
        → get_elem? s.ofile new ≡ some none
        → InUse s.ofile new
        → get_elem? s.table.file i ≡ some f
        → f.ref ≡ pos r
        → Duplicated a s (
            done (pos new) (record {
              table = record s.table { file = set s.table.file i (record f { ref = pos (suc r) }) };
              ofile = set s.ofile new (some i);
            }))

  -- `sys_dup` returns the lowest free descriptor, which then refers to the same file, whose
  -- references are one more; or -1, with nothing changed, if the argument is no open descriptor or
  -- no descriptor is free.
  pub sys_dup-Duplicated :
      (a : Option ℤ) {s : State} → IsCounted others s → Duplicated a s (sys_dup a s)
  sys_dup-Duplicated a {s} v = elim (Option-cases (argfd a s.ofile)) [
    | inl e ↦ rw (dup_refused a s e) (not_open e)
    | inr ((fd, i), e) ↦ go fd i e (fdalloc-Allocated i s.ofile v.fds)
  ]
    where
      go :
          (fd i : ℕ)
          → argfd a s.ofile ≡ some (fd, i)
          → Allocated i s.ofile (fdalloc i s.ofile)
          → Duplicated a s (sys_dup a s)
      go fd i e (taken new lt free used r) =
          let o = open_fd others fd i v (at_fd others v a fd i e) in
          rw (dup_done others v a fd i e new r)
            (copied fd i new o.file (suc o.rest) e lt free used o.at_i o.refs)
      go fd i e (full used r) = rw (dup_full others v a fd i e r) (no_room used)

  -- `sys_dup` keeps every count exact; it does not panic.
  pub sys_dup-IsCounted :
      (a : Option ℤ) {s : State} → IsCounted others s → Ends (IsCounted others) (sys_dup a s)
  sys_dup-IsCounted a {s} v = go v (sys_dup-Duplicated a v)
    where
      go : {o : Outcome State ℤ} → IsCounted others s → Duplicated a s o → Ends (IsCounted others) o
      go w (not_open e) = w
      go w (no_room used) = w
      go w (copied fd i new f r e lt free used at_i refs) =
          write-IsCounted others new i (some i) _ _ w free w.unlocked refl (λ j ne. ground arith)
            (ap pos (grow others w i new f r free at_i refs))
            (λ g e'.
              subst (λ k. k < nfile) (ground arith) (w.inside fd i (at_fd others w a fd i e)))

  -- `sys_close` keeps every count exact; it does not panic.
  pub sys_close-IsCounted :
      (a : Option ℤ) {s : State} → IsCounted others s → Ends (IsCounted others) (sys_close a s)
  sys_close-IsCounted a {s} v = elim (Option-cases (argfd a s.ofile)) [
    | inl e ↦ rw (close_refused a s e) v
    | inr ((fd, i), e) ↦ rw (close_done others v a fd i e) (closed-IsCounted others v a fd i e)
  ]

  -- `sys_close` closes the object of the file exactly when the descriptor was the last reference to
  -- it anywhere, and calls nothing else.
  pub sys_close-calls :
      (a : Option ℤ) {s : State} (fd i : ℕ) (f : File)
      → IsCounted others s
      → argfd a s.ofile ≡ some (fd, i)
      → get_elem? s.table.file i ≡ some f
      → (t : State) × (sys_close a s ≡ done (pos 0) t)
        × (get_elem? t.ofile fd ≡ some none)
        × (t.table.calls ≡ (
            if count i s.ofile + others i == 1 then s.table.calls ++ closing f else s.table.calls))
  sys_close-calls a {s} fd i f v e at_i =
      let o = open_fd others fd i v (at_fd others v a fd i e) in
      let same : o.file ≡ f = ground (arith, o.at_i) in
      (
        _,
        close_done others v a fd i e,
        get_elem?-set_self s.ofile fd none (get_elem?-lt s.ofile fd (at_fd others v a fd i e)),
        ground (arith, same, o.total),
      )

  -- The state after a `dup` onto `k` of the file `i`, which had `r` references.
  abbrev pair : ℕ → ℕ → File → ℕ → State → State
  pair k i f r s = record {
    table = record s.table { file = set s.table.file i (record f { ref = pos (suc r) }) };
    ofile = set s.ofile k (some i);
  }

  used_once :
      {s : State} (v : IsCounted others s) (a : Option ℤ) (fd i : ℕ) (f : File) (r : ℕ)
      → argfd a s.ofile ≡ some (fd, i)
      → get_elem? s.table.file i ≡ some f
      → f.ref ≡ pos r
      → (0 < r) × (suc (suc r) < 2 ^ 31)
  used_once v a fd i f r asked at_i refs =
      let o = open_fd others fd i v (at_fd others v a fd i asked) in
      let same : o.file ≡ f = ground (arith, o.at_i) in
      let e : suc o.rest ≡ r = ground (arith, o.refs) in (omega arith, omega (arith, o.small))

  undo :
      {s : State} (v : IsCounted others s) (k i : ℕ) (f : File) (r : ℕ)
      → k < nofile
      → get_elem? s.ofile k ≡ some none
      → get_elem? s.table.file i ≡ some f
      → f.ref ≡ pos r
      → (0 < r) × (suc (suc r) < 2 ^ 31)
      → sys_close (some (pos k)) (pair k i f r s) ≡ done (pos 0) s
  unfolding sys_close
  undo {s} v k i f r lt free at_i refs bounds =
      let asked =
        (argfd_iff (some (pos k)) (set s.ofile k (some i)) k i).1
          (refl, lt, get_elem?-set_self s.ofile k (some i) (get_elem?-lt s.ofile k free)) in
      let counted =
        get_elem?-set_self s.table.file i (record f { ref = pos (suc r) })
          (get_elem?-lt s.table.file i at_i) in
      ground (
        arith,
        asked,
        fileclose_lem i (pair k i f r s).table r counted v.unlocked refl bounds.1,
        set-set s.table.file i (record f { ref = pos (suc r) }) (record f { ref = pos r }),
        set_same s.table.file i at_i,
        set-set s.ofile k (some i) none,
        set_same s.ofile k free,
      )

  -- Where the counts are exact, closing the descriptor that `sys_dup` returned gives back the state
  -- that it was called in.
  pub sys_close-sys_dup :
      (a : Option ℤ) {s t : State} (new : ℕ)
      → IsCounted others s
      → sys_dup a s ≡ done (pos new) t
      → sys_close (some (pos new)) t ≡ done (pos 0) s
  sys_close-sys_dup a {s} {t} new v e = go (sys_dup-Duplicated a v) e
    where
      go :
          {o : Outcome State ℤ}
          → Duplicated a s o
          → o ≡ done (pos new) t
          → sys_close (some (pos new)) t ≡ done (pos 0) s
      go (not_open _) h = absurd (ground arith)
      go (no_room _) h = absurd (ground arith)
      go (copied fd i k f r asked lt free used at_i refs) h =
          let k_eq : k ≡ new = ground arith in
          subst (λ u. sys_close (some (pos new)) u ≡ done (pos 0) s) (ground arith)
            (subst (λ n. sys_close (some (pos n)) (pair k i f r s) ≡ done (pos 0) s) k_eq
              (undo v k i f r lt free at_i refs (used_once v a fd i f r asked at_i refs)))
