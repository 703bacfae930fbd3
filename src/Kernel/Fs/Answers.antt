-- ===== src/Kernel/Fs/Answers.antt =====
-- The rules for the calls of fs.c that answer: what a system call of Lab6/xv6-semaphores/sysfile.c may
-- rely on behind them.
use system_device_programmin.Base.{
  ℕ, List, ◌∷◌, ◌≡◌, ◌≢◌, ◌≤◌, refl, Bool, false, Option, none, some, Option-cases, inl, inr, sym,
  ap, ◌∙◌, ℤ, pos, arith,
}
use system_device_programmin.Kernel.Fs.{
  Name, Event, nameiparent, dirlookup, namecmp, ialloc, Inode, InodeType, Ctx, contains, World, M,
  find, find_parent, lookup, ask, load, ◌>>=◌, dot, dotdot, read_dirent,
}
use system_device_programmin.Kernel.Fs.Clean.{Clean, Clean-bind, At, Leaves, Runs, owning}

module _ (w : World) (t : Bool) (h r : List ℕ) (s : Ctx) where
  find_run :
      (e : Event)
      → At t h r s
      → Clean (λ o s'. (w.pointer s e ≡ o) × At t h (owning o r) s') (find w e s)
  unfolding find
  find_run e (et, eh, er) = elim (Option-cases (w.pointer s e)) [
    | inl missing ↦ ground arith
    | inr (ip, found) ↦ ground arith
  ]

  find_parent_run :
      (path : ℕ) → At t h r s → Clean (λ (o, n) s'. At t h (owning o r) s') (find_parent w path s)
  unfolding find_parent
  find_parent_run path (et, eh, er) = elim (Option-cases (w.pointer s (nameiparent path))) [
    | inl missing ↦ ground arith
    | inr (ip, found) ↦ ground arith
  ]

  lookup_run :
      (dp : ℕ) (n : Name)
      → At t h r s
      → Clean
          (λ (o, off) s'. (w.pointer s (dirlookup dp n) ≡ o) × At t h (owning o r) s')
          (lookup w dp n s)
  unfolding lookup
  lookup_run dp n (et, eh, er) = elim (Option-cases (w.pointer s (dirlookup dp n))) [
    | inl missing ↦ ground arith
    | inr (ip, found) ↦ ground arith
  ]

  ask_run : (e : Event) → At t h r s → Clean (λ c s'. (w.int s e ≡ c) × At t h r s') (ask w e s)
  unfolding ask
  ask_run e at = (refl, at)

  load_run :
      (ip : ℕ)
      → At t h r s
      → Clean (λ i s'. (s' ≡ s) × (w.inode s ip ≡ i) × At t h r s') (load w ip s)
  unfolding load
  load_run ip at = (refl, refl, at)

  read_dirent_run : (dp off : ℕ) → At t h r s → Clean (Leaves t h r) (read_dirent w dp off s)
  unfolding read_dirent
  read_dirent_run dp off at = at

module _ {t : Bool} {h r : List ℕ} {B : Type 0} {P : B → Ctx → Type 0} where
  by_answer :
      (f : Option ℕ → M B)
      → Runs t h r P (f none)
      → ((ip : ℕ) → Runs t h (ip ∷ r) P (f (some ip)))
      → (o : Option ℕ) (s : Ctx) → At t h (owning o r) s
      → Clean P (f o s)
  by_answer f missing found none s at = missing.runs s at
  by_answer f missing found (some ip) s at = (found ip).runs s at

module _ (w : World) {t : Bool} {h r : List ℕ} {B : Type 0} {P : B → Ctx → Type 0} where
  pub Runs-find :
      (e : Event) (f : Option ℕ → M B)
      → Runs t h r P (f none)
      → ((ip : ℕ) → Runs t h (ip ∷ r) P (f (some ip)))
      → Runs t h r P (find w e >>= f)
  Runs-find e f missing found = record {
    runs = λ s at.
        Clean-bind P (λ o s'. (w.pointer s e ≡ o) × At t h (owning o r) s') (find w e) f s
          (find_run w t h r s e at) (λ o s' (_, at'). by_answer f missing found o s' at');
  }

  pub Runs-find_parent :
      (path : ℕ) (f : Option ℕ × Name → M B)
      → ((n : Name) → Runs t h r P (f (none, n)))
      → ((dp : ℕ) (n : Name) → Runs t h (dp ∷ r) P (f (some dp, n)))
      → Runs t h r P (find_parent w path >>= f)
  Runs-find_parent path f missing found = record {
    runs = λ s at.
        Clean-bind P (λ (o, n) s'. At t h (owning o r) s') (find_parent w path) f s
          (find_parent_run w t h r s path at)
          (λ (o, n) s' at'. by_answer (λ o. f (o, n)) (missing n) (λ dp. found dp n) o s' at');
  }

  pub Runs-ask :
      (e : Event) (f : ℤ → M B) → ((c : ℤ) → Runs t h r P (f c)) → Runs t h r P (ask w e >>= f)
  Runs-ask e f answered = record {
    runs = λ s at.
        Clean-bind P (λ c s'. (w.int s e ≡ c) × At t h r s') (ask w e) f s (ask_run w t h r s e at)
          (λ c s' (_, at'). (answered c).runs s' at');
  }

  -- The comparison of two names.
  pub Runs-namecmp :
      (n m : Name) (f : ℤ → M B)
      → ((c : ℤ) → (n ≡ m → c ≡ pos 0) → Runs t h r P (f c))
      → Runs t h r P (ask w (namecmp n m) >>= f)
  Runs-namecmp n m f answered = record {
    runs = λ s at.
        Clean-bind P (λ c s'. (w.int s (namecmp n m) ≡ c) × At t h r s') (ask w (namecmp n m)) f s
          (ask_run w t h r s (namecmp n m) at)
          (λ c s' (e, at'). (answered c (λ same. sym e ∙ w.compares s n m same)).runs s' at');
  }

  pub Runs-load :
      (ip : ℕ) (f : Inode → M B)
      → ((i : Inode) → i.size ≤ 71680 → Runs t h r P (f i))
      → Runs t h r P (load w ip >>= f)
  Runs-load ip f answered = record {
    runs = λ s at.
        Clean-bind P (λ i s'. (s' ≡ s) × (w.inode s ip ≡ i) × At t h r s') (load w ip) f s
          (load_run w t h r s ip at)
          (λ i s' (_, e, at'). (answered i (rw (sym e) (w.max_size s ip))).runs s' at');
  }

  pub Runs-read_dirent :
      (dp off : ℕ) (f : ℤ × ℕ → M B)
      → ((n : ℤ) (inum : ℕ) → Runs t h r P (f (n, inum)))
      → Runs t h r P (read_dirent w dp off >>= f)
  Runs-read_dirent dp off f answered = record {
    runs = λ s at.
        Clean-bind P (Leaves t h r) (read_dirent w dp off) f s (read_dirent_run w t h r s dp off at)
          (λ (n, inum) s' at'. (answered n inum).runs s' at');
  }

  missing_entry :
      (f : Option ℕ × ℕ → M B)
      → ((off : ℕ) → Runs t h r P (f (none, off)))
      → (answer : Option ℕ)
      → ((ip off : ℕ) → answer ≡ some ip → Runs t h (ip ∷ r) P (f (some ip, off)))
      → (o : Option ℕ) (off : ℕ) (s : Ctx) → answer ≡ o
      → At t h (owning o r) s
      → Clean P (f (o, off) s)
  missing_entry f missing answer found none off s e at = (missing off).runs s at
  missing_entry f missing answer found (some ip) off s e at = (found ip off e).runs s at

  -- Another entry of a directory than `.` and `..` names another inode.
  pub Runs-lookup :
      (dp : ℕ) (n : Name) (f : Option ℕ × ℕ → M B)
      → ((off : ℕ) → Runs t h r P (f (none, off)))
      → ((ip off : ℕ) → (n ≢ dot → n ≢ dotdot → ip ≢ dp) → Runs t h (ip ∷ r) P (f (some ip, off)))
      → Runs t h r P (lookup w dp n >>= f)
  Runs-lookup dp n f missing found = record {
    runs = λ s at.
        Clean-bind P (λ (o, off) s'. (w.pointer s (dirlookup dp n) ≡ o) × At t h (owning o r) s')
          (lookup w dp n) f s (lookup_run w t h r s dp n at)
          (λ (o, off) s' (e, at').
            missing_entry f missing (w.pointer s (dirlookup dp n))
              (λ ip off e. found ip off (λ nd nd2. w.other s dp ip n nd nd2 e)) o off s' e at');
  }

  -- A new inode is not locked.
  pub Runs-ialloc :
      (dev : ℕ) (type : InodeType) (f : Option ℕ → M B)
      → Runs t h r P (f none)
      → ((ip : ℕ) → contains ip h ≡ false → Runs t h (ip ∷ r) P (f (some ip)))
      → Runs t h r P (find w (ialloc dev type) >>= f)
  Runs-ialloc dev type f missing found = record {
    runs = λ s at.
        Clean-bind P (λ o s'. (w.pointer s (ialloc dev type) ≡ o) × At t h (owning o r) s')
          (find w (ialloc dev type)) f s (find_run w t h r s (ialloc dev type) at)
          (λ o s' (e, at').
            missing_entry (λ (o, _). f o) (λ _. missing) (w.pointer s (ialloc dev type))
              (λ ip _ e. found ip (ap (contains ip) (sym at.1) ∙ w.fresh s dev ip type e)) o 0 s' e
              at');
  }
