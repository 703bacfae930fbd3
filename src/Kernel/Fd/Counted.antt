-- ===== src/Kernel/Fd/Counted.antt =====
-- The reference counts of Lab6/xv6-semaphores/file.c against the descriptors, and what `sys_dup` and
-- `sys_close` of sysfile.c leave where they succeed.
use system_device_programmin.Base.{
  ℕ, suc, ◌+◌, ◌-◌, ◌^◌, ◌<◌, ◌≡◌, ◌≢◌, ◌∙◌, refl, ◌++◌, false, Option, none, some, Bool-cases, inl,
  inr, subst, ltb, if◌then◌else◌, length, length-set, get_elem?, get_elem?_total,
  get_elem?-set_cases, set, ap, ℤ, pos, negsuc, arith,
}
use system_device_programmin.Kernel.Outcome.{done}
use system_device_programmin.Kernel.File.{nfile, File, Ftable, fd_none}
use system_device_programmin.Kernel.File.Steps.{closing, filedup_lem, fileclose_lem}
use system_device_programmin.Kernel.Fd.{nofile, State, argfd, fdalloc, sys_dup, sys_close}
use system_device_programmin.Kernel.Fd.Count.{
  refers, refers_self, count, count-set, count-le-length, count_pos,
}
use system_device_programmin.Kernel.Fd.Alloc.{argfd_iff}

-- `others i` references to the file `i` are held by the rest of the system.
module _ (others : ℕ → ℕ) where
  pub record IsCounted (s : State) : Type 0 where
    pub unlocked : s.table.lock ≡ false
    pub files : length s.table.file ≡ nfile
    pub fds : length s.ofile ≡ nofile
    pub inside : (fd f : ℕ) → get_elem? s.ofile fd ≡ some (some f) → f < nfile
    pub exact :
        (i : ℕ) (f : File)
        → get_elem? s.table.file i ≡ some f
        → f.ref ≡ pos (count i s.ofile + others i)
    pub few : (i : ℕ) → others i + nofile + 2 < 2 ^ 31

  -- An open descriptor: its file, and how often that is referred to beside it.
  pub record Open (s : State) (fd i : ℕ) : Type 0 where
    pub file : File
    pub at_i : get_elem? s.table.file i ≡ some file
    pub rest : ℕ
    pub refs : file.ref ≡ pos (suc rest)
    pub total : count i s.ofile + others i ≡ suc rest
    pub small : suc (suc (suc rest)) < 2 ^ 31

  pub open_fd :
      {s : State} (fd i : ℕ) → IsCounted s → get_elem? s.ofile fd ≡ some (some i) → Open s fd i
  open_fd {s} fd i v at_fd =
      let (f, at_i) =
        get_elem?_total s.table.file i (omega (arith, v.files, v.inside fd i at_fd)) in
      let total : count i s.ofile + others i ≡ suc (count i s.ofile + others i - 1) =
        omega (arith, count_pos i s.ofile fd at_fd) in
      record {
        file = f;
        at_i = at_i;
        rest = count i s.ofile + others i - 1;
        refs = rw (← total) (v.exact i f at_i);
        total = total;
        small = omega (arith, total, v.few i, count-le-length i s.ofile, v.fds);
      }

  -- A write to one descriptor, with the count of the file that it refers to moved along.
  pub write-IsCounted :
      {s : State} (fd i : ℕ) {old : Option ℕ} (new : Option ℕ) (f : File) (t : Ftable)
      → IsCounted s
      → get_elem? s.ofile fd ≡ some old
      → t.lock ≡ false
      → t.file ≡ set s.table.file i f
      → ((j : ℕ) → i ≢ j → refers j old ≡ refers j new)
      → f.ref ≡ pos (count i (set s.ofile fd new) + others i)
      → ((g : ℕ) → new ≡ some g → g < nfile)
      → IsCounted (record { table = t; ofile = set s.ofile fd new })
  write-IsCounted {s} fd i new f t v at_fd unlocked files same refs small = record {
    unlocked = unlocked;
    files = rw files (length-set s.table.file i f ∙ v.files);
    fds = length-set s.ofile fd new ∙ v.fds;
    inside = λ k g at_k. elim (get_elem?-set_cases s.ofile fd k new at_k) [
      | inl p ↦ small g p.1
      | inr p ↦ v.inside k g p.1
    ];
    exact = λ j g at_j. elim (get_elem?-set_cases s.table.file i j f (rw files at at_j)) [
      | inl p ↦
          subst (λ k. g.ref ≡ pos (count k (set s.ofile fd new) + others k)) p.0 (rw (← p.1) refs)
      | inr p ↦
          let moved : count j (set s.ofile fd new) ≡ count j s.ofile =
            omega (arith, count-set j s.ofile fd new at_fd, same j p.0) in
          rw moved (v.exact j g p.1)
    ];
    few = v.few;
  }

  -- One more descriptor, one more reference.
  pub grow :
      {s : State} (v : IsCounted s) (i new : ℕ) (f : File) (r : ℕ)
      → get_elem? s.ofile new ≡ some none
      → get_elem? s.table.file i ≡ some f
      → f.ref ≡ pos r
      → suc r ≡ count i (set s.ofile new (some i)) + others i
  grow {s} v i new f r free at_i refs =
      let exact : r ≡ count i s.ofile + others i = ground (arith, v.exact i f at_i) in
      omega (arith, count-set i s.ofile new (some i) free, refers_self i)

  module _ {s : State} (v : IsCounted s) (a : Option ℤ) (fd i : ℕ)
      (asked : argfd a s.ofile ≡ some (fd, i)) where
    pub at_fd : get_elem? s.ofile fd ≡ some (some i)
    at_fd = ((argfd_iff a s.ofile fd i).0 asked).2

    abbrev pub o : Open s fd i
    o = open_fd fd i v at_fd

    -- The state after a successful `dup` onto the descriptor `new`.
    abbrev pub duplicated : ℕ → State
    duplicated new = record {
      table = record s.table {
        file = set s.table.file i (record o.file { ref = pos (suc (suc o.rest)) });
      };
      ofile = set s.ofile new (some i);
    }

    pub dup_done :
        (new : ℕ)
        → fdalloc i s.ofile ≡ some (new, set s.ofile new (some i))
        → sys_dup a s ≡ done (pos new) (duplicated new)
    unfolding sys_dup
    dup_done new e = ground (
      arith,
      asked,
      e,
      filedup_lem i s.table o.rest o.at_i v.unlocked o.refs (omega (arith, o.small)),
    )

    pub dup_full : fdalloc i s.ofile ≡ none → sys_dup a s ≡ done (negsuc 0) s
    unfolding sys_dup
    dup_full e = ground (arith, asked, e)

    -- The state after `close`: the last reference frees the entry and closes the object.
    abbrev pub closed : State
    closed = record {
      table =
          (if ltb 0 o.rest
            then record s.table { file = set s.table.file i (record o.file { ref = pos o.rest }) }
            else record s.table {
              file = set s.table.file i (record o.file { ref = pos 0; kind = fd_none });
              calls = s.table.calls ++ closing o.file;
            });
      ofile = set s.ofile fd none;
    }

    pub close_done : sys_close a s ≡ done (pos 0) closed
    unfolding sys_close
    close_done = ground (
      arith,
      asked,
      fileclose_lem i s.table o.rest o.at_i v.unlocked o.refs (omega (arith, o.small)),
    )

    pub closed-IsCounted : IsCounted closed
    closed-IsCounted = elim (Bool-cases (ltb 0 o.rest)) [
      | inl more ↦ rw more (
          write-IsCounted fd i none _ _ v at_fd v.unlocked refl other (ap pos left)
            (λ g e. absurd (ground arith)))
      | inr last ↦ rw last (
          write-IsCounted fd i none _ _ v at_fd v.unlocked refl other
            (ap pos (let z : o.rest ≡ 0 = ground arith in omega (arith, left, z)))
            (λ g e. absurd (ground arith)))
    ]
      where
        left : o.rest ≡ count i (set s.ofile fd none) + others i
        left = omega (arith, count-set i s.ofile fd none at_fd, refers_self i, o.total)

        other : (j : ℕ) → i ≢ j → refers j (some i) ≡ refers j none
        other j ne = ground arith
