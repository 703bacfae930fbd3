-- ===== src/Kernel/Fs/Open/Slot.antt =====
-- The part of `sys_open` in Lab6/xv6-semaphores/sysfile.c that takes a file and a descriptor, and the
-- fields that it sets.
use system_device_programmin.Base.{
  ℕ, ◌<◌, ◌≡◌, ◌≢◌, ◌∙◌, refl, ap, subst, List, [], ◌++◌, not, ◌||◌, Option, none, some, inl, inr,
  get_elem?, get_elem?-set_cases, get_elem?-set_self, get_elem?-lt, set, set-set, set_same, ℤ, pos,
  arith,
}
use mathlib.Core.List.{append-nil}
use system_device_programmin.Kernel.Outcome.{done}
use system_device_programmin.Kernel.File.{nfile, File, Ftable, fd_none, fd_inode, fileclose}
use system_device_programmin.Kernel.File.Steps.{fileclose_lem}
use system_device_programmin.Kernel.File.Alloc as Files
use system_device_programmin.Kernel.File.Alloc.{filealloc-Allocated}
use system_device_programmin.Kernel.Fd.{nofile, State}
use system_device_programmin.Kernel.Fd.Alloc as Fds
use system_device_programmin.Kernel.Fd.Alloc.{InUse, fdalloc-Allocated}
use system_device_programmin.Kernel.Fd.Counted.{IsCounted, write-IsCounted, grow}
use system_device_programmin.Kernel.Fs.Clean.{Clean}
use system_device_programmin.Kernel.Fs.Open.{Flags, slot, fill}

-- A free entry of the table has no object.
abbrev pub Idle : List File → Type 0
Idle l = (i : ℕ) (f : File) → get_elem? l i ≡ some f → f.ref ≡ pos 0 → f.kind ≡ fd_none

Idle-set : (l : List File) (i : ℕ) (f : File) → Idle l → f.ref ≢ pos 0 → Idle (set l i f)
Idle-set l i f idle busy j g at_j free = elim (get_elem?-set_cases l i j f at_j) [
  | inl p ↦ absurd (busy (ap (λ (u : File). u.ref) p.1 ∙ free))
  | inr p ↦ idle j g p.1 free
]

-- `others i` references to the file `i` are held by the rest of the system.
module _ (others : ℕ → ℕ) where
  -- The file `k` with one reference, and the lowest descriptor that was free; or nothing changed.
  pub data Slotted (s : State) : Option (ℕ × ℕ) → State → Type 0 where
    nothing : Slotted s none s
    got :
        (k fd : ℕ) (f : File) (t : State)
        → fd < nofile
        → get_elem? s.ofile fd ≡ some none
        → InUse s.ofile fd
        → t.ofile ≡ set s.ofile fd (some k)
        → get_elem? t.table.file k ≡ some f
        → f.ref ≡ pos 1
        → IsCounted others t
        → Idle t.table.file
        → t.table.calls ≡ s.table.calls
        → Slotted s (some (k, fd)) t

  module _ {s : State} (v : IsCounted others s) (idle : Idle s.table.file) where
    -- Closing the file that was just taken leaves the table as it was.
    taken_back :
        (k : ℕ) (f : File)
        → get_elem? s.table.file k ≡ some f
        → f.ref ≡ pos 0
        → fileclose k (record s.table { file = set s.table.file k (record f { ref = pos 1 }) })
          ≡ done tt s.table
    taken_back k f at_k free =
        let one : File = record f { ref = pos 1 } in
        let t : Ftable = record s.table { file = set s.table.file k one } in
        let at_t : get_elem? t.file k ≡ some one =
          get_elem?-set_self s.table.file k one (get_elem?-lt s.table.file k at_k) in
        let none_called : s.table.calls ++ [] ≡ s.table.calls = append-nil s.table.calls in
        ground (
          arith,
          fileclose_lem k t 0 at_t v.unlocked refl (omega arith),
          idle k f at_k free,
          set-set s.table.file k one (record f { ref = pos 0; kind = fd_none }),
          set_same s.table.file k at_k,
          none_called,
        )

    -- The state with the file `k` taken, and a descriptor for it.
    abbrev took : ℕ → ℕ → File → State
    took k fd f = record {
      table = record s.table { file = set s.table.file k (record f { ref = pos 1 }) };
      ofile = set s.ofile fd (some k);
    }

    got-Slotted :
        (k fd : ℕ) (f : File)
        → get_elem? s.table.file k ≡ some f
        → f.ref ≡ pos 0
        → fd < nofile
        → get_elem? s.ofile fd ≡ some none
        → InUse s.ofile fd
        → Slotted s (some (k, fd)) (took k fd f)
    got-Slotted k fd f at_k free lt at_fd used =
        let one : File = record f { ref = pos 1 } in
        let inside : k < nfile = subst (λ n. k < n) v.files (get_elem?-lt s.table.file k at_k) in
        got k fd one _ lt at_fd used refl
          (get_elem?-set_self s.table.file k one (get_elem?-lt s.table.file k at_k)) refl
          (write-IsCounted others fd k (some k) one _ v at_fd v.unlocked refl (λ j ne. ground arith)
            (ap pos (grow others v k fd f 0 at_fd at_k free))
            (λ g e. subst (λ n. n < nfile) (ground arith) inside))
          (Idle-set s.table.file k one idle (λ e. ground arith)) refl

    pub slot-Slotted : Clean (Slotted s) (slot s)
    unfolding slot
    slot-Slotted = elim (filealloc-Allocated s.table v.files v.unlocked) [
      | Files.full used r ↦ subst (Clean (Slotted s)) {x = done none s} (ground arith) nothing
      | Files.taken k f at_k free used r ↦ elim (fdalloc-Allocated k s.ofile v.fds) [
        | Fds.full used' r' ↦
            subst (Clean (Slotted s)) {x = done none s} (ground (arith, taken_back k f at_k free))
              nothing
        | Fds.taken fd lt at_fd used' r' ↦
            subst (Clean (Slotted s)) {x = done (some (k, fd)) (took k fd f)} (ground arith)
              (got-Slotted k fd f at_k free lt at_fd used')
      ]
    ]

module _ (others : ℕ → ℕ) (flags : Flags) (k ip : ℕ) (omode : ℤ) where
  -- What the lowest free descriptor then refers to.
  pub record Filled (s : State) (fd : ℕ) (u : State) : Type 0 where
    pub lt : fd < nofile
    pub free : get_elem? s.ofile fd ≡ some none
    pub lowest : InUse s.ofile fd
    pub ofile : u.ofile ≡ set s.ofile fd (some k)
    pub file : File
    pub at_k : get_elem? u.table.file k ≡ some file
    pub kind : file.kind ≡ fd_inode ip
    pub ref : file.ref ≡ pos 1
    pub off : file.off ≡ 0
    pub readable : file.readable ≡ not (flags.write_only omode)
    pub writable : file.writable ≡ (flags.write_only omode || flags.read_write omode)
    pub counted : IsCounted others u
    pub idle : Idle u.table.file
    pub calls : u.table.calls ≡ s.table.calls

  abbrev filled : File → File
  filled f = record f {
    kind = fd_inode ip;
    off = 0;
    readable = not (flags.write_only omode);
    writable = flags.write_only omode || flags.read_write omode;
  }

  -- The fields change no count.
  filled-IsCounted :
      (fd : ℕ) (f : File) (t : State)
      → get_elem? t.ofile fd ≡ some (some k)
      → get_elem? t.table.file k ≡ some f
      → IsCounted others t
      → IsCounted others
          (record t { table = record t.table { file = set t.table.file k (filled f) } })
  filled-IsCounted fd f t at_fd at_k v =
      let same : set t.ofile fd (some k) ≡ t.ofile = set_same t.ofile fd at_fd in
      let e =
        write-IsCounted others fd k (some k) (filled f)
          (record t.table { file = set t.table.file k (filled f) }) v at_fd v.unlocked refl
          (λ j ne. refl) (rw same (v.exact k f at_k)) (λ g e. v.inside fd g (at_fd ∙ ap some e)) in
      subst
        (λ o.
          IsCounted others
            (record { table = record t.table { file = set t.table.file k (filled f) }; ofile = o }))
        same e

  pub fill-Filled :
      (s : State) (fd : ℕ) (t : State)
      → Slotted others s (some (k, fd)) t
      → Clean (λ _ u. Filled s fd u) (fill flags k ip omode t)
  unfolding fill
  fill-Filled s fd t (got _ _ f _ lt free lowest o at_k ref v idle calls) =
      let at_fd : get_elem? t.ofile fd ≡ some (some k) =
        rw o (get_elem?-set_self s.ofile fd (some k) (get_elem?-lt s.ofile fd free)) in
      rw (at_k, fill)
        record {
          lt = lt;
          free = free;
          lowest = lowest;
          ofile = o;
          file = filled f;
          at_k = get_elem?-set_self t.table.file k (filled f) (get_elem?-lt t.table.file k at_k);
          kind = refl;
          ref = ref;
          off = refl;
          readable = refl;
          writable = refl;
          counted = filled-IsCounted fd f t at_fd at_k v;
          idle = Idle-set t.table.file k (filled f) idle (λ e. ground arith);
          calls = calls;
        }
