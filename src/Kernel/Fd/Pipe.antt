-- ===== src/Kernel/Fd/Pipe.antt =====
-- Lab6/xv6-semaphores/sysfile.c: `sys_pipe`.
mod Tests
use system_device_programmin.Base.{
  ℕ, ◌+◌, ◌≡◌, ◌≢◌, ◌<◌, ◌^◌, ◌⊎◌, inl, inr, ◌∙◌, refl, ap, sym, List, [], ◌∷◌, ◌++◌, Option, none,
  some, false, get_elem?, set, get_elem?-set_ne, get_elem?-set_self, subst, ℕ_discrete, set-set,
  set_same, length, length-set, ℤ, pos, negsuc, arith,
}
use system_device_programmin.Kernel.Outcome.{
  Outcome, done, sleeping, spinning, fault, panicked, ◌>>◌, ret,
}
use system_device_programmin.Kernel.Args.{Proc, argptr}
use system_device_programmin.Kernel.File.{File, Ftable, fd_none, fileclose}
use system_device_programmin.Kernel.File.Steps.{closing, fileclose_lem}
use system_device_programmin.Kernel.Fd.{nofile, Ofile, State, fdalloc}
use system_device_programmin.Kernel.Fd.Alloc.{Allocated, InUse, taken, full, fdalloc-Allocated}

-- The result, and the words that are stored in the memory of the process.
abbrev pub Result : Type 0
Result = ℤ × List (ℕ × ℕ)

-- The end of `sys_pipe` where a descriptor is missing.
give_up : ℕ → ℕ → State → Outcome State Result
give_up rf wf s = elim ((fileclose rf >> fileclose wf) s.table) [
  | done _ t ↦ done (negsuc 0, []) (record s { table = t })
  | sleeping at t ↦ sleeping at (record s { table = t })
  | spinning ↦ spinning
  | fault ↦ fault
  | panicked ↦ panicked
]

-- `pipealloc` is in pipe.c: the two files, if there is memory for them.
module _ (pipealloc : Ftable → Option (ℕ × ℕ) × Ftable) (p : Proc) where
  pub sys_pipe : State → Outcome State Result
  unfolding give_up
  sys_pipe s = elim (argptr p 0 (pos 8)) [
    | none ↦ done (negsuc 0, []) s
    | some fd ↦ elim ((pipealloc s.table).0) [
      | none ↦ done (negsuc 0, []) (record s { table = (pipealloc s.table).1 })
      | some (rf, wf) ↦ elim (fdalloc rf s.ofile) [
        | none ↦ give_up rf wf (record s { table = (pipealloc s.table).1 })
        | some (fd0, o) ↦ elim (fdalloc wf o) [
          | none ↦ give_up rf wf (record { table = (pipealloc s.table).1; ofile = set o fd0 none })
          | some (fd1, o') ↦
              done (pos 0, (fd, fd0) ∷ (fd + 4, fd1) ∷ [])
                (record { table = (pipealloc s.table).1; ofile = o' })
        ]
      ]
    ]
  ]

-- What `pipealloc` returns: two files with one reference each.
pub record IsPipe (t : Ftable) (rf wf : ℕ) : Type 0 where
  pub unlocked : t.lock ≡ false
  pub apart : rf ≢ wf
  pub reader : File
  pub writer : File
  pub at_rf : get_elem? t.file rf ≡ some reader
  pub at_wf : get_elem? t.file wf ≡ some writer
  pub reader_ref : reader.ref ≡ pos 1
  pub writer_ref : writer.ref ≡ pos 1

abbrev freed : File → File
freed f = record f { ref = pos 0; kind = fd_none }

give_up_lem :
    (rf wf : ℕ) (s : State) (e : IsPipe s.table rf wf)
    → give_up rf wf s
      ≡ done
          (negsuc 0, [])
          (record s {
            table = record s.table {
              file = set (set s.table.file rf (freed e.reader)) wf (freed e.writer);
              calls = (s.table.calls ++ closing e.reader) ++ closing e.writer;
            };
          })
unfolding give_up
give_up_lem rf wf s e =
    let t1 : Ftable = record s.table {
      file = set s.table.file rf (freed e.reader);
      calls = s.table.calls ++ closing e.reader;
    } in
    let first = fileclose_lem rf s.table 0 e.at_rf e.unlocked e.reader_ref (omega arith) in
    let second =
      fileclose_lem wf t1 0 (get_elem?-set_ne s.table.file (freed e.reader) e.apart ∙ e.at_wf)
        e.unlocked e.writer_ref (omega arith) in
    ground (arith, first, second)

-- There are no two free descriptors.
abbrev pub AtMostOne : Ofile → Type 0
AtMostOne o =
    (j k : ℕ)
    → j < nofile
    → k < nofile
    → get_elem? o j ≡ some none
    → get_elem? o k ≡ some none
    → j ≡ k

-- What `sys_pipe` does with the files `rf` and `wf`, the table `t` and the address `a`.
pub data Piped (a rf wf : ℕ) (t : Ftable) (e : IsPipe t rf wf) (o : Ofile)
    : Outcome State Result → Type 0 where
  made :
      (fd0 fd1 : ℕ)
      → fd0 ≢ fd1
      → fd0 < nofile
      → fd1 < nofile
      → get_elem? o fd0 ≡ some none
      → get_elem? o fd1 ≡ some none
      → Piped a rf wf t e o (
          done
            (pos 0, (a, fd0) ∷ (a + 4, fd1) ∷ [])
            (record { table = t; ofile = set (set o fd0 (some rf)) fd1 (some wf) }))
  failed :
      AtMostOne o
      → Piped a rf wf t e o (
          done
            (negsuc 0, [])
            (record {
              table = record t {
                file = set (set t.file rf (freed e.reader)) wf (freed e.writer);
                calls = (t.calls ++ closing e.reader) ++ closing e.writer;
              };
              ofile = o;
            }))

free_before :
    (o : Ofile) (fd0 rf j : ℕ)
    → get_elem? (set o fd0 (some rf)) j ≡ some none
    → fd0 < length o
    → (fd0 ≢ j) × (get_elem? o j ≡ some none)
free_before o fd0 rf j h lt = elim (ℕ_discrete fd0 j) [
  | yes e ↦ absurd (ground (arith, get_elem?-set_self o fd0 (some rf) lt))
  | no ne ↦ (ne, sym (get_elem?-set_ne o (some rf) ne) ∙ h)
]

only_one : (o : Ofile) (fd0 rf : ℕ) → InUse (set o fd0 (some rf)) nofile → AtMostOne o
only_one o fd0 rf used j k lt lt' free free' = is j lt free ∙ sym (is k lt' free')
  where
    is : (i : ℕ) → i < nofile → get_elem? o i ≡ some none → i ≡ fd0
    is i lt free = elim (ℕ_discrete fd0 i) [
      | yes e ↦ sym e
      | no ne ↦ absurd (used i lt (get_elem?-set_ne o (some rf) ne ∙ free))
    ]

-- `sys_pipe`, where `pipealloc` yields two files with one reference each: it makes two different
-- descriptors that were free refer to them, and stores these at the address given; or no two are
-- free, it returns -1, both files are closed, and the descriptors are as they were.
pub sys_pipe-Piped :
    (pipealloc : Ftable → Option (ℕ × ℕ) × Ftable) (p : Proc) (s : State) (a rf wf : ℕ)
    → length s.ofile ≡ nofile
    → argptr p 0 (pos 8) ≡ some a
    → (pipealloc s.table).0 ≡ some (rf, wf)
    → (e : IsPipe (pipealloc s.table).1 rf wf)
    → Piped a rf wf (pipealloc s.table).1 e s.ofile (sys_pipe pipealloc p s)
unfolding sys_pipe
sys_pipe-Piped pipealloc p s a rf wf size arg files e = elim (fdalloc-Allocated rf s.ofile size) [
  | full used r ↦
      subst (Piped a rf wf (pipealloc s.table).1 e s.ofile)
        (ground (arith, give_up_lem rf wf (record s { table = (pipealloc s.table).1 }) e))
        (failed (λ j k lt lt' free free'. absurd (used j lt free)))
  | taken fd0 lt free used r ↦
      let o = set s.ofile fd0 (some rf) in
      elim (fdalloc-Allocated wf o (length-set s.ofile fd0 (some rf) ∙ size)) [
        | full used' r' ↦
            let back : set o fd0 none ≡ s.ofile =
              set-set s.ofile fd0 (some rf) none ∙ set_same s.ofile fd0 free in
            subst (Piped a rf wf (pipealloc s.table).1 e s.ofile)
              (ground (
                arith,
                back,
                give_up_lem rf wf (record { table = (pipealloc s.table).1; ofile = s.ofile }) e,
              ))
              (failed (only_one s.ofile fd0 rf used'))
        | taken fd1 lt' free' used' r' ↦
            let (ne, free1) = free_before s.ofile fd0 rf fd1 free' (omega (arith, size)) in
            subst (Piped a rf wf (pipealloc s.table).1 e s.ofile) (ground arith)
              (made fd0 fd1 ne lt lt' free free1)
      ]
]
