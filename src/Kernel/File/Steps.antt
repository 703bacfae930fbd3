-- ===== src/Kernel/File/Steps.antt =====
-- What `filedup` and `fileclose` of Lab6/xv6-semaphores/file.c do with the table, run to the end.
use system_device_programmin.Base.{
  ℕ, ◌^◌, ◌<◌, ◌≡◌, refl, List, [], ◌∷◌, ◌++◌, Bool, false, some, if◌then◌else◌, ltb, get_elem?,
  set, get_elem?-set_self, set-set, get_elem?-lt, pos, suc, int_of_IsInt, arith,
}
use mathlib.Core.List.{append_assoc, append-nil}
use system_device_programmin.Kernel.Outcome.{done}
use system_device_programmin.Kernel.File.{
  Kind, fd_none, fd_pipe, fd_inode, File, Extern, pipeclose, begin_trans, iput, commit_trans,
  Ftable, close_object, filedup, fileclose,
}

-- The calls that close the object of a file.
abbrev closing_kind : Kind → Bool → List Extern
closing_kind fd_none w = []
closing_kind (fd_pipe p) w = pipeclose p w ∷ []
closing_kind (fd_inode ip) w = begin_trans ∷ iput ip ∷ commit_trans ∷ []

abbrev pub closing : File → List Extern
closing f = closing_kind f.kind f.writable

close_object_lem :
    (k : Kind) (w : Bool) (t : Ftable)
    → close_object k w t ≡ done tt (record t { calls = t.calls ++ closing_kind k w })
unfolding close_object
close_object_lem fd_none w t = rw append-nil
close_object_lem (fd_pipe p) w t = refl
close_object_lem (fd_inode ip) w t = simp append_assoc

module _ (i : ℕ) (t : Ftable) {f : File} (k : ℕ) (at_i : get_elem? t.file i ≡ some f)
    (open_lock : t.lock ≡ false) (refs : f.ref ≡ pos (suc k)) (small : suc (suc k) < 2 ^ 31) where
  read_back : (v : File) → get_elem? (set t.file i v) i ≡ some v
  read_back v = get_elem?-set_self t.file i v (get_elem?-lt t.file i at_i)

  pub filedup_lem :
      filedup i t ≡ done i (record t { file = set t.file i (record f { ref = pos (suc (suc k)) }) })
  unfolding filedup
  filedup_lem = ground (arith, int_of_IsInt (pos (suc (suc k))) (omega arith))

  less : File
  less = record f { ref = pos k }

  -- With other references left only the count goes down; the last one frees the entry and closes
  -- the object.
  pub fileclose_lem :
      fileclose i t
      ≡ done tt (
          if ltb 0 k
          then record t { file = set t.file i (record f { ref = pos k }) }
          else record t {
            file = set t.file i (record f { ref = pos 0; kind = fd_none });
            calls = t.calls ++ closing f;
          })
  unfolding fileclose
  fileclose_lem = ground (
    arith,
    int_of_IsInt (pos k) (omega arith),
    read_back (record f { ref = pos k }),
    set-set t.file i (record f { ref = pos k }) (record f { ref = pos 0; kind = fd_none }),
    close_object_lem f.kind f.writable
        (record t { file = set t.file i (record f { ref = pos 0; kind = fd_none }) }),
  )
