-- ===== src/Kernel/Fd/Tests.antt =====
-- The descriptors of Lab6/xv6-semaphores/sysfile.c of a small process, and the theorems there.
use system_device_programmin.Base.{
  ℕ, ◌≡◌, refl, List, [], ◌∷◌, true, false, none, some, get_elem?-set_cases,
  get_elem?-replicate_inv, inl, inr, replicate, set, pos, arith, int,
}
use system_device_programmin.Kernel.Outcome.{done, Ends}
use system_device_programmin.Kernel.File.{nfile, File, fd_none, fd_inode, filedup}
use system_device_programmin.Kernel.Fd.{nofile, State, argfd, fdalloc, sys_dup, sys_close}
use system_device_programmin.Kernel.Fd.Count.{count}
use system_device_programmin.Kernel.Fd.Counted.{IsCounted}
use system_device_programmin.Kernel.Fd.Calls.{sys_close-sys_dup}
use system_device_programmin.Kernel.Fd.Runs.{Call, dup, close, call_all, call_all-IsCounted}

abbrev unused : File
unused = record { kind = fd_none; ref = pos 0; readable = false; writable = false; off = 0 }

abbrev opened : File
opened = record { kind = fd_inode 9; ref = pos 1; readable = true; writable = false; off = 0 }

abbrev nobody : ℕ → ℕ
nobody i = 0

-- One file is open, at descriptor 0.
abbrev one_open : State
one_open = record {
  table = record { lock = false; file = set (replicate nfile unused) 0 opened; calls = [] };
  ofile = set (replicate nofile none) 0 (some 0);
}

dup_runs :
    sys_dup (some (pos 0)) one_open
    ≡ done (pos 1) (record {
      table = record one_open.table {
        file = set (replicate nfile unused) 0 (record opened { ref = pos 2 });
      };
      ofile = set (set (replicate nofile none) 0 (some 0)) 1 (some 0);
    })
unfolding sys_dup argfd fdalloc filedup int
dup_runs = refl

one_open-IsCounted : IsCounted nobody one_open
unfolding count
one_open-IsCounted = record {
  unlocked = refl;
  files = refl;
  fds = refl;
  inside = λ fd f e. elim (get_elem?-set_cases (replicate nofile none) 0 fd (some 0) e) [
    | inl p ↦ ground (arith, p.1)
    | inr p ↦ absurd (ground (arith, get_elem?-replicate_inv nofile fd none p.1))
  ];
  exact = λ i f e. elim (get_elem?-set_cases (replicate nfile unused) 0 i opened e) [
    | inl p ↦ ground (arith, p.0, p.1)
    | inr p ↦ ground (arith, p.0, get_elem?-replicate_inv nfile i unused p.1)
  ];
  few = λ i. omega arith;
}

-- After `dup`, descriptors 0 and 1 refer to the file.
abbrev two_open : State
two_open = record {
  table = record one_open.table {
    file = set (replicate nfile unused) 0 (record opened { ref = pos 2 });
  };
  ofile = set (set (replicate nofile none) 0 (some 0)) 1 (some 0);
}

-- The second `close` of descriptor 0 is refused.
abbrev calls : List Call
calls =
    dup (some (pos 0))
    ∷ close (some (pos 0))
    ∷ close (some (pos 0))
    ∷ dup (some (pos 1))
    ∷ close none
    ∷ []

call_all-IsCounted_example : Ends (IsCounted nobody) (call_all calls one_open)
call_all-IsCounted_example = call_all-IsCounted nobody calls one_open-IsCounted

zero_is_open : argfd (some (pos 0)) one_open.ofile ≡ some (0, 0)
unfolding argfd
zero_is_open = refl

sys_close-sys_dup_example : sys_close (some (pos 1)) two_open ≡ done (pos 0) one_open
sys_close-sys_dup_example = sys_close-sys_dup nobody (some (pos 0)) 1 one_open-IsCounted dup_runs
