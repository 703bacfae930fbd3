-- ===== src/Kernel/Fd/Pipe/Tests.antt =====
-- `sys_pipe` of Lab6/xv6-semaphores/sysfile.c in a small process.
use system_device_programmin.Base.{
  ℕ, ◌≡◌, refl, int, [], ◌∷◌, Option, none, some, true, false, ◌==◌, if◌then◌else◌, set, replicate,
  pos, negsuc, arith,
}
use system_device_programmin.Kernel.Outcome.{done}
use system_device_programmin.Kernel.Args.{Proc, argint, argptr}
use system_device_programmin.Kernel.File.{
  File, Ftable, fd_none, fd_pipe, pipeclose, fileclose, close_object,
}
use system_device_programmin.Kernel.Fd.{nofile, State, fdalloc}
use system_device_programmin.Kernel.Fd.Pipe.{sys_pipe, IsPipe, Piped, sys_pipe-Piped}

-- The stack holds the address 48, to which the two descriptors go.
abbrev caller : Proc
caller = record { sz = 64; esp = 40; mem = λ a. if a == 44 then 48 else 0 }

abbrev reader : File
reader = record { kind = fd_pipe 3; ref = pos 1; readable = true; writable = false; off = 0 }

abbrev writer : File
writer = record { kind = fd_pipe 3; ref = pos 1; readable = false; writable = true; off = 0 }

abbrev new_pipe : Ftable → Option (ℕ × ℕ) × Ftable
new_pipe t = (some (0, 1), record t { file = reader ∷ writer ∷ [] })

abbrev nothing_open : State
nothing_open = record {
  table = record { lock = false; file = []; calls = [] };
  ofile = replicate nofile none;
}

abbrev one_left : State
one_left = record nothing_open { ofile = set (replicate nofile (some 7)) 5 none }

pipe_runs :
    sys_pipe new_pipe caller nothing_open
    ≡ done
        (pos 0, (48, 0) ∷ (52, 1) ∷ [])
        (record {
          table = (new_pipe nothing_open.table).1;
          ofile = set (set (replicate nofile none) 0 (some 0)) 1 (some 1);
        })
unfolding sys_pipe argptr argint fdalloc
pipe_runs = refl

pipe_fails :
    sys_pipe new_pipe caller one_left
    ≡ done
        (negsuc 0, [])
        (record one_left {
          table = record {
            lock = false;
            file =
                record reader { ref = pos 0; kind = fd_none }
                ∷ record writer { ref = pos 0; kind = fd_none }
                ∷ [];
            calls = pipeclose 3 false ∷ pipeclose 3 true ∷ [];
          };
        })
unfolding sys_pipe argptr argint fdalloc fileclose close_object int
pipe_fails = refl

address : argptr caller 0 (pos 8) ≡ some 48
unfolding argptr argint
address = refl

new_pipe-IsPipe : IsPipe (new_pipe nothing_open.table).1 0 1
new_pipe-IsPipe = record {
  unlocked = refl;
  apart = omega arith;
  reader = reader;
  writer = writer;
  at_rf = refl;
  at_wf = refl;
  reader_ref = refl;
  writer_ref = refl;
}

sys_pipe-Piped_example :
    Piped 48 0 1
      (new_pipe one_left.table).1
      new_pipe-IsPipe
      one_left.ofile
      (sys_pipe new_pipe caller one_left)
sys_pipe-Piped_example =
    sys_pipe-Piped new_pipe caller one_left 48 0 1 refl address refl new_pipe-IsPipe
