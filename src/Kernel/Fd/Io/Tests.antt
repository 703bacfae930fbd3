-- ===== src/Kernel/Fd/Io/Tests.antt =====
-- `sys_write` of Lab6/xv6-semaphores/sysfile.c on a small process.
use system_device_programmin.Base.{
  ℕ, ◌≡◌, refl, inl, List, [], ◌∷◌, true, false, none, some, ◌==◌, if◌then◌else◌, replicate, set, ℤ,
  pos, arith,
}
use system_device_programmin.Kernel.Outcome.{done}
use system_device_programmin.Kernel.Args.{Proc, argint, argptr}
use system_device_programmin.Kernel.File.{
  fd_inode, File, Extern, begin_trans, commit_trans, ilock, iunlock, readi, writei, Ftable,
}
use system_device_programmin.Kernel.File.Io.{filewrite, fileread}
use system_device_programmin.Kernel.File.Io.Write.{Writes, AllOrNothing}
use system_device_programmin.Kernel.Fd.{nofile, State, argfd}
use system_device_programmin.Kernel.Fd.Io.{sys_write, sys_read}
use system_device_programmin.Kernel.Fd.Io.Within.{AllWithin, sys_write-Writes}

-- A disk on which every call succeeds in full.
abbrev reply : Extern → ℤ
reply (writei ip a off n) = n
reply _ = pos 0

abbrev willing : List Extern → ℤ
willing [] = pos 0
willing (e ∷ []) = reply e
willing (e ∷ e' ∷ es) = willing (e' ∷ es)

willing-AllOrNothing : AllOrNothing willing
willing-AllOrNothing [] ip a off m = inl refl
willing-AllOrNothing (e ∷ []) ip a off m = inl refl
willing-AllOrNothing (e ∷ e' ∷ es) ip a off m = willing-AllOrNothing (e' ∷ es) ip a off m

-- The stack of a program that calls `write(0, 100, 2000)`.
abbrev writer : Proc
writer = record {
  sz = 4096;
  esp = 4000;
  mem = λ a. if a == 4008 then 100 else if a == 4012 then 0xd0 else if a == 4013 then 0x07 else 0;
}

abbrev out : File
out = record { kind = fd_inode 5; ref = pos 1; readable = false; writable = true; off = 7 }

abbrev writing : State
writing = record {
  table = record { lock = false; file = out ∷ []; calls = [] };
  ofile = set (replicate nofile none) 0 (some 0);
}

abbrev two_blocks : List Extern
two_blocks =
    begin_trans
    ∷ ilock 5
    ∷ writei 5 100 7 (pos 1536)
    ∷ iunlock 5
    ∷ commit_trans
    ∷ begin_trans
    ∷ ilock 5
    ∷ writei 5 1636 1543 (pos 464)
    ∷ iunlock 5
    ∷ commit_trans
    ∷ []

write_runs :
    sys_write willing writer writing
    ≡ done (pos 2000) (record writing {
      table = record { lock = false; file = record out { off = 2007 } ∷ []; calls = two_blocks };
    })
unfolding sys_write argfd argint argptr filewrite
write_runs = refl

descriptor : argfd (argint writer 0) writing.ofile ≡ some (0, 0)
unfolding argfd argint
descriptor = refl

size : argint writer 2 ≡ some (pos 2000)
unfolding argint
size = refl

buffer : argptr writer 1 (pos 2000) ≡ some 100
unfolding argptr argint
buffer = refl

sys_write-Writes_example :
    (es : List Extern) × (off : ℕ) × (r : ℤ) × Writes 5 100 2000 0 7 es off r
    × AllWithin 4096 es
    × (sys_write willing writer writing
        ≡ done r (record writing {
          table = record { lock = false; file = record out { off = off } ∷ []; calls = es };
        }))
sys_write-Writes_example =
    sys_write-Writes willing willing-AllOrNothing writer (omega arith) writing 0 0 2000 100 5 out
      descriptor size (omega arith) buffer refl refl refl

-- The same file, open for reading.
abbrev input : File
input = record out { readable = true }

abbrev reading : State
reading = record writing { table = record writing.table { file = input ∷ [] } }

read_runs :
    sys_read willing writer reading
    ≡ done (pos 0) (record reading {
      table = record reading.table { calls = ilock 5 ∷ readi 5 100 7 (pos 2000) ∷ iunlock 5 ∷ [] };
    })
unfolding sys_read argfd argint argptr fileread
read_runs = refl

abbrev unused : File
unused = record out { ref = pos 0 }

abbrev idle : Ftable
idle = record { lock = false; file = out ∷ replicate 99 unused; calls = [] }
