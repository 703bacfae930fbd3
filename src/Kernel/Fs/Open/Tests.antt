-- ===== src/Kernel/Fs/Open/Tests.antt =====
-- `sys_open` of Lab6/xv6-semaphores/sysfile.c in a small tree of directories.
use system_device_programmin.Base.{
  ℕ, ◌≡◌, ◌/◌, ◌%◌, ◌==◌, refl, [], ◌∷◌, Bool, false, Option, none, some, ◌||◌, replicate, ℤ, pos,
  negsuc,
}
use system_device_programmin.Kernel.Outcome.{Outcome, done}
use system_device_programmin.Kernel.Args.{fetchint, fetchstr, argint, argstr}
use system_device_programmin.Kernel.File.{nfile, File, fd_none, filealloc}
use system_device_programmin.Kernel.Fd.{nofile, State, fdalloc}
use system_device_programmin.Kernel.Fs.{
  lock, unlock, unlock_put, find, load, ret, branch, ◌>>=◌, ◌>>◌,
}
use system_device_programmin.Kernel.Fs.Clean.{Clean}
use system_device_programmin.Kernel.Fs.Tests.{caller, small_world, start}
use system_device_programmin.Kernel.Fs.Open.{Sys, Flags, sys_open}

abbrev bit : ℕ → ℤ → Bool
bit b (pos n) = n / b % 2 == 1
bit b (negsuc n) = false

-- As in fcntl.h of xv6.
abbrev flags : Flags
flags = record {
  creates = bit 512;
  more_than_reads = λ omode. bit 1 omode || bit 2 omode || bit 512 omode;
  write_only = bit 1;
  read_write = bit 2;
}

abbrev unused : File
unused = record { kind = fd_none; ref = pos 0; readable = false; writable = false; off = 0 }

abbrev nothing_open : State
nothing_open = record {
  table = record { lock = false; file = replicate nfile unused; calls = [] };
  ofile = replicate nofile none;
}

abbrev process : Sys
process = record { fs = start; fds = nothing_open }

abbrev nobody : ℕ → ℕ
nobody i = 0

abbrev returned : {A : Type 0} → Outcome Sys A → Option A
returned (done a s) = some a
returned _ = none

opens : returned (sys_open (small_world (b'b' ∷ [])) flags caller process) ≡ some (pos 0)
unfolding sys_open lock unlock unlock_put find load ret branch ◌>>=◌ ◌>>◌ argstr argint fetchstr
    fetchint filealloc fdalloc
opens = refl
