-- ===== src/Kernel/Fs/Tests.antt =====
-- The system calls of Lab6/xv6-semaphores/sysfile.c in a small tree of directories.
use system_device_programmin.Base.{
  ℕ, ◌≡◌, ◌≢◌, refl, [], ◌∷◌, Bool, true, false, ◌&&◌, Option, none, some, ◌==◌, if◌then◌else◌, ℤ,
  pos, negsuc, arith, short, Bool-cases, inl, inr, length,
}
use system_device_programmin.Kernel.Outcome.{Outcome, done}
use system_device_programmin.Kernel.Args.{Proc, fetchint, fetchstr, argint, argstr}
use system_device_programmin.Kernel.Fs.{
  t_dir, t_file, Inode, InodeType, Name, Event, namei, nameiparent, namecmp, dirlookup, ialloc,
  readi, writei, Ctx, contains, World, begin, commit, lock, unlock, put, unlock_put, find,
  find_parent, lookup, ask, read_dirent, load, store, ret, branch, ◌>>=◌, ◌>>◌, dot,
}
use system_device_programmin.Kernel.Fs.Clean.{Clean, Leaves}
use system_device_programmin.Kernel.Fs.Link.{sys_link, sys_link-Clean}
use system_device_programmin.Kernel.Fs.Unlink.{sys_unlink, sys_unlink-Clean}
use system_device_programmin.Kernel.Fs.Create.{sys_mkdir, sys_mknod, sys_mknod-Clean}
use system_device_programmin.Kernel.Fs.Chdir.{sys_chdir, Moved, sys_chdir-Clean}
use system_device_programmin.Kernel.Fs.Exec.{sys_exec, Executed, sys_exec-Executed}

-- The first argument is a string at 48, the second one at 0, the third the number 0.
abbrev pub caller : Proc
caller = record { sz = 64; esp = 40; mem = λ a. if a == 44 then 48 else 0 }

abbrev pub name_eq : Name → Name → Bool
name_eq [] [] = true
name_eq [] (y ∷ m) = false
name_eq (x ∷ n) [] = false
name_eq (x ∷ n) (y ∷ m) = x == y && name_eq n m

name_eq_self : (n : Name) → name_eq n n ≡ true
name_eq_self [] = refl
name_eq_self (x ∷ n) = ground (arith, name_eq_self n)

name_eq_of_eq : (n m : Name) → n ≡ m → name_eq n m ≡ true
name_eq_of_eq n m e = rw (← e) (name_eq_self n)

-- The directory 1 has an entry "a" for the file 2; 9 is free.
abbrev pub small_pointer : Ctx → Event → Option ℕ
small_pointer s (namei path) = some 2
small_pointer s (nameiparent path) = some 1
small_pointer s (dirlookup dp n) = if dp == 1 && name_eq n (b'a' ∷ []) then some 2 else none
small_pointer s (ialloc dev type) = if contains 9 s.held then none else some 9
small_pointer s _ = none

abbrev pub small_int : Ctx → Event → ℤ
small_int s (namecmp n m) = if name_eq n m then pos 0 else pos 1
small_int s (readi dp off n) = pos n
small_int s (writei dp off n) = pos n
small_int s _ = pos 0

abbrev pub small_inode : ℕ → Inode
small_inode ip = record {
  type = (if ip == 2 then t_file else t_dir);
  dev = 1;
  inum = ip;
  nlink = pos 1;
  size = 64;
}

pub compares_lem : (s : Ctx) (n m : Name) → n ≡ m → small_int s (namecmp n m) ≡ pos 0
compares_lem s n m e = ground (arith, name_eq_of_eq n m e)

pub other_lem :
    (s : Ctx) (dp ip : ℕ) (n : Name) → small_pointer s (dirlookup dp n) ≡ some ip → ip ≢ dp
other_lem s dp ip n e = λ same. ground arith

pub fresh_lem :
    (s : Ctx) (dev ip : ℕ) (t : InodeType)
    → small_pointer s (ialloc dev t) ≡ some ip
    → contains ip s.held ≡ false
fresh_lem s dev ip t e = elim (Bool-cases (contains 9 s.held)) [
  | inl held ↦ absurd (ground arith)
  | inr out ↦ let nine : 9 ≡ ip = ground arith in rw (← nine) out
]

-- `nameiparent` yields the name `last`.
abbrev pub small_world : Name → World
small_world last = record {
  pointer = small_pointer;
  int = small_int;
  name = λ s e. last;
  word = λ s e. 0;
  inode = λ s ip. small_inode ip;
  compares = compares_lem;
  other = λ s dp ip n nd nd2 e. other_lem s dp ip n e;
  fresh = fresh_lem;
  max_size = λ s dp. omega arith;
}

abbrev pub start : Ctx
start = record { trans = false; held = []; refs = 7 ∷ []; calls = [] }

abbrev returned : {A : Type 0} → Outcome Ctx A → Option A
returned (done a s) = some a
returned _ = none

links : returned (sys_link (small_world (b'b' ∷ [])) caller start) ≡ some (pos 0)
unfolding sys_link begin commit lock unlock put unlock_put find find_parent ask load store ret
    branch ◌>>=◌ ◌>>◌ argstr argint fetchstr fetchint short
links = refl

unlinks : returned (sys_unlink (small_world (b'a' ∷ [])) caller start) ≡ some (pos 0)
unfolding sys_unlink begin commit lock unlock put unlock_put find find_parent lookup ask read_dirent
    load store ret branch ◌>>=◌ ◌>>◌ argstr argint fetchstr fetchint short
unlinks = refl

keeps_dot : returned (sys_unlink (small_world dot) caller start) ≡ some (negsuc 0)
unfolding sys_unlink begin commit lock unlock put unlock_put find find_parent lookup ask read_dirent
    load store ret branch ◌>>=◌ ◌>>◌ argstr argint fetchstr fetchint short
keeps_dot = refl

makes_dir : returned (sys_mkdir (small_world (b'b' ∷ [])) caller start) ≡ some (pos 0)
unfolding sys_mkdir begin commit lock unlock put unlock_put find find_parent lookup ask load store
    ret branch ◌>>=◌ ◌>>◌ argstr argint fetchstr fetchint short
makes_dir = refl

sys_link-Clean_example :
    Clean (Leaves false [] (7 ∷ [])) (sys_link (small_world (b'b' ∷ [])) caller start)
sys_link-Clean_example =
    sys_link-Clean (small_world (b'b' ∷ [])) caller (7 ∷ []) start (refl, refl, refl)

sys_unlink-Clean_example :
    Clean (Leaves false [] (7 ∷ [])) (sys_unlink (small_world (b'a' ∷ [])) caller start)
sys_unlink-Clean_example =
    sys_unlink-Clean (small_world (b'a' ∷ [])) caller (7 ∷ []) start (refl, refl, refl)

sys_mknod-Clean_example :
    Clean (Leaves false [] (7 ∷ [])) (sys_mknod (small_world (b'b' ∷ [])) caller start)
sys_mknod-Clean_example =
    sys_mknod-Clean (small_world (b'b' ∷ [])) caller (7 ∷ []) start (refl, refl, refl)

sys_chdir-Clean_example : Clean (Moved 7 []) (sys_chdir (small_world (b'b' ∷ [])) caller 7 start)
sys_chdir-Clean_example =
    sys_chdir-Clean (small_world (b'b' ∷ [])) caller 7 [] start (refl, refl, refl)

sys_exec-Executed_example :
    Executed
      (λ path args. pos (length args))
      caller
      (sys_exec (λ path args. pos (length args)) caller)
sys_exec-Executed_example = sys_exec-Executed (λ path args. pos (length args)) caller
