-- ===== src/Kernel/Args/Tests.antt =====
-- The functions of Lab6/xv6-semaphores/syscall.c on a small process, and the theorems there.
use system_device_programmin.Base.{◌≡◌, ◌↔◌, refl, none, some, ◌==◌, if◌then◌else◌, pos}
use system_device_programmin.Kernel.Args.{Proc, fetchint, fetchstr, argint, argptr, argstr}
use system_device_programmin.Kernel.Args.Bounds.{FirstNul, fetchstr_iff}

-- 64 bytes: "hi" at 16, and the stack at 40, whose first argument is 48.
abbrev small : Proc
small = record {
  sz = 64;
  esp = 40;
  mem = λ a. if a == 16 then b'h' else if a == 17 then b'i' else if a == 44 then 48 else 0;
}

reads_string : fetchstr small 16 ≡ some 2
unfolding fetchstr
reads_string = refl

reads_argument : argint small 0 ≡ some (pos 48)
unfolding argint
reads_argument = refl

-- The last word that fits, and the first that does not.
last_word : fetchint small 60 ≡ some (pos 0)
unfolding fetchint
last_word = refl

past_the_end : fetchint small 61 ≡ none
unfolding fetchint
past_the_end = refl

string_argument : argstr small 0 ≡ some (48, 0)
unfolding argstr argint fetchstr
string_argument = refl

block : argptr small 0 (pos 16) ≡ some 48
unfolding argptr argint
block = refl

fetchstr_iff_example : (fetchstr small 16 ≡ some 2) ↔ FirstNul small 16 2
fetchstr_iff_example = fetchstr_iff small 16 2
