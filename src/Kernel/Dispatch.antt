-- ===== src/Kernel/Dispatch.antt =====
-- Lab6/xv6-semaphores/syscall.c and syscall.h: the table of the system calls and the dispatcher.
pub mod Table
mod Tests
use system_device_programmin.Base.{
  ℕ, List, [], ◌∷◌, Bool, true, false, Option, none, some, ◌&&◌, ltb, leb, if◌then◌else◌, get_elem?,
  set, replicate, ℤ, pos, negsuc,
}

-- The functions that the table names.
pub data Handler : Type 0 where
  sys_fork sys_exit sys_wait sys_pipe sys_sem_alloc sys_read sys_kill sys_exec : Handler
  sys_fstat sys_chdir sys_dup sys_getpid sys_sbrk sys_sleep sys_uptime : Handler
  sys_sem_init sys_sem_destroy sys_sem_wait sys_sem_post : Handler
  sys_open sys_write sys_mknod sys_unlink sys_link sys_mkdir sys_close : Handler
  sys_cond_alloc sys_cond_set sys_cond_get sys_cond_destroy sys_cond_wait : Handler
  sys_cond_signal sys_cond_broadcast sys_cond_lock sys_cond_unlock : Handler

-- syscall.h: the number that a user program puts in `%eax` for each call.
pub number : Handler → ℕ
number sys_fork = 1
number sys_exit = 2
number sys_wait = 3
number sys_pipe = 4
number sys_sem_alloc = 5
number sys_read = 6
number sys_kill = 7
number sys_exec = 8
number sys_fstat = 9
number sys_chdir = 10
number sys_dup = 11
number sys_getpid = 12
number sys_sbrk = 13
number sys_sleep = 14
number sys_uptime = 15
number sys_sem_init = 16
number sys_sem_destroy = 17
number sys_sem_wait = 18
number sys_sem_post = 19
number sys_open = 20
number sys_write = 21
number sys_mknod = 22
number sys_unlink = 23
number sys_link = 24
number sys_mkdir = 25
number sys_close = 26
number sys_cond_alloc = 27
number sys_cond_set = 28
number sys_cond_get = 29
number sys_cond_destroy = 30
number sys_cond_wait = 31
number sys_cond_signal = 32
number sys_cond_broadcast = 33
number sys_cond_lock = 34
number sys_cond_unlock = 35

-- The designated initialisers of `syscalls`, in the order of the source.
initialisers : List Handler
initialisers =
    sys_fork ∷ sys_exit ∷ sys_wait ∷ sys_pipe ∷ sys_sem_alloc ∷ sys_read ∷ sys_kill ∷ sys_exec
    ∷ sys_fstat ∷ sys_chdir ∷ sys_dup ∷ sys_getpid ∷ sys_sbrk ∷ sys_sleep ∷ sys_uptime
    ∷ sys_sem_init ∷ sys_sem_destroy ∷ sys_sem_wait ∷ sys_sem_post ∷ sys_open ∷ sys_write
    ∷ sys_mknod ∷ sys_unlink ∷ sys_link ∷ sys_mkdir ∷ sys_close ∷ sys_cond_alloc ∷ sys_cond_set
    ∷ sys_cond_get ∷ sys_cond_destroy ∷ sys_cond_wait ∷ sys_cond_signal ∷ sys_cond_broadcast
    ∷ sys_cond_lock ∷ sys_cond_unlock ∷ []

-- An entry that no initialiser names is a null pointer.
initialise : List Handler → List (Option Handler) → List (Option Handler)
initialise [] l = l
initialise (h ∷ hs) l = initialise hs (set l (number h) (some h))

-- `NELEM(syscalls)`: one more than the largest number.
abbrev pub nelem : ℕ
nelem = 36

pub syscalls : List (Option Handler)
unfolding initialise initialisers number
syscalls = initialise initialisers (replicate nelem none)

-- `syscalls[num]`, with null outside the table.
entry : ℕ → Option Handler
unfolding syscalls
entry num = elim (get_elem? syscalls num) [ none ↦ none | some h ↦ h ]

abbrev is_there : Option Handler → Bool
is_there none = false
is_there (some h) = true

-- `SYS_open`
abbrev sys_open_number : ℕ
sys_open_number = 20

-- Which function `syscall` calls for `num`; `none` is the branch that prints "unknown sys call".
pub select : ℤ → Option Handler
unfolding entry
select (negsuc n) = none
select (pos num) =
    if ltb num sys_open_number && is_there (entry num)
    then entry num
    else if leb sys_open_number num && ltb num nelem && is_there (entry num)
    then entry num
    else none

-- What `syscall` leaves in `%eax`; the result of a function is that of the kernel, `result`.
pub syscall : (Handler → ℤ) → ℤ → ℤ
unfolding select
syscall result num = elim (select num) [ none ↦ negsuc 0 | some h ↦ result h ]
