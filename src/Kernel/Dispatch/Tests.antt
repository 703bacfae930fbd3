-- ===== src/Kernel/Dispatch/Tests.antt =====
-- The dispatcher of Lab6/xv6-semaphores/syscall.c on a few numbers, and the theorems there.
use system_device_programmin.Base.{◌≡◌, refl, ℤ, pos, negsuc}
use system_device_programmin.Kernel.Dispatch.{Handler, number, syscall}

-- A kernel whose functions return their numbers.
abbrev numbers : Handler → ℤ
numbers h = pos (number h)

opens : syscall numbers (pos 20) ≡ pos 20
unfolding syscall number
opens = refl

unknown_number : syscall numbers (pos 36) ≡ negsuc 0
unfolding syscall
unknown_number = refl

zero_is_unknown : syscall numbers (pos 0) ≡ negsuc 0
unfolding syscall
zero_is_unknown = refl
