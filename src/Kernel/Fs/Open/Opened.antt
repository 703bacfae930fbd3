-- ===== src/Kernel/Fs/Open/Opened.antt =====
-- What `sys_open` of Lab6/xv6-semaphores/sysfile.c leaves, on each of its paths.
use system_device_programmin.Base.{ℕ, ◌≡◌, List, [], ◌∷◌, false, Option, none, some, ℤ, pos, negsuc}
use system_device_programmin.Kernel.Outcome
use system_device_programmin.Kernel.Outcome.{Outcome}
use system_device_programmin.Kernel.Fd.{State}
use system_device_programmin.Kernel.Fs.{World}
use system_device_programmin.Kernel.Fs.Clean.{Clean, At}
use system_device_programmin.Kernel.Fs.Open.{Sys, Flags}
use system_device_programmin.Kernel.Fs.Open.Slot.{Filled}

-- `others i` references to the file `i` are held by the rest of the system.
module _ (w : World) (flags : Flags) (others : ℕ → ℕ) (r : List ℕ) (omode : ℤ) where
  -- Nothing is open that was not, no inode is locked, and no reference is left; or the lowest free
  -- descriptor refers to a new file for the inode, to which the file keeps the reference.
  pub data Opened (s : State) : ℤ → Sys → Type 0 where
    failed : (t : Sys) → At false [] r t.fs → t.fds ≡ s → Opened s (negsuc 0) t
    opened :
        (k ip fd : ℕ) (t : Sys)
        → At false [] (ip ∷ r) t.fs
        → Filled others flags k ip omode s fd t.fds
        → Opened s (pos fd) t

module _ (w : World) (flags : Flags) (others : ℕ → ℕ) (r : List ℕ) (s : Sys) where
  abbrev pub Left : Option ℤ → ℤ → Sys → Type 0
  Left none c t = (c ≡ negsuc 0) × (t ≡ s)
  Left (some omode) c t = Opened w flags others r omode s.fds c t
