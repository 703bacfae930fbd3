-- ===== src/Chardev.antt =====
-- Lab7/modules/chardev_SDP_lab/chardev_SDP_lab.c: a character device that keeps the last message
-- written to it.
pub mod Valid
pub mod Messages
pub mod Loading
mod Tests
use system_device_programmin.Base.{
  ℕ, zero, suc, ◌+◌, ◌-◌, ◌≤◌, ◌≡◌, List, [], ◌++◌, Bool, true, false, Option, none, some, ltb, leb,
  if◌then◌else◌, length, set, take, drop, replicate, ℤ, pos, negsuc,
}

-- `BUF_LEN`
abbrev pub buf_len : ℕ
buf_len = 128

-- The globals. `content_size` and `offset` are `int`; they stay between 0 and 256 (`Valid`).
-- `taken` is the semaphore `me`: whether it is down.
pub record Device : Type 0 where
  pub content_size : ℕ
  pub offset : ℕ
  pub buf : List ℕ
  pub taken : Bool

-- What the driver uses of <asm/uaccess.h>, for memory of the user that can be accessed: `n` bytes
-- of the user replace the first `n` of the kernel's buffer, and `n` bytes of the kernel's buffer
-- are delivered.
pub record Uaccess : Type 0 where
  pub copy_from_user : List ℕ → ℕ → List ℕ → List ℕ
  pub copy_to_user : List ℕ → ℕ → List ℕ
  pub from_user :
      (src : List ℕ) (n : ℕ) (dst : List ℕ)
      → n ≤ length src
      → copy_from_user src n dst ≡ take n src ++ drop n dst
  pub to_user : (src : List ℕ) (n : ℕ) → n ≤ length src → copy_to_user src n ≡ take n src

-- Before the first call: static storage is zero, and `init_module` sets `content_size`.
abbrev pub loaded : Device
loaded = record { content_size = 0; offset = 0; buf = replicate buf_len 0; taken = false }

-- `device_open`: `interrupted` is whether a signal ends `down_interruptible` while it waits; `none`
-- is a process that waits.
pub device_open : Bool → Device → Option (ℤ × Device)
device_open interrupted d =
    if d.taken
    then (if interrupted then some (negsuc 0, d) else none)
    else some (pos 0, record d { offset = 0; taken = true })

pub device_release : Device → ℤ × Device
device_release d = (pos 0, record d { taken = false })

module _ (u : Uaccess) where
  -- The result, what the user's buffer gets, and the device.
  pub device_read : ℕ → Device → ℕ × List ℕ × Device
  device_read count d =
      if leb d.content_size d.offset
      then (0, [], d)
      else let n = if ltb d.content_size count then d.content_size else count in
        (n, u.copy_to_user d.buf n, record d { offset = d.offset + n })

  -- The `for` of `device_write`: `n` bytes are left, from `i` on.
  pub clear : ℕ → ℕ → List ℕ → List ℕ
  clear zero i buf = buf
  clear (suc n) i buf = clear n (suc i) (set buf i 0)

  -- `buff` is the user's buffer.
  pub device_write : List ℕ → ℕ → Device → ℕ × Device
  unfolding clear
  device_write buff count d =
      let cleared = clear d.content_size 0 d.buf in
      let size = if ltb buf_len count then buf_len else count in
      (size, record d { content_size = size; buf = u.copy_from_user buff size cleared })
