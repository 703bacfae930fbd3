-- ===== src/Chardev/Tests.antt =====
-- The device of Lab7/modules/chardev_SDP_lab/chardev_SDP_lab.c on short messages, and the theorems
-- there.
use system_device_programmin.Base.{
  ℕ, ◌≡◌, refl, List, [], ◌∷◌, ◌++◌, true, false, some, replicate, take, drop, pos, min, arith,
  negsuc, false,
}
use system_device_programmin.Chardev.{
  buf_len, Device, Uaccess, loaded, device_open, device_release, device_read, device_write,
}
use system_device_programmin.Chardev.Valid.{IsValid, loaded-IsValid, device_read-IsValid}
use system_device_programmin.Chardev.Loading.{
  Registered, Loaded, init_module, occurs, init_module-cleanup_module,
}
use system_device_programmin.Chardev.Messages.{reopened, device_read-device_write}

abbrev copying : Uaccess
copying = record {
  copy_from_user = λ src n dst. take n src ++ drop n dst;
  copy_to_user = λ src n. take n src;
  from_user = λ src n dst h. refl;
  to_user = λ src n h. refl;
}

abbrev message : List ℕ
message = 7 ∷ 8 ∷ 9 ∷ []

-- The device with the message, open, nothing read yet.
abbrev holding : Device
holding = record { content_size = 3; offset = 0; buf = message ++ replicate 125 0; taken = true }

write_runs : device_write copying message 3 (record loaded { taken = true }) ≡ (3, holding)
unfolding device_write
write_runs = refl

-- A shorter message leaves nothing of the longer one.
overwrites : (device_write copying (5 ∷ []) 1 holding).1.buf ≡ (5 ∷ []) ++ replicate 127 0
unfolding device_write
overwrites = refl

loaded_open : device_open false loaded ≡ some (pos 0, record loaded { taken = true })
unfolding device_open
loaded_open = refl

holding-IsValid : IsValid holding
holding-IsValid = omega arith

device_read-IsValid_example : IsValid (device_read copying 2 holding).2
device_read-IsValid_example = device_read-IsValid copying 2 holding holding-IsValid

device_read-device_write_example :
    (device_open false (device_release (device_write copying message 3 loaded).1).1
      ≡ some (pos 0, reopened copying message 3 loaded))
    × ((device_read copying 10 (reopened copying message 3 loaded)).0 ≡ min 3 buf_len)
    × ((device_read copying 10 (reopened copying message 3 loaded)).1 ≡ message)
device_read-device_write_example =
    device_read-device_write copying message 3 10 loaded false loaded-IsValid (omega arith)
      (omega arith)

-- Another driver has a region and a device.
abbrev others : Registered
others = record { regions = 4 ∷ 4 ∷ []; devices = 4 ∷ []; dev = 0 }

-- The region is registered, but the device is not added.
half_loaded :
    init_module (pos 0) 250 (negsuc 4) loaded others
    ≡ (negsuc 4, loaded, record { regions = 250 ∷ 4 ∷ 4 ∷ []; devices = 4 ∷ []; dev = 250 })
unfolding init_module
half_loaded = refl

others_regions : occurs 250 others.regions ≡ false
unfolding occurs
others_regions = refl

others_devices : occurs 250 others.devices ≡ false
unfolding occurs
others_devices = refl

init_module-cleanup_module_example :
    let (ret, d', r') = init_module (pos 0) 250 (pos 0) holding others in
    Loaded (pos 0) 250 (pos 0) others holding ret d' r'
init_module-cleanup_module_example =
    init_module-cleanup_module (pos 0) 250 (pos 0) holding others others_regions others_devices
