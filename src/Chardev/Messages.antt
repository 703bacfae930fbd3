-- ===== src/Chardev/Messages.antt =====
-- What a program reads back from the device of
-- Lab7/modules/chardev_SDP_lab/chardev_SDP_lab.c.
use system_device_programmin.Base.{
  ℕ, ◌+◌, ◌≤◌, ◌<◌, ◌≡◌, ◌∙◌, refl, List, Bool, true, some, ltb, length, take, pos, min, arith,
  dec_lt, Bool-cases, inl, inr,
}
use system_device_programmin.Chardev.{
  buf_len, Device, Uaccess, device_open, device_release, device_read, device_write,
}
use system_device_programmin.Chardev.Valid.{
  IsValid, written, take-written, written-IsValid, device_write_lem,
}

module _ (u : Uaccess) where
  -- What `device_read` does before the end of the message: it delivers the first bytes of the
  -- buffer, whatever the offset is.
  read_start :
      (count : ℕ) (d : Device)
      → IsValid d
      → d.offset < d.content_size
      → device_read u count d ≡ (
        min count d.content_size,
        take (min count d.content_size) d.buf,
        record d { offset = d.offset + min count d.content_size },
      )
  unfolding device_read
  read_start count d v before = elim (Bool-cases (ltb d.content_size count)) [
    | inl over ↦
        let e : min count d.content_size ≡ d.content_size = ground arith in
        let all = u.to_user d.buf d.content_size (omega (arith, v.storage, v.fits)) in
        ground (arith, all)
    | inr within ↦
        let e : min count d.content_size ≡ count = ground arith in
        let some_bytes = u.to_user d.buf count (ground (arith, v.storage, v.fits)) in
        ground (arith, some_bytes)
  ]

  abbrev reopen : Device → Device
  reopen d = record d { offset = 0; taken = true }

  reopen-IsValid : {d : Device} → IsValid d → IsValid (reopen d)
  reopen-IsValid v = record {
    storage = v.storage;
    fits = v.fits;
    near = omega arith;
    erased = v.erased;
  }

  written-size :
      (buff : List ℕ) (size : ℕ) (d : Device) → (written u buff size d).content_size ≡ size
  unfolding written
  written-size buff size d = refl

  -- From the start, with room enough, the whole message is delivered.
  read_all :
      {size : ℕ} (room : ℕ) (d : Device)
      → IsValid d
      → d.offset ≡ 0
      → d.content_size ≡ size
      → size ≤ room
      → ((device_read u room d).0 ≡ size) × ((device_read u room d).1 ≡ take size d.buf)
  unfolding device_read
  read_all {size} room d v start e enough = elim (dec_lt 0 d.content_size) [
    | yes some_bytes ↦
        let all : min room d.content_size ≡ size = omega arith in
        ground (arith, read_start room d v (omega arith))
    | no nothing ↦ let z : size ≡ 0 = omega arith in ground arith
  ]

  -- The device after a message was written and the file closed and opened again.
  abbrev pub reopened : List ℕ → ℕ → Device → Device
  reopened buff count d = record (device_write u buff count d).1 { offset = 0; taken = true }

  -- A message that is written, and read with a buffer that is large enough after the device was
  -- closed and opened again, comes back as it was written, cut at `BUF_LEN` bytes.
  pub device_read-device_write :
      (buff : List ℕ) (count room : ℕ) (d : Device) (interrupted : Bool)
      → IsValid d
      → count ≤ length buff
      → min count buf_len ≤ room
      → (device_open interrupted (device_release (device_write u buff count d).1).1
          ≡ some (pos 0, reopened buff count d))
        × ((device_read u room (reopened buff count d)).0 ≡ min count buf_len)
        × ((device_read u room (reopened buff count d)).1 ≡ take (min count buf_len) buff)
  unfolding device_open device_release
  device_read-device_write buff count room d interrupted v le enough = (
    refl,
    rw device_write_lem (read.0),
    rw device_write_lem (read.1 ∙ take-written u buff (min count buf_len) d v (omega arith)),
  )
    where
      message : Device
      message = reopen (written u buff (min count buf_len) d)

      read :
          ((device_read u room message).0 ≡ min count buf_len)
          × ((device_read u room message).1
              ≡ take (min count buf_len) (written u buff (min count buf_len) d).buf)
      read =
          read_all room message
            (reopen-IsValid
              (written-IsValid u buff (min count buf_len) d v (omega arith) (omega arith)))
            refl (written-size buff (min count buf_len) d) enough

  -- Reading a message in parts does not work: as long as the offset is inside the message, two reads
  -- of the same size deliver the same bytes, those at the start of the message.
  pub device_read_repeats :
      (count : ℕ) (d : Device)
      → IsValid d
      → d.offset + count < d.content_size
      → let (n, bytes, d') = device_read u count d in
        let (n', bytes', _) = device_read u count d' in
        (n ≡ count) × (n' ≡ count) × (bytes ≡ take count d.buf) × (bytes' ≡ take count d.buf)
  device_read_repeats count d v before =
      let e : min count d.content_size ≡ count = omega arith in
      let first = read_start count d v (omega arith) in
      let second =
        read_start count (record d { offset = d.offset + count })
          (record {
            storage = v.storage;
            fits = v.fits;
            near = omega (arith, v.fits);
            erased = v.erased;
          })
          (omega arith) in
      ground (arith, first, second)
