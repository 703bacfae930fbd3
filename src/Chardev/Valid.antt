-- ===== src/Chardev/Valid.antt =====
-- The state that the driver Lab7/modules/chardev_SDP_lab/chardev_SDP_lab.c keeps.
use system_device_programmin.Base.{
  ℕ, zero, suc, ◌+◌, ◌≤◌, ◌≡◌, ◌∙◌, refl, ap, List, [], ◌∷◌, ◌++◌, ltb, leb, length, length-append,
  length-take, length-set, length-drop, drop-take-append, take-take-append, set, take, drop,
  replicate, min, arith, Bool-cases, inl, inr,
}
use system_device_programmin.Chardev.{
  buf_len, Device, Uaccess, loaded, clear, device_read, device_write,
}

-- Every byte of the list is zero.
abbrev pub AllZero : List ℕ → Type 0
AllZero [] = Unit
AllZero (x ∷ l) = (x ≡ 0) × AllZero l

-- The message lies in the buffer, and behind it no byte of an older message is left.
pub record IsValid (d : Device) : Type 0 where
  pub storage : length d.buf ≡ buf_len
  pub fits : d.content_size ≤ buf_len
  pub near : d.offset ≤ buf_len + buf_len
  pub erased : AllZero (drop d.content_size d.buf)

replicate-AllZero : (n : ℕ) → AllZero (replicate n 0)
replicate-AllZero zero = tt
replicate-AllZero (suc n) = (refl, replicate-AllZero n)

pub loaded-IsValid : IsValid loaded
loaded-IsValid = record {
  storage = refl;
  fits = omega arith;
  near = omega arith;
  erased = replicate-AllZero buf_len;
}

drop-AllZero : (n : ℕ) (l : List ℕ) → AllZero l → AllZero (drop n l)
drop-AllZero zero l h = h
drop-AllZero (suc n) [] h = tt
drop-AllZero (suc n) (x ∷ l) h = drop-AllZero n l h.1

module _ (u : Uaccess) where
  -- Clearing from `i` on works on the tail behind the first `i` bytes.
  clear-cons : (n i : ℕ) (x : ℕ) (l : List ℕ) → clear u n (suc i) (x ∷ l) ≡ x ∷ clear u n i l
  unfolding clear
  clear-cons zero i x l = refl
  clear-cons (suc n) i x l = clear-cons n (suc i) x (set l i 0)

  clear-nil : (n i : ℕ) → clear u n i [] ≡ []
  unfolding clear
  clear-nil zero i = refl
  clear-nil (suc n) i = clear-nil n (suc i)

  clear_none : (l : List ℕ) → clear u 0 0 l ≡ l
  unfolding clear
  clear_none l = refl

  clear_first : (n x : ℕ) (l : List ℕ) → clear u (suc n) 0 (x ∷ l) ≡ 0 ∷ clear u n 0 l
  unfolding clear
  clear_first n x l = clear-cons n 0 0 l

  pub clear-AllZero : (n : ℕ) (l : List ℕ) → AllZero (drop n l) → AllZero (clear u n 0 l)
  clear-AllZero zero l h = rw clear_none h
  clear-AllZero (suc n) [] h = rw clear-nil tt
  clear-AllZero (suc n) (x ∷ l) h = rw clear_first (refl, clear-AllZero n l h)

  pub length-clear : (n i : ℕ) (l : List ℕ) → length (clear u n i l) ≡ length l
  unfolding clear
  length-clear zero i l = refl
  length-clear (suc n) i l = length-clear n (suc i) (set l i 0) ∙ length-set l i 0

  -- What a write of `size` bytes leaves: the message, and zeros behind it.
  unfoldable pub written : List ℕ → ℕ → Device → Device
  written buff size d = record d {
    content_size = size;
    buf = u.copy_from_user buff size (clear u d.content_size 0 d.buf);
  }

  module _ (buff : List ℕ) (size : ℕ) (d : Device) (v : IsValid d) (le : size ≤ length buff) where
    cleared : List ℕ
    cleared = clear u d.content_size 0 d.buf

    written-buf : (written buff size d).buf ≡ take size buff ++ drop size cleared
    unfolding written cleared
    written-buf = u.from_user buff size cleared le

    pub take-written : take size (written buff size d).buf ≡ take size buff
    take-written = rw written-buf (take-take-append size buff (drop size cleared) le)

    written-erased : AllZero (drop size (written buff size d).buf)
    unfolding cleared
    written-erased =
        rw (written-buf, drop-take-append size buff (drop size cleared) le)
          (drop-AllZero size cleared (clear-AllZero d.content_size d.buf v.erased))

    pub written-IsValid : size ≤ buf_len → IsValid (written buff size d)
    unfolding written cleared
    written-IsValid fits = record {
      storage =
          ap length written-buf
          ∙ omega (
            arith,
            length-append {0} (take size buff) (drop size cleared),
            length-take {0} size buff,
            length-drop {0} size cleared,
            length-clear d.content_size 0 d.buf,
            v.storage,
          );
      fits = fits;
      near = v.near;
      erased = written-erased;
    }

  pub device_write_lem :
      (buff : List ℕ) (count : ℕ) (d : Device)
      → device_write u buff count d ≡ (min count buf_len, written buff (min count buf_len) d)
  unfolding device_write written
  device_write_lem buff count d = elim (Bool-cases (ltb buf_len count)) [
    | inl over ↦ let e : min count buf_len ≡ buf_len = ground arith in rw (over, e)
    | inr within ↦ let e : min count buf_len ≡ count = ground arith in rw (within, e)
  ]

  -- `device_write` keeps the state valid.
  pub device_write-IsValid :
      (buff : List ℕ) (count : ℕ) (d : Device)
      → IsValid d
      → count ≤ length buff
      → IsValid (device_write u buff count d).1
  device_write-IsValid buff count d v le =
      rw device_write_lem (written-IsValid buff (min count buf_len) d v (omega arith) (omega arith))

  -- `device_read` keeps the state valid.
  pub device_read-IsValid : (count : ℕ) (d : Device) → IsValid d → IsValid (device_read u count d).2
  unfolding device_read
  device_read-IsValid count d v = elim (Bool-cases (leb d.content_size d.offset)) [
    | inl over ↦ rw over v
    | inr before ↦ rw before (record {
      storage = v.storage;
      fits = v.fits;
      near = ground (arith, v.fits);
      erased = v.erased;
    })
  ]
