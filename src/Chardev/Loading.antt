-- ===== src/Chardev/Loading.antt =====
-- The loading and unloading of the driver in Lab7/modules/chardev_SDP_lab/chardev_SDP_lab.c.
use system_device_programmin.Base.{
  ℕ, ◌≡◌, refl, Bool, true, false, List, [], ◌∷◌, if◌then◌else◌, ◌==◌, ltb_ℤ, ℤ, pos, arith,
  Bool-cases, inl, inr,
}
use system_device_programmin.Chardev.{Device}

-- What the kernel has registered for its drivers: the numbers of the regions and those at which a
-- device answers calls. `dev` is the variable of the module.
pub record Registered : Type 0 where
  pub regions : List ℕ
  pub devices : List ℕ
  pub dev : ℕ

-- `init_module`: `allocated` is what `alloc_chrdev_region` returns, with the number `major`, and
-- `added` what `cdev_add` does. They have an effect where they do not return a negative number.
unfoldable pub init_module : ℤ → ℕ → ℤ → Device → Registered → ℤ × Device × Registered
init_module allocated major added d r =
    if ltb_ℤ allocated (pos 0)
    then (allocated, d, r)
    else if ltb_ℤ added (pos 0)
    then (added, d, record r { regions = major ∷ r.regions; dev = major })
    else (
      pos 0,
      record d { content_size = 0 },
      record r { regions = major ∷ r.regions; devices = major ∷ r.devices; dev = major },
    )

-- The numbers other than `x`.
unfoldable pub without : ℕ → List ℕ → List ℕ
without x [] = []
without x (y ∷ l) = let rest = without x l in if x == y then rest else y ∷ rest

unfoldable pub occurs : ℕ → List ℕ → Bool
occurs x [] = false
occurs x (y ∷ l) = if x == y then true else occurs x l

-- `cleanup_module`: `cdev_del` and `unregister_chrdev_region`.
unfoldable pub cleanup_module : Registered → Registered
cleanup_module r = record r { devices = without r.dev r.devices; regions = without r.dev r.regions }

without-new : (x : ℕ) (l : List ℕ) → occurs x l ≡ false → without x l ≡ l
unfolding occurs without
without-new x [] new = refl
without-new x (y ∷ l) new = elim (Bool-cases (x == y)) [
  | inl same ↦ absurd (ground arith)
  | inr other ↦ rw (other, without-new x l (ground arith)) refl
]

without-first : (x : ℕ) (l : List ℕ) → occurs x l ≡ false → without x (x ∷ l) ≡ l
unfolding without
without-first x l new =
    let same : (x == x) ≡ true = ground arith in rw (same, without-new x l new) refl

-- What `init_module` has done where it returns `ret`, with the device `d` and the registrations `r'`.
pub data Loaded (allocated : ℤ) (major : ℕ) (added : ℤ) (r : Registered) (d : Device)
    : ℤ → Device → Registered → Type 0 where
  no_region : ltb_ℤ allocated (pos 0) ≡ true → Loaded allocated major added r d allocated d r
  half_done :
      {r' : Registered}
      → ltb_ℤ allocated (pos 0) ≡ false
      → ltb_ℤ added (pos 0) ≡ true
      → r'.devices ≡ r.devices
      → occurs major r'.regions ≡ true
      → (cleanup_module r').regions ≡ r.regions
      → Loaded allocated major added r d added d r'
  works :
      {d' : Device} {r' : Registered}
      → ltb_ℤ allocated (pos 0) ≡ false
      → ltb_ℤ added (pos 0) ≡ false
      → d'.content_size ≡ 0
      → occurs r'.dev r'.devices ≡ true
      → (cleanup_module r').regions ≡ r.regions
      → (cleanup_module r').devices ≡ r.devices
      → Loaded allocated major added r d (pos 0) d' r'

-- Where `alloc_chrdev_region` delivers a number that no region and no device has, `init_module`
-- either returns what it returned, negative, and has changed nothing; or it returns what `cdev_add`
-- returned, negative, where no device is added but the number stays taken; or it returns 0, the
-- device answers calls, with no message, and `cleanup_module` takes back the region and the device,
-- and no other ones.
pub init_module-cleanup_module :
    (allocated : ℤ) (major : ℕ) (added : ℤ) (d : Device) (r : Registered)
    → occurs major r.regions ≡ false
    → occurs major r.devices ≡ false
    → let (ret, d', r') = init_module allocated major added d r in
      Loaded allocated major added r d ret d' r'
unfolding init_module cleanup_module occurs
init_module-cleanup_module allocated major added d r region device =
    let same : (major == major) ≡ true = ground arith in
    elim (Bool-cases (ltb_ℤ allocated (pos 0))) [
      | inl fails ↦ rw fails (no_region fails)
      | inr takes ↦ elim (Bool-cases (ltb_ℤ added (pos 0))) [
        | inl fails ↦
            rw (takes, fails)
              (half_done takes fails refl (rw same refl) (without-first major r.regions region))
        | inr adds ↦
            rw (takes, adds)
              (works takes adds refl (rw same refl) (without-first major r.regions region)
                (without-first major r.devices device))
      ]
    ]
