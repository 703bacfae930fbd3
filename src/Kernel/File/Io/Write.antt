-- ===== src/Kernel/File/Io/Write.antt =====
-- What `filewrite` of Lab6/xv6-semaphores/file.c writes.
use system_device_programmin.Base.{
  ℕ, zero, suc, ◌+◌, ◌≤◌, ◌<◌, ◌≡◌, ◌⊎◌, inl, inr, List, [], ◌∷◌, ◌++◌, true, some, get_elem?, set,
  get_elem?-set_self, set-set, set_same, ℕ_discrete, get_elem?-lt, ℤ, pos, negsuc, arith,
}
use mathlib.Core.List.{append_assoc, append-nil}
use system_device_programmin.Kernel.Outcome.{Outcome, done}
use system_device_programmin.Kernel.File.{
  fd_inode, File, Extern, begin_trans, commit_trans, ilock, iunlock, writei, Ftable,
}
use system_device_programmin.Kernel.File.Io.{uint, chunk, write_loop, filewrite}

-- One transaction: `m` bytes from byte `i` on.
abbrev pub block : ℕ → ℕ → ℕ → ℕ → ℕ → List Extern
block ip addr i off m =
    begin_trans
    ∷ ilock ip
    ∷ writei ip (uint (addr + i)) off (pos m)
    ∷ iunlock ip
    ∷ commit_trans
    ∷ []

-- From byte `i` and offset `off` on the bytes up to `n` are written in order, in transactions of at
-- most 1536 bytes, up to the first that fails: the calls, the offset at the end, and the result.
pub data Writes (ip addr n : ℕ) : ℕ → ℕ → List Extern → ℕ → ℤ → Type 0 where
  whole : {i off : ℕ} → i ≡ n → Writes ip addr n i off [] off (pos n)
  failed :
      (i off m : ℕ)
      → 1 ≤ m
      → m ≤ 1536
      → i + m ≤ n
      → Writes ip addr n i off (block ip addr i off m) off (negsuc 0)
  next :
      {i off off' : ℕ} {es : List Extern} {r : ℤ} (m : ℕ)
      → 1 ≤ m
      → m ≤ 1536
      → i + m ≤ n
      → Writes ip addr n (i + m) (uint (off + m)) es off' r
      → Writes ip addr n i off (block ip addr i off m ++ es) off' r

-- What is documented of `writei`: it writes all, or fails.
abbrev pub AllOrNothing : (List Extern → ℤ) → Type 0
AllOrNothing answer =
    (cs : List Extern) (ip a off m : ℕ)
    → (answer (cs ++ writei ip a off (pos m) ∷ []) ≡ pos m)
      ⊎ (answer (cs ++ writei ip a off (pos m) ∷ []) ≡ negsuc 0)

-- `filewrite` has ended so, for the file `f` at `k`.
abbrev pub Ended : ℕ → ℕ → ℕ → ℕ → File → ℕ → Ftable → Outcome Ftable ℤ → Type 0
Ended ip k addr n f i t o =
    (es : List Extern) × (off : ℕ) × (r : ℤ) × Writes ip addr n i f.off es off r
    × (o
        ≡ done r (record t { file = set t.file k (record f { off = off }); calls = t.calls ++ es }))

module _ (answer : List Extern → ℤ) (ip k addr n : ℕ) (t : Ftable) (f : File) (i : ℕ)
    (at_k : get_elem? t.file k ≡ some f) (left : i < n) where
  abbrev size : ℕ
  size = chunk answer (pos n) i

  abbrev before : List Extern
  before = (t.calls ++ begin_trans ∷ []) ++ ilock ip ∷ []

  abbrev request : Extern
  request = writei ip (uint (addr + i)) f.off (pos size)

  calls_block :
      (((before ++ request ∷ []) ++ iunlock ip ∷ []) ++ commit_trans ∷ [])
      ≡ t.calls ++ block ip addr i f.off size
  calls_block = simp append_assoc

  write_loop_next :
      (fuel : ℕ)
      → answer (before ++ request ∷ []) ≡ pos size
      → write_loop answer (suc fuel) ip k addr (pos n) i t
        ≡ write_loop answer fuel ip k addr (pos n) (i + size) (record t {
          file = set t.file k (record f { off = uint (f.off + size) });
          calls = t.calls ++ block ip addr i f.off size;
        })
  unfolding write_loop
  write_loop_next fuel yes_all = ground (arith, calls_block)

  write_loop_failed :
      (fuel : ℕ)
      → answer (before ++ request ∷ []) ≡ negsuc 0
      → write_loop answer (suc fuel) ip k addr (pos n) i t
        ≡ done (negsuc 0) (record t { calls = t.calls ++ block ip addr i f.off size })
  unfolding write_loop
  write_loop_failed fuel refused = ground (arith, calls_block)

  -- The entry and the table after a block that is written.
  abbrev f' : File
  f' = record f { off = uint (f.off + size) }

  abbrev t' : Ftable
  t' = record t { file = set t.file k f'; calls = t.calls ++ block ip addr i f.off size }

  next-Ended :
      (fuel : ℕ)
      → answer (before ++ request ∷ []) ≡ pos size
      → Ended ip k addr n f' (i + size) t' (write_loop answer fuel ip k addr (pos n) (i + size) t')
      → Ended ip k addr n f i t (write_loop answer (suc fuel) ip k addr (pos n) i t)
  next-Ended fuel yes_all (es, off, r, w, e) = (
    block ip addr i f.off size ++ es,
    off,
    r,
    next size (ground arith) (ground arith) (ground arith) w,
    ground (
      arith,
      write_loop_next fuel yes_all,
      e,
      set-set t.file k f' (record f { off = off }),
      append_assoc t.calls (block ip addr i f.off size) es,
    ),
  )

  failed-Ended :
      (fuel : ℕ)
      → answer (before ++ request ∷ []) ≡ negsuc 0
      → Ended ip k addr n f i t (write_loop answer (suc fuel) ip k addr (pos n) i t)
  failed-Ended fuel refused = (
    block ip addr i f.off size,
    f.off,
    negsuc 0,
    failed i f.off size (ground arith) (ground arith) (ground arith),
    ground (arith, write_loop_failed fuel refused, set_same t.file k at_k),
  )

write_loop_end :
    (answer : List Extern → ℤ) (fuel ip k addr n i : ℕ) (t : Ftable)
    → i ≡ n
    → write_loop answer fuel ip k addr (pos n) i t ≡ done (pos n) t
unfolding write_loop
write_loop_end answer zero ip k addr n i t e = ground arith
write_loop_end answer (suc fuel) ip k addr n i t e = ground arith

module _ (answer : List Extern → ℤ) (all : AllOrNothing answer) (ip k addr n : ℕ) where
  end-Ended :
      (fuel i : ℕ) (t : Ftable) (f : File)
      → get_elem? t.file k ≡ some f
      → i ≡ n
      → Ended ip k addr n f i t (write_loop answer fuel ip k addr (pos n) i t)
  end-Ended fuel i t f at_k e = (
    [],
    f.off,
    pos n,
    whole e,
    ground (
      arith,
      write_loop_end answer fuel ip k addr n i t e,
      set_same t.file k at_k,
      append-nil t.calls,
    ),
  )

  -- With fuel for the bytes that are left.
  write_loop-Ended :
      (fuel i : ℕ) (t : Ftable) (f : File)
      → get_elem? t.file k ≡ some f
      → i ≤ n
      → n ≤ i + fuel
      → Ended ip k addr n f i t (write_loop answer fuel ip k addr (pos n) i t)
  write_loop-Ended zero i t f at_k le enough = end-Ended zero i t f at_k (omega arith)
  write_loop-Ended (suc fuel) i t f at_k le enough = elim (ℕ_discrete i n) [
    | yes e ↦ end-Ended (suc fuel) i t f at_k e
    | no ne ↦
        let lt : i < n = omega arith in
        let m = chunk answer (pos n) i in
        elim (all (before answer ip k addr n t f i at_k lt) ip (uint (addr + i)) f.off m) [
          | inl ok ↦ next-Ended answer ip k addr n t f i at_k lt fuel ok (
              write_loop-Ended fuel (i + m) _ _
                (get_elem?-set_self t.file k _ (get_elem?-lt t.file k at_k)) (ground arith)
                (ground arith))
          | inr refused ↦ failed-Ended answer ip k addr n t f i at_k lt fuel refused
        ]
  ]

  -- `filewrite` of `n` bytes to a file on disk that is open for writing, where `writei` writes
  -- all or fails: it always returns. It makes transactions of at most 1536 bytes that write the
  -- bytes in order, each at the offset that the last one left, and returns `n`; or the last one
  -- fails, nothing is written after it, and it returns -1. No other entry of the table changes.
  pub filewrite-Writes :
      (t : Ftable) (f : File)
      → get_elem? t.file k ≡ some f
      → f.writable ≡ true
      → f.kind ≡ fd_inode ip
      → Ended ip k addr n f 0 t (filewrite answer k addr (pos n) t)
  unfolding filewrite
  filewrite-Writes t f at_k writable inode =
      let (es, off, r, w, e) = write_loop-Ended n 0 t f at_k (omega arith) (omega arith) in
      (es, off, r, w, ground (arith, e))
