-- ===== src/Office/Ring/Refines.antt =====
-- The cyclic buffer of Lab3/Lab3.c is a queue of at most `dim` entries.
use system_device_programmin.Base.{
  ℕ, zero, suc, ◌+◌, ◌-◌, ◌≤◌, ◌<◌, ◌≡◌, ◌≢◌, ◌⊎◌, refl, inl, inr, List, [], ◌∷◌, ◌++◌, none, some,
  ltb, ◌==◌, if◌then◌else◌, length, get_elem?, set, arith, ℕ_discrete, get_elem?-set_self,
  get_elem?-set_ne, length-set, length-replicate, ◌/◌, ◌↔◌,
}
use system_device_programmin.Office.Ring.{Info, Buffer, b_init, put, get}

-- A position that may have passed the end once.
abbrev pub wrap : ℕ → ℕ → ℕ
wrap dim n = if ltb n dim then n else n - dim

-- The entries of `b` are `xs`, the oldest first.
pub record IsQueue (b : Buffer) (xs : List Info) : Type 0 where
  pub size : length b.buffer ≡ b.dim
  pub out_in : b.out_at < b.dim
  pub counted : length xs ≡ b.count
  pub fits : b.count ≤ b.dim
  pub in_is : b.in_at ≡ wrap b.dim (b.out_at + b.count)
  pub entries :
      (j : ℕ) → j < b.count → get_elem? b.buffer (wrap b.dim (b.out_at + j)) ≡ get_elem? xs j

pub length-snoc : {A : Type 0} (xs : List A) (x : A) → length (xs ++ x ∷ []) ≡ length xs + 1
length-snoc [] x = omega arith
length-snoc (y ∷ xs) x = omega (arith, length-snoc xs x)

snoc-last : {A : Type 0} (xs : List A) (x : A) → get_elem? (xs ++ x ∷ []) (length xs) ≡ some x
snoc-last [] x = refl
snoc-last (y ∷ xs) x = snoc-last xs x

snoc-before :
    {A : Type 0} (xs : List A) (x : A) (j : ℕ)
    → j < length xs
    → get_elem? (xs ++ x ∷ []) j ≡ get_elem? xs j
snoc-before [] x j lt = absurd (omega arith)
snoc-before (y ∷ xs) x zero lt = refl
snoc-before (y ∷ xs) x (suc j) lt = snoc-before xs x j (omega arith)

-- The buffer that `put` and the one that `get` leaves.
abbrev filled : Buffer → Info → Buffer
filled b x = record b {
  buffer = set b.buffer b.in_at x;
  in_at = if b.in_at + 1 == b.dim then 0 else b.in_at + 1;
  count = b.count + 1;
}

abbrev drained : Buffer → Buffer
drained b = record b {
  out_at = if b.out_at + 1 == b.dim then 0 else b.out_at + 1;
  count = b.count - 1;
}

filled-entries :
    (b : Buffer) (xs : List Info) (x : Info)
    → IsQueue b xs
    → b.count < b.dim
    → (j : ℕ) → j < b.count + 1
    → get_elem? (set b.buffer b.in_at x) (wrap b.dim (b.out_at + j)) ≡ get_elem? (xs ++ x ∷ []) j
filled-entries b xs x q free j lt = elim (ℕ_discrete j b.count) [
  | yes e ↦ ground (
    arith,
    q.in_is,
    q.size,
    q.out_in,
    q.counted,
    snoc-last xs x,
    get_elem?-set_self b.buffer b.in_at x (ground (arith, q.in_is, q.out_in, q.size)),
  )
  | no ne ↦
      let elsewhere : b.in_at ≢ wrap b.dim (b.out_at + j) =
        λ same. ground (arith, q.in_is, q.out_in) in
      ground (
        arith,
        q.entries j (omega arith),
        snoc-before xs x j (omega (arith, q.counted)),
        get_elem?-set_ne b.buffer x elsewhere,
      )
]

filled-IsQueue :
    (b : Buffer) (xs : List Info) (x : Info)
    → IsQueue b xs
    → b.count < b.dim
    → IsQueue (filled b x) (xs ++ x ∷ [])
filled-IsQueue b xs x q free = record {
  size = omega (arith, q.size, length-set b.buffer b.in_at x);
  out_in = q.out_in;
  counted = omega (arith, q.counted, length-snoc xs x);
  fits = omega arith;
  in_is = ground (arith, q.in_is, q.out_in);
  entries = filled-entries b xs x q free;
}

drained-IsQueue :
    (b : Buffer) (xs : List Info) (x : Info) → IsQueue b (x ∷ xs) → IsQueue (drained b) xs
drained-IsQueue b xs x q = record {
  size = q.size;
  out_in = ground (arith, q.out_in);
  counted = omega (arith, q.counted);
  fits = omega (arith, q.fits);
  in_is = ground (arith, q.in_is, q.out_in, q.fits, q.counted);
  entries = λ j lt. ground (arith, q.entries (j + 1) (omega (arith, q.counted)), q.out_in, q.fits);
}

first_entry :
    (b : Buffer) (xs : List Info) (x : Info)
    → IsQueue b (x ∷ xs)
    → get_elem? b.buffer b.out_at ≡ some x
first_entry b xs x q = ground (arith, q.entries 0 (omega (arith, q.counted)), q.out_in)

-- The part of `send` on the buffer is the insertion at the end of a queue of at most `dim`
-- entries: with free space it succeeds, and with `dim` entries in the queue it waits.
pub put-IsQueue :
    (b : Buffer) (xs : List Info) (x : Info)
    → IsQueue b xs
    → ((length xs < b.dim)
        × (b' : Buffer) × (put x b ≡ some b')
        × IsQueue b' (xs ++ x ∷ [])
        × (b'.dim ≡ b.dim))
      ⊎ ((length xs ≡ b.dim) × (put x b ≡ none))
unfolding put
put-IsQueue b xs x q = elim (ℕ_discrete b.count b.dim) [
  | yes e ↦ inr (omega (arith, q.counted), ground arith)
  | no ne ↦
      let free : b.count < b.dim = omega (arith, q.fits) in
      inl (omega (arith, q.counted), filled b x, ground arith, filled-IsQueue b xs x q free, refl)
]

-- The part of `receive` on the buffer takes the first entry of the queue, and waits if there is
-- none.
pub get-IsQueue :
    (b : Buffer) (xs : List Info)
    → IsQueue b xs
    → ((xs ≡ []) × (get b ≡ none))
      ⊎ ((x : Info) × (ys : List Info) × (xs ≡ x ∷ ys)
          × (b' : Buffer) × (get b ≡ some (x, b'))
          × IsQueue b' ys
          × (b'.dim ≡ b.dim))
unfolding get
get-IsQueue b [] q = inl (refl, ground (arith, q.counted))
get-IsQueue b (x ∷ xs) q = inr (
  x,
  xs,
  refl,
  drained b,
  ground (arith, q.counted, first_entry b xs x q),
  drained-IsQueue b xs x q,
  refl,
)

-- A new buffer is the empty queue, where it has room at all.
pub b_init-IsQueue : (junk : Info) (dim : ℕ) → 0 < dim → IsQueue (b_init junk dim) []
unfolding b_init
b_init-IsQueue junk dim room = record {
  size = length-replicate dim junk;
  out_in = room;
  counted = refl;
  fits = omega arith;
  in_is = ground arith;
  entries = λ j lt. elim lt [ ];
}

-- In the buffer that an office makes for urgent requests, of `k / 2` entries for `k` students,
-- there is room for a first request exactly if there are at least two students.
pub put-b_init_iff : (k : ℕ) (junk x : Info) → (put x (b_init junk (k / 2)) ≡ none) ↔ (k < 2)
unfolding put b_init
put-b_init_iff k junk x = (λ e. ground arith, λ lt. ground arith)
