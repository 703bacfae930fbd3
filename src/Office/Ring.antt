-- ===== src/Office/Ring.antt =====
-- The cyclic buffer of Lab3/Lab3.c and Lab3/office.h.
pub mod Refines
use system_device_programmin.Base.{
  ℕ, ◌+◌, ◌-◌, List, Option, none, some, ◌==◌, if◌then◌else◌, get_elem?, set, replicate,
}

-- `Info`
pub record Info : Type 0 where
  pub id : ℕ
  pub office_no : ℕ
  pub urgent : ℕ

-- `Buffer`; `in` and `out` are positions in `buffer`.
pub record Buffer : Type 0 where
  pub buffer : List Info
  pub in_at : ℕ
  pub out_at : ℕ
  pub count : ℕ
  pub dim : ℕ

-- What is in fresh memory is of no matter: `junk`.
unfoldable pub b_init : Info → ℕ → Buffer
b_init junk dim = record {
  buffer = replicate dim junk;
  in_at = 0;
  out_at = 0;
  count = 0;
  dim = dim;
}

-- The part of `send` on the buffer; `none`: it waits for free space.
unfoldable pub put : Info → Buffer → Option Buffer
put info b =
    if b.count == b.dim
    then none
    else some (record b {
      buffer = set b.buffer b.in_at info;
      in_at = if b.in_at + 1 == b.dim then 0 else b.in_at + 1;
      count = b.count + 1;
    })

-- The part of `receive` on the buffer; `none`: it waits for data.
unfoldable pub get : Buffer → Option (Info × Buffer)
get b = if b.count == 0 then none else elim (get_elem? b.buffer b.out_at) [
  | none ↦ none
  | some info ↦ some (
    info,
    record b { out_at = if b.out_at + 1 == b.dim then 0 else b.out_at + 1; count = b.count - 1 },
  )
]
