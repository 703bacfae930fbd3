-- ===== src/Kernel/File/Io/Read.antt =====
-- How `fileread` of Lab6/xv6-semaphores/file.c moves through a file on disk.
use system_device_programmin.Base.{
  ℕ, ◌+◌, ◌≡◌, refl, List, [], ◌∷◌, ◌++◌, true, some, if◌then◌else◌, get_elem?, set,
  get_elem?-set_self, set-set, set_same, get_elem?-lt, ℤ, pos, pos_part, ltb_ℤ, arith,
}
use mathlib.Core.List.{append_assoc}
use system_device_programmin.Kernel.Outcome.{done, ◌>>◌}
use system_device_programmin.Kernel.File.{fd_inode, File, Extern, ilock, iunlock, readi, Ftable}
use system_device_programmin.Kernel.File.Io.{uint, fileread}

-- The offset after a `readi` that returned `r`.
abbrev pub moved : ℕ → ℤ → ℕ
moved off r = if ltb_ℤ (pos 0) r then uint (off + pos_part r) else off

module _ (answer : List Extern → ℤ) (ip k : ℕ) where
  -- What `readi` returns to a `fileread` of `n` bytes to `addr`, at offset `off`.
  abbrev pub returned : List Extern → ℕ → ℕ → ℤ → ℤ
  returned calls off addr n = answer (calls ++ ilock ip ∷ readi ip addr off n ∷ [])

  -- The table after it, if `readi` returned `r`.
  abbrev after : Ftable → File → ℕ → ℤ → ℤ → Ftable
  after t f addr n r = record t {
    file = set t.file k (record f { off = moved f.off r });
    calls = t.calls ++ ilock ip ∷ readi ip addr f.off n ∷ iunlock ip ∷ [];
  }

  fileread_lem :
      (t : Ftable) (f : File) (addr : ℕ) (n r : ℤ)
      → get_elem? t.file k ≡ some f
      → f.readable ≡ true
      → f.kind ≡ fd_inode ip
      → returned t.calls f.off addr n ≡ r
      → fileread answer k addr n t ≡ done r (after t f addr n r)
  unfolding fileread
  fileread_lem t f addr n r at_k readable inode result = ground (
    arith,
    append_assoc t.calls (ilock ip ∷ []) (readi ip addr f.off n ∷ []),
    append_assoc t.calls (ilock ip ∷ readi ip addr f.off n ∷ []) (iunlock ip ∷ []),
    set_same t.file k at_k,
  )

  -- Two reads of a file on disk that is open for reading: the second call of `readi` is for the
  -- offset behind what the first one delivered, or for the same one if the first delivered
  -- nothing or failed. The result is that of the second call, each call has the lock of the
  -- inode, and no other entry of the table changes.
  pub fileread-fileread :
      (t : Ftable) (f : File)
      → get_elem? t.file k ≡ some f
      → f.readable ≡ true
      → f.kind ≡ fd_inode ip
      → (addr addr' : ℕ) (n n' : ℤ)
      → let calls = t.calls ++ ilock ip ∷ readi ip addr f.off n ∷ iunlock ip ∷ [] in
        let off = moved f.off (returned t.calls f.off addr n) in
        let r = returned calls off addr' n' in
        (fileread answer k addr n >> fileread answer k addr' n') t
        ≡ done r (record t {
          file = set t.file k (record f { off = moved off r });
          calls = calls ++ ilock ip ∷ readi ip addr' off n' ∷ iunlock ip ∷ [];
        })
  fileread-fileread t f at_k readable inode addr addr' n n' =
      let first = fileread_lem t f addr n _ at_k readable inode refl in
      let f1 = record f { off = moved f.off (returned t.calls f.off addr n) } in
      let t1 = after t f addr n (returned t.calls f.off addr n) in
      let second =
        fileread_lem t1 f1 addr' n' _ (get_elem?-set_self t.file k f1 (get_elem?-lt t.file k at_k))
          readable inode refl in
      ground (
        arith,
        first,
        second,
        set-set t.file k f1 (record f { off = moved f1.off (returned t1.calls f1.off addr' n') }),
      )
