-- ===== src/Readers/Exclusion.antt =====
-- Readers and writers of homework/reader_writer.c exclude each other, and one of them can always go on.
use system_device_programmin.Base.{
  ℕ, ◌+◌, ◌<◌, ◌≡◌, ◌≢◌, inl, inr, refl, ◌∙◌, List, Bool, true, false, some, get_elem?, set,
  get_elem?-set_ne, count, same_place, count-set, count_pos, arith, Bool-cases,
}
use system_device_programmin.Readers.{
  Place, reader_asks, reader_counts, first_waits, reader_reads, reader_leaves, reader_done,
  writer_asks, writer_writes, writer_leaves, writer_done, Library, Reach,
}
use system_device_programmin.Readers.Invariant.{code, as_number_le, Reach-Fits}

-- In the critical region.
abbrev pub reads : Place → Bool
reads reader_reads = true
reads reader_leaves = true
reads _ = false

abbrev pub writes : Place → Bool
writes writer_writes = true
writes writer_leaves = true
writes _ = false

abbrev inside : List Place → ℕ
inside l = count code writer_writes l + count code writer_leaves l

writes-count :
    (l : List Place) (i : ℕ) (p : Place) → get_elem? l i ≡ some p → writes p ≡ true → 0 < inside l
writes-count l i writer_writes e h = omega (arith, count_pos code writer_writes l i e)
writes-count l i writer_leaves e h = omega (arith, count_pos code writer_leaves l i e)
writes-count l i reader_asks e h = absurd (ground arith)
writes-count l i reader_counts e h = absurd (ground arith)
writes-count l i first_waits e h = absurd (ground arith)
writes-count l i reader_reads e h = absurd (ground arith)
writes-count l i reader_leaves e h = absurd (ground arith)
writes-count l i reader_done e h = absurd (ground arith)
writes-count l i writer_asks e h = absurd (ground arith)
writes-count l i writer_done e h = absurd (ground arith)

reads-count :
    (l : List Place) (i : ℕ) (p : Place)
    → get_elem? l i ≡ some p
    → reads p ≡ true
    → 0 < count code reader_reads l + count code reader_leaves l
reads-count l i reader_reads e h = omega (arith, count_pos code reader_reads l i e)
reads-count l i reader_leaves e h = omega (arith, count_pos code reader_leaves l i e)
reads-count l i reader_asks e h = absurd (ground arith)
reads-count l i reader_counts e h = absurd (ground arith)
reads-count l i first_waits e h = absurd (ground arith)
reads-count l i reader_done e h = absurd (ground arith)
reads-count l i writer_asks e h = absurd (ground arith)
reads-count l i writer_writes e h = absurd (ground arith)
reads-count l i writer_leaves e h = absurd (ground arith)
reads-count l i writer_done e h = absurd (ground arith)

-- Beside another thread that writes there are two of them.
two_write :
    (l : List Place) (i j : ℕ) (p q : Place)
    → i ≢ j
    → get_elem? l i ≡ some p
    → get_elem? l j ≡ some q
    → writes p ≡ true
    → writes q ≡ true
    → 1 < inside l
two_write l i j p q ne ei ej wp wq =
    let a = count-set code writer_writes writer_done l i ei in
    let b = count-set code writer_leaves writer_done l i ei in
    let rest = writes-count (set l i writer_done) j q (get_elem?-set_ne l writer_done ne ∙ ej) wq in
    let here : same_place code writer_writes p + same_place code writer_leaves p ≡ 1 = one p wp in
    omega arith
  where
    one :
        (p : Place)
        → writes p ≡ true
        → same_place code writer_writes p + same_place code writer_leaves p ≡ 1
    one writer_writes h = refl
    one writer_leaves h = refl
    one reader_asks h = absurd (ground arith)
    one reader_counts h = absurd (ground arith)
    one first_waits h = absurd (ground arith)
    one reader_reads h = absurd (ground arith)
    one reader_leaves h = absurd (ground arith)
    one reader_done h = absurd (ground arith)
    one writer_asks h = absurd (ground arith)
    one writer_done h = absurd (ground arith)

module _ {n m : ℕ} {s : Library} (r : Reach n m s) where
  -- In every reachable state a thread that writes is alone in the critical region: no other one
  -- writes, and none reads.
  pub alone_writing :
      (i j : ℕ) (p q : Place)
      → get_elem? s.threads i ≡ some p
      → writes p ≡ true
      → i ≢ j
      → get_elem? s.threads j ≡ some q
      → (writes q ≡ false) × (reads q ≡ false)
  alone_writing i j p q ei wp ne ej =
      let f = Reach-Fits r in
      let le = as_number_le s.library_lock in
      let some_writes = writes-count s.threads i p ei wp in
      (
        elim (Bool-cases (writes q)) [
          | inl w ↦
              absurd (ground (arith, f.holds_library, two_write s.threads i j p q ne ei ej wp w))
          | inr w ↦ w
        ],
        elim (Bool-cases (reads q)) [
          | inl w ↦ absurd (ground (arith, f.holds_library, reads-count s.threads j q ej w))
          | inr w ↦ w
        ],
      )

  -- In every reachable state the number that the writers count up says how many have done so.
  pub no_update_lost :
      s.value ≡ count code writer_leaves s.threads + count code writer_done s.threads
  no_update_lost = (Reach-Fits r).updates
